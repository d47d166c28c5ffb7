-- ===== src/Evidence/Laws.antt =====
-- What was appended to the log is read again.
use agentic_dev_harness.Shared.{
  ℕ, ◌+◌, ◌<◌, ◌≡◌, refl, ◌≢◌, true, false, none, some, List, [], ◌∷◌, String, ◌==◌, All,
  trim_space, eq_iff, arith, ltb,
}
use agentic_dev_harness.Adh.Error.{ok}
use agentic_dev_harness.Float.{Float}
use agentic_dev_harness.Evidence.{
  Evidence, Codec, valid, read, read_from, append, byte_len, buf_cap,
}

module _ (float : Float) (codec : Codec float) where
  -- A record that JSON writes on a line without white space at its ends, which is shorter than the
  -- buffer of the reader, and that JSON reads again.
  pub record IsCoded (rec : Evidence float) : Type 0 where
    pub line : String
    pub encoded : codec.encode rec ≡ ok line
    pub trimmed : trim_space line ≡ line
    pub full : line ≢ ""
    pub short : byte_len line < buf_cap
    pub decoded_ : codec.decode line ≡ some rec

  append-read_from :
      (n line : ℕ) (recs : List (Evidence float))
      → All (λ r. valid r.status ≡ true) recs
      → All IsCoded recs
      → ((append float codec (λ k. none) n recs).1 ≡ none)
        × (read_from float codec line none (append float codec (λ k. none) n recs).0 ≡ ok recs)
  unfolding append read_from
  append-read_from n line [] v c = (refl, refl)
  append-read_from n line (r ∷ recs) v c =
      let (ended, ih) = append-read_from (n + 1) (line + 1) recs v.1 c.1 in
      let coded = c.0 in
      let some_ : (coded.line == "") ≡ false = ground (arith, coded.full, eq_iff coded.line "") in
      let fits : ltb (byte_len coded.line) buf_cap ≡ true = ground (arith, coded.short) in
      rw v.0 (
        rw coded.encoded
          (ended, rw fits (rw coded.trimmed (rw some_ (rw coded.decoded_ (rw ih refl))))))

  -- Records of a known status that JSON carries, each on a line shorter than the reader's buffer of
  -- 1 MiB, are all appended, where the writer does not fail, and reading the log again, where the
  -- reader does not fail, gives them back in order.
  pub read-append :
      (recs : List (Evidence float))
      → All (λ r. valid r.status ≡ true) recs
      → All IsCoded recs
      → ((append float codec (λ k. none) 0 recs).1 ≡ none)
        × (read float codec none (append float codec (λ k. none) 0 recs).0 ≡ ok recs)
  unfolding read
  read-append recs v c = append-read_from 0 1 recs v c
