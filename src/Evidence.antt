-- ===== src/Evidence.antt =====
-- internal/evidence/evidence.go: the log of the self-optimization cycle, as lines of JSON. Encoding
-- and decoding a record, and the errors of the reader and the writer, are parameters.
pub mod Laws
use Prim.Native.Char.{code}
use Prim.Native.String
use agentic_dev_harness.Shared.{
  ℕ, ◌+◌, Bool, true, false, Option, none, some, List, [], ◌∷◌, ◌++◌, String, ◌==◌, if◌then◌else◌,
  concat, decimal, trim_space, ltb,
}
use agentic_dev_harness.Adh.Error.{Error, foreign, Result, ok, err, coded, wrap, invalid}
use agentic_dev_harness.Float.{Float}

-- `Status`; `other` is every text that is none of the four.
pub data Outcome : Type 0 where
  baseline keep revert error : Outcome
  other : String → Outcome

-- `valid`
unfoldable pub valid : Outcome → Bool
valid (Outcome.other s) = false
valid _ = true

abbrev pub outcome_text : Outcome → String
outcome_text baseline = "baseline"
outcome_text keep = "keep"
outcome_text revert = "revert"
outcome_text error = "error"
outcome_text (Outcome.other s) = s

-- `bufCap`, 1 MiB
abbrev pub buf_cap : ℕ
buf_cap = 1048576

-- The bytes of a character in UTF-8.
abbrev utf8_len : ℕ → ℕ
utf8_len c = if ltb c 0x80 then 1 else if ltb c 0x800 then 2 else if ltb c 0x10000 then 3 else 4

-- `len` of a string
unfoldable pub byte_len : String → ℕ
byte_len String.[] = 0
byte_len (String.◌∷◌ c s) = utf8_len (code c) + byte_len s

-- `bufio.ErrTooLong`: a line, with what ends it, does not fit into the scanner's buffer.
abbrev pub too_long : Error
too_long = foreign "bufio.Scanner: token too long"

module _ (float : Float) where
  -- `Record`
  pub record Evidence : Type 0 where
    pub timestamp : String
    pub arc : String
    pub stage : String
    pub gate_action : String
    pub old_score : float.F
    pub new_score : float.F
    pub status : Outcome
    pub note : String

  -- `json.Marshal` and `json.Unmarshal` of a record
  pub record Codec : Type 0 where
    pub encode : Evidence → Result String
    pub decode : String → Option Evidence

  module _ (codec : Codec) where
    abbrev decoded : Option Evidence → ℕ → Result (List Evidence) → Result (List Evidence)
    decoded none line rest =
        err (coded invalid (concat ("evidence: line " ∷ decimal line ∷ " is not valid JSON" ∷ [])))
    decoded (some rec) line (ok recs) = ok (rec ∷ recs)
    decoded (some rec) line (err e) = err e

    -- The loop of `Read`, and behind it the error of the scanner, which stops at a line that is not
    -- shorter than its buffer.
    unfoldable pub read_from : ℕ → Option Error → List String → Result (List Evidence)
    unfolding trim_space decimal byte_len
    read_from line none [] = ok []
    read_from line (some e) [] = err (wrap "evidence.Read" e)
    read_from line fault (raw ∷ rest) =
        let later = read_from (line + 1) fault rest in
        if ltb (byte_len raw) buf_cap
        then (if trim_space raw == ""
            then later
            else decoded (codec.decode (trim_space raw)) line later)
        else err (wrap "evidence.Read" too_long)

    -- `Read`
    unfoldable pub read : Option Error → List String → Result (List Evidence)
    unfolding read_from
    read fault lines = read_from 1 fault lines

    abbrev written :
        Result String → Option Error → List String × Option Error → List String × Option Error
    written (err e) fault rest = ([], some (wrap "evidence.Append" e))
    written (ok line) (some e) rest = ([], some (wrap "evidence.Append" e))
    written (ok line) none (lines, e) = (line ∷ lines, e)

    -- `Append`: the lines that were written before it ended, and its error. The writer may fail at
    -- any line, `fault` says with which error.
    unfoldable pub append : (ℕ → Option Error) → ℕ → List Evidence → List String × Option Error
    unfolding valid
    append fault n [] = ([], none)
    append fault n (rec ∷ recs) =
        let rest = append fault (n + 1) recs in
        if valid rec.status then written (codec.encode rec) (fault n) rest else (
          [],
          some
              (coded invalid (concat ("evidence: invalid status " ∷ outcome_text rec.status ∷ []))),
        )
