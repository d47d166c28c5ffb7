-- ===== src/Evaluation/Bar.antt =====
-- internal/evaluation/bar.go: has the acceptance bar moved since the arc was planned? The hash is a
-- library's, here the parameter `hash`.
use agentic_dev_harness.Shared.{
  ◌≡◌, ◌≢◌, Bool, true, false, not, String, ◌==◌, eq_iff, if◌then◌else◌, arith,
}
use agentic_dev_harness.Adh.Arc.{Arc}

module _ {U : Type 0} (hash : String → String) where
  -- `BarMoved`, with `BarHash` for the current bar
  unfoldable pub bar_moved : Arc U → String → Bool
  bar_moved arc current = if arc.bar == "" then false else not (arc.bar == hash current)

  -- An arc that recorded no bar is never reported; one that recorded the hash of a bar is reported
  -- against every bar of another hash, and not against that bar.
  bar_moved_lem :
      (arc : Arc U) (planned current : String)
      → (arc.bar ≡ "" → bar_moved arc current ≡ false)
        × (arc.bar ≡ hash planned
            → (bar_moved arc planned ≡ false)
              × (hash planned ≢ "" → hash planned ≢ hash current → bar_moved arc current ≡ true))
  unfolding bar_moved
  bar_moved_lem arc planned current = (
    λ e. ground (arith, eq_iff arc.bar ""),
    λ e. (
      ground (arith, eq_iff arc.bar "", eq_iff arc.bar (hash planned)),
      λ p q. ground (arith, eq_iff arc.bar "", eq_iff arc.bar (hash current)),
    ),
  )
