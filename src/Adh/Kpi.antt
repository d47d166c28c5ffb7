-- ===== src/Adh/Kpi.antt =====
-- internal/adh/domain.go: performance indicators, over the interface of floats.
use agentic_dev_harness.Shared.{Bool, true, false, not, ◌&&◌, String, ◌==◌}
use agentic_dev_harness.Float.{Float}

pub data Direction : Type 0 where
  above below : Direction
  other : String → Direction

-- `KPI`
pub record Kpi (F : Type 0) : Type 0 where
  pub metric : String
  pub threshold : F
  pub direction : Direction

-- `Direction.Valid`
abbrev pub direction_valid : Direction → Bool
direction_valid (Direction.other s) = false
direction_valid _ = true

-- `(*KPI).Valid`
unfoldable pub kpi_valid : {F : Type 0} → Kpi F → Bool
kpi_valid kpi = not (kpi.metric == "") && direction_valid kpi.direction

module _ (float : Float) where
  open float use {F, lt}

  abbrev pub past : Direction → F → F → Bool
  past above threshold value = lt threshold value
  past below threshold value = lt value threshold
  past (Direction.other s) threshold value = false

  -- `(*KPI).Breached`
  unfoldable pub breached : Kpi F → F → Bool
  breached kpi value = past kpi.direction kpi.threshold value
