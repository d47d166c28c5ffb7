-- ===== src/Float.antt =====
-- Go's float64 as an interface: the operations that the program uses, and, apart from them, the
-- laws of IEEE 754 that some theorems name as a hypothesis. They hold with infinities and NaN too.
use agentic_dev_harness.Shared.{ℕ, ◌≡◌, Bool, true}

pub record Float : Type 1 where
  pub F : Type 0
  pub zero : F
  pub of_nat : ℕ → F
  pub lt : F → F → Bool
  pub le : F → F → Bool
  pub eq : F → F → Bool
  pub add : F → F → F
  pub sub : F → F → F
  pub mul : F → F → F
  pub div : F → F → F

-- A comparison with NaN is false, so `le` is transitive everywhere.
pub record IsOrdered (float : Float) : Type 0 where
  pub le_trans : (a b c : float.F) → float.le a b ≡ true → float.le b c ≡ true → float.le a c ≡ true
