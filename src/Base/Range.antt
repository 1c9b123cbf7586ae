-- ===== src/Base/Range.antt =====
-- A property of a range of numbers that is checked by evaluation.
use Prim.Native.Nat.{ℕ, zero, suc, ◌+◌, ◌≤◌, ◌<◌}
use mathlib.Core.Path.{◌≡◌, ap}
use mathlib.Core.Bool.{Bool, true, false}
use native.Mathlib.Omega.{arith}
use native.Mathlib.Decide.{dec_lt}

unfoldable pub range_holds : (ℕ → Bool) → (first count : ℕ) → Bool
range_holds p first zero = true
range_holds p first (suc count) = elim (p first) [
  | true ↦ range_holds p (suc first) count
  | false ↦ false
]

pub range_holds-at :
    (p : ℕ → Bool) (first count b : ℕ)
    → range_holds p first count ≡ true
    → first ≤ b
    → b < first + count
    → p b ≡ true
unfolding range_holds
range_holds-at p first zero b h least most = absurd (omega arith)
range_holds-at p first (suc count) b h least most = elim (dec_lt first b) [
  | yes later ↦ ground (arith, range_holds-at p (suc first) count b)
  | no here ↦ let same : first ≡ b = omega arith in ground (arith, ap p same)
]
