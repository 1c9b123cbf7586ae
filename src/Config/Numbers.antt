-- ===== src/Config/Numbers.antt =====
-- The numbers that the environment sets.
use choreography_saga_demo.Base.{
  ℕ, ◌+◌, ◌*◌, ◌<◌, String, ◌≡◌, refl, inl, inr, true, List, [], ◌∷◌, Option, some, arith, All,
  Option-cases, if◌then◌else◌, leb, ◌==◌,
}
use Prim.Native.Char.{code}
use choreography_saga_demo.Base.Int.{ℤ, pos, ◌≤ℤ◌, InRange, int_max}
use choreography_saga_demo.Config.{stoi, env_int, load, read_signed, skip_space, read_digits}
use text.Mathlib.TextLemmas.{cons-ne-nil}
use choreography_saga_demo.Base.Range.{range_holds, range_holds-at}
use choreography_saga_demo.Uuid.{hex_digits, char_at}
use choreography_saga_demo.Relay.{batch_size}

stoi-InRange : (text : String) (n : ℤ) → stoi text ≡ some n → InRange n
unfolding stoi
stoi-InRange text n h = elim (Option-cases (read_signed (skip_space text))) [
  | inl x ↦ absurd (ground (arith, x))
  | inr (m, x) ↦ ground (arith, x)
]

env_int-InRange :
    (getenv : String → Option String) (key : String) (fallback : ℤ)
    → InRange fallback
    → InRange (env_int getenv key fallback)
unfolding env_int
env_int-InRange getenv key fallback h = elim (Option-cases (getenv key)) [
  | inl x ↦ ground (arith, x)
  | inr (value, x) ↦ elim (Option-cases (stoi value)) [
    | inl y ↦ ground (arith, x, y)
    | inr (n, y) ↦ ground (arith, x, y, stoi-InRange value n y)
  ]
]

-- Whatever the environment holds, the batch size of the relay that main.cpp makes from the
-- configuration is positive, and an int.
pub relay_batch_size-positive :
    (getenv : String → Option String)
    → let size : ℤ = batch_size (load getenv).relay_batch_size in
      (pos 1 ≤ℤ size) × (size ≤ℤ int_max)
unfolding load batch_size
relay_batch_size-positive getenv =
    ground (arith, env_int-InRange getenv "OUTBOX_RELAY_BATCH" (pos 100) (omega arith))

-- Decimal numerals, and the number that one stands for after the number `n`.
abbrev pub numeral : List ℕ → String
numeral [] = String.[]
numeral (d ∷ ds) = String.◌∷◌ (char_at hex_digits d) (numeral ds)

abbrev pub value_of : ℕ → List ℕ → ℕ
value_of n [] = n
value_of n (d ∷ ds) = value_of (n * 10 + d) ds

digit_table : range_holds (λ d. code (char_at hex_digits d) == 48 + d) 0 10 ≡ true
unfolding range_holds
digit_table = refl

code-digit : (d : ℕ) → d < 10 → code (char_at hex_digits d) ≡ 48 + d
code-digit d h = ground (
  arith,
  range_holds-at (λ d. code (char_at hex_digits d) == 48 + d) 0 10 d digit_table (omega arith)
      (omega arith),
)

read_digits-numeral :
    (n : ℕ) (ds : List ℕ) → All (λ d. d < 10) ds → read_digits n (numeral ds) ≡ value_of n ds
read_digits-numeral n [] h = refl
read_digits-numeral n (d ∷ ds) h =
    ground (arith, code-digit d h.0, read_digits-numeral (n * 10 + d) ds h.1)

read_signed-numeral :
    (d : ℕ) (ds : List ℕ)
    → All (λ x. x < 10) (d ∷ ds)
    → read_signed (skip_space (numeral (d ∷ ds))) ≡ some (pos (value_of 0 (d ∷ ds)))
read_signed-numeral d ds h = ground (arith, code-digit d h.0, read_digits-numeral 0 (d ∷ ds) h)

-- A setting whose text is a decimal numeral is read at its value where it fits an int, and is
-- replaced by the fallback where it does not.
pub env_int-numeral :
    (getenv : String → Option String) (key : String) (fallback : ℤ) (d : ℕ) (ds : List ℕ)
    → All (λ x. x < 10) (d ∷ ds)
    → getenv key ≡ some (numeral (d ∷ ds))
    → env_int getenv key fallback
      ≡ (if leb (value_of 0 (d ∷ ds)) 2147483647 then pos (value_of 0 (d ∷ ds)) else fallback)
unfolding env_int stoi
env_int-numeral getenv key fallback d ds h set =
    ground (arith, set, read_signed-numeral d ds h, cons-ne-nil (char_at hex_digits d) (numeral ds))
