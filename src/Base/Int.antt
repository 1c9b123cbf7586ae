-- ===== src/Base/Int.antt =====
-- Signed integers over the native numbers. Sums and orders go through the two parts of an integer,
-- which `omega` reads.
use choreography_saga_demo.Base.{
  ℕ, suc, ◌+◌, ◌-◌, ◌≤◌, ◌≡◌, Bool, ◌&&◌, arith, ltb, leb, if◌then◌else◌,
}

-- `negsuc n` is -(n + 1).
pub data ℤ : Type 0 where
  pos : ℕ → ℤ
  negsuc : ℕ → ℤ

abbrev pub pos_part : ℤ → ℕ
pos_part (pos n) = n
pos_part (negsuc n) = 0

abbrev pub neg_part : ℤ → ℕ
neg_part (pos n) = 0
neg_part (negsuc n) = suc n

abbrev pub sub_ℕ : ℕ → ℕ → ℤ
sub_ℕ a b = if leb b a then pos (a - b) else negsuc (b - a - 1)

infixl 65 ◌+ℤ◌ ◌-ℤ◌
infix 50 ◌≤ℤ◌ ◌<ℤ◌
unfoldable pub ◌+ℤ◌ : ℤ → ℤ → ℤ
a +ℤ b = sub_ℕ (pos_part a + pos_part b) (neg_part a + neg_part b)

unfoldable pub ◌-ℤ◌ : ℤ → ℤ → ℤ
a -ℤ b = sub_ℕ (pos_part a + neg_part b) (neg_part a + pos_part b)

abbrev pub ◌≤ℤ◌ : ℤ → ℤ → Type 0
a ≤ℤ b = pos_part a + neg_part b ≤ pos_part b + neg_part a

abbrev pub ◌<ℤ◌ : ℤ → ℤ → Type 0
a <ℤ b = suc (pos_part a + neg_part b) ≤ pos_part b + neg_part a

abbrev pub ltb_ℤ : ℤ → ℤ → Bool
ltb_ℤ a b = ltb (pos_part a + neg_part b) (pos_part b + neg_part a)

abbrev pub leb_ℤ : ℤ → ℤ → Bool
leb_ℤ a b = leb (pos_part a + neg_part b) (pos_part b + neg_part a)

pub +ℤ_parts :
    (a b : ℤ)
    → pos_part (a +ℤ b) + neg_part a + neg_part b ≡ neg_part (a +ℤ b) + pos_part a + pos_part b
unfolding ◌+ℤ◌
+ℤ_parts a b = ground arith

pub -ℤ_parts :
    (a b : ℤ)
    → pos_part (a -ℤ b) + neg_part a + pos_part b ≡ neg_part (a -ℤ b) + pos_part a + neg_part b
unfolding ◌-ℤ◌
-ℤ_parts a b = ground arith

pub eq_of_parts : (a b : ℤ) → pos_part a + neg_part b ≡ pos_part b + neg_part a → a ≡ b
eq_of_parts a b h = ground arith

pub ruleset int_laws = (arith, +ℤ_parts, -ℤ_parts, eq_of_parts)

-- The range of a C++ `int` and of a PostgreSQL INT column.
abbrev pub int_max : ℤ
int_max = pos 2147483647

abbrev pub int_min : ℤ
int_min = negsuc 2147483647

abbrev pub fits_int : ℤ → Bool
fits_int a = leb_ℤ int_min a && leb_ℤ a int_max

abbrev pub InRange : ℤ → Type 0
InRange a = (int_min ≤ℤ a) × (a ≤ℤ int_max)

pub add-sub : (a q : ℤ) → a -ℤ q +ℤ q ≡ a
add-sub a q = omega int_laws

pub sub-add : (a q : ℤ) → a +ℤ q -ℤ q ≡ a
sub-add a q = omega int_laws

-- Moving an amount from one summand to the other keeps the sum.
pub sum-shift : (a r q : ℤ) → a -ℤ q +ℤ (r +ℤ q) ≡ a +ℤ r
sum-shift a r q = omega int_laws

pub sum-shift_back : (a r q : ℤ) → a +ℤ q +ℤ (r -ℤ q) ≡ a +ℤ r
sum-shift_back a r q = omega int_laws

pub +ℤ_comm : (a b : ℤ) → a +ℤ b ≡ b +ℤ a
+ℤ_comm a b = omega int_laws

pub zero-+ℤ : (a : ℤ) → pos 0 +ℤ a ≡ a
zero-+ℤ a = omega int_laws

pub +ℤ_left_comm : (a b c : ℤ) → a +ℤ (b +ℤ c) ≡ b +ℤ (a +ℤ c)
+ℤ_left_comm a b c = omega int_laws

pub add-sub_left : (q a : ℤ) → q +ℤ a -ℤ q ≡ a
add-sub_left q a = omega int_laws

pub add-ne : (a q : ℤ) → pos 1 ≤ℤ q → ¬ (a +ℤ q ≡ a)
unfolding ◌+ℤ◌
add-ne a q h e = ground (arith, +ℤ_parts a q)
