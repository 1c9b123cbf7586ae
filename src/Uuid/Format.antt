-- ===== src/Uuid/Format.antt =====
-- The text of a generated UUID.
use Prim.Native.Nat.{bit_and}
use Prim.Native.Char.{Char}
use choreography_saga_demo.Base.{
  ℕ, ◌<◌, ◌≤◌, ◌/◌, ◌%◌, ◌^◌, String, ◌≡◌, refl, ap, Bool, true, ◌&&◌, List, [], ◌∷◌, arith, ◌==◌,
  ltb, leb,
}
use choreography_saga_demo.Base.Range.{range_holds, range_holds-at}
use choreography_saga_demo.Uuid.{
  of_chars, uuid_v4, hex_digit, hex_digits, char_at, version_byte, variant_byte,
}

-- What stands at a place of the text: a lower-case hexadecimal digit, a dash, the version digit 4,
-- or a digit 8, 9, a or b, whose bits begin with the variant 10.
pub data Slot : Type 0 where
  digit dash version variant : Slot

abbrev pub Fits : Slot → Char → Type 0
Fits Slot.digit c = (n : ℕ) × (n < 16) × (c ≡ char_at hex_digits n)
Fits Slot.dash c = c ≡ "-"
Fits Slot.version c = c ≡ "4"
Fits Slot.variant c = (n : ℕ) × (8 ≤ n) × (n < 12) × (c ≡ char_at hex_digits n)

pub data Follows : List Slot → List Char → Type 0 where
  done : Follows [] []
  next :
      {s : Slot} {c : Char} {ss : List Slot} {cs : List Char}
      → Fits s c
      → Follows ss cs
      → Follows (s ∷ ss) (c ∷ cs)

abbrev pub chars : String → List Char
chars String.[] = []
chars (String.◌∷◌ c s) = c ∷ chars s

pub chars-of_chars : (cs : List Char) → chars (of_chars cs) ≡ cs
chars-of_chars [] = refl
chars-of_chars (c ∷ cs) = ap (λ x. c ∷ x) (chars-of_chars cs)

-- xxxxxxxx-xxxx-4xxx-yxxx-xxxxxxxxxxxx.
abbrev pub uuid_shape : List Slot
uuid_shape =
    digit ∷ digit ∷ digit ∷ digit ∷ digit ∷ digit ∷ digit ∷ digit ∷ dash ∷ digit ∷ digit ∷ digit
    ∷ digit ∷ dash ∷ version ∷ digit ∷ digit ∷ digit ∷ dash ∷ variant ∷ digit ∷ digit ∷ digit ∷ dash
    ∷ digit ∷ digit ∷ digit ∷ digit ∷ digit ∷ digit ∷ digit ∷ digit ∷ digit ∷ digit ∷ digit ∷ digit
    ∷ []

-- A property of every byte is checked by evaluation.
byte_holds : (p : ℕ → Bool) (b : ℕ) → range_holds p 0 256 ≡ true → b < 256 → p b ≡ true
byte_holds p b h most = range_holds-at p 0 256 b h (omega arith) (omega arith)

low_table : range_holds (λ b. ltb (bit_and b 0x0f) 16) 0 256 ≡ true
unfolding range_holds
low_table = refl

low-lt : (b : ℕ) → b < 256 → bit_and b 0x0f < 16
low-lt b h = ground (arith, byte_holds (λ b. ltb (bit_and b 0x0f) 16) b low_table h)

version_table : range_holds (λ b. version_byte b / 16 == 4 && ltb (version_byte b) 256) 0 256 ≡ true
unfolding range_holds version_byte
version_table = refl

version_byte_lem : (b : ℕ) → b < 256 → (version_byte b / 16 ≡ 4) × (version_byte b < 256)
version_byte_lem b h = ground (
  arith,
  byte_holds (λ b. version_byte b / 16 == 4 && ltb (version_byte b) 256) b version_table h,
)

variant_table :
    range_holds
      (λ b. leb 8 (variant_byte b / 16) && ltb (variant_byte b / 16) 12 && ltb (variant_byte b) 256)
      0
      256
    ≡ true
unfolding range_holds variant_byte
variant_table = refl

variant_byte_lem :
    (b : ℕ)
    → b < 256
    → (8 ≤ variant_byte b / 16) × (variant_byte b / 16 < 12) × (variant_byte b < 256)
variant_byte_lem b h = ground (
  arith,
  byte_holds
      (λ b. leb 8 (variant_byte b / 16) && ltb (variant_byte b / 16) 12 && ltb (variant_byte b) 256)
      b variant_table h,
)

-- A byte makes two digits.
two_digits :
    (b : ℕ) {ss : List Slot} {cs : List Char}
    → b < 256
    → Follows ss cs
    → Follows (digit ∷ digit ∷ ss) (hex_digit (b / 16) ∷ hex_digit (bit_and b 0x0f) ∷ cs)
unfolding hex_digit
two_digits b h f = next (b / 16, omega arith, refl) (next (bit_and b 0x0f, low-lt b h, refl) f)

version_digits :
    (b : ℕ) {ss : List Slot} {cs : List Char}
    → b < 256
    → Follows ss cs
    → Follows
        (version ∷ digit ∷ ss)
        (hex_digit (version_byte b / 16) ∷ hex_digit (bit_and (version_byte b) 0x0f) ∷ cs)
unfolding hex_digit
version_digits b h f =
    next (ap (char_at hex_digits) (version_byte_lem b h).0) (
      next (bit_and (version_byte b) 0x0f, low-lt (version_byte b) (version_byte_lem b h).1, refl)
        f)

variant_digits :
    (b : ℕ) {ss : List Slot} {cs : List Char}
    → b < 256
    → Follows ss cs
    → Follows
        (variant ∷ digit ∷ ss)
        (hex_digit (variant_byte b / 16) ∷ hex_digit (bit_and (variant_byte b) 0x0f) ∷ cs)
unfolding hex_digit
variant_digits b h f =
    let (least, most, byte) = variant_byte_lem b h in
    next (variant_byte b / 16, least, most, refl)
      (next (bit_and (variant_byte b) 0x0f, low-lt (variant_byte b) byte, refl) f)

-- For every two words drawn, the text has the form xxxxxxxx-xxxx-4xxx-yxxx-xxxxxxxxxxxx of a version 4
-- UUID: x a lower-case hexadecimal digit, y one of 8, 9, a and b.
pub uuid_v4_shape : (hi lo : ℕ) → Follows uuid_shape (chars (uuid_v4 hi lo))
unfolding uuid_v4
uuid_v4_shape hi lo = two_digits (hi % 256) (omega arith) (
    two_digits (hi / 2 ^ 8 % 256) (omega arith) (
      two_digits (hi / 2 ^ 16 % 256) (omega arith) (
        two_digits (hi / 2 ^ 24 % 256) (omega arith) (
          next refl (
            two_digits (hi / 2 ^ 32 % 256) (omega arith) (
              two_digits (hi / 2 ^ 40 % 256) (omega arith) (
                next refl (
                  version_digits (hi / 2 ^ 48 % 256) (omega arith) (
                    two_digits (hi / 2 ^ 56 % 256) (omega arith) (
                      next refl (
                        variant_digits (lo % 256) (omega arith) (
                          two_digits (lo / 2 ^ 8 % 256) (omega arith) (
                            next refl (
                              two_digits (lo / 2 ^ 16 % 256) (omega arith) (
                                two_digits (lo / 2 ^ 24 % 256) (omega arith) (
                                  two_digits (lo / 2 ^ 32 % 256) (omega arith) (
                                    two_digits (lo / 2 ^ 40 % 256) (omega arith) (
                                      two_digits (lo / 2 ^ 48 % 256) (omega arith) (
                                        two_digits (lo / 2 ^ 56 % 256) (omega arith)
                                          done)))))))))))))))))))
