-- ===== src/Uuid.antt =====
-- uuid_v4 of services/inventory/src/envelope.cpp, from the two random 64-bit words that it draws.
pub mod Format
use Prim.Native.Nat.{bit_and, bit_or}
use Prim.Native.Char.{Char}
use Prim.Native.String
use choreography_saga_demo.Base.{
  ℕ, zero, suc, ◌+◌, ◌/◌, ◌%◌, ◌^◌, ◌*◌, String, Bool, ◌||◌, List, [], ◌∷◌, ◌++◌, ◌==◌,
  if◌then◌else◌,
}

-- (uint8_t)(word >> (8 * i)) for i = 0, 1, ..., 7.
abbrev pub bytes_of : ℕ → List ℕ
bytes_of word =
    word % 256
    ∷ word / 2 ^ 8 % 256
    ∷ word / 2 ^ 16 % 256
    ∷ word / 2 ^ 24 % 256
    ∷ word / 2 ^ 32 % 256
    ∷ word / 2 ^ 40 % 256
    ∷ word / 2 ^ 48 % 256
    ∷ word / 2 ^ 56 % 256
    ∷ []

unfoldable pub version_byte : ℕ → ℕ
version_byte b = bit_or (bit_and b 0x0f) 0x40

unfoldable pub variant_byte : ℕ → ℕ
variant_byte b = bit_or (bit_and b 0x3f) 0x80

-- An assignment bytes[i] = f(bytes[i]).
abbrev pub update : ℕ → (ℕ → ℕ) → List ℕ → List ℕ
update i f [] = []
update zero f (b ∷ bs) = f b ∷ bs
update (suc i) f (b ∷ bs) = b ∷ update i f bs

abbrev pub stamped : ℕ → ℕ → List ℕ
stamped hi lo = update 8 variant_byte (update 6 version_byte (bytes_of hi ++ bytes_of lo))

-- kHex.
abbrev pub hex_digits : List Char
hex_digits =
    "0" ∷ "1" ∷ "2" ∷ "3" ∷ "4" ∷ "5" ∷ "6" ∷ "7" ∷ "8" ∷ "9" ∷ "a" ∷ "b" ∷ "c" ∷ "d" ∷ "e" ∷ "f"
    ∷ []

abbrev pub char_at : List Char → ℕ → Char
char_at [] i = "?"
char_at (c ∷ cs) zero = c
char_at (c ∷ cs) (suc i) = char_at cs i

unfoldable pub hex_digit : ℕ → Char
hex_digit n = char_at hex_digits n

abbrev pub dash_before : ℕ → Bool
dash_before i = i == 4 || i == 6 || i == 8 || i == 10

-- The loop over the bytes, from index `i`.
abbrev pub format : ℕ → List ℕ → List Char
format i [] = []
format i (b ∷ bs) =
    let rest : List Char = hex_digit (b / 16) ∷ hex_digit (bit_and b 0x0f) ∷ format (i + 1) bs in
    if dash_before i then "-" ∷ rest else rest

abbrev pub of_chars : List Char → String
of_chars [] = String.[]
of_chars (c ∷ cs) = String.◌∷◌ c (of_chars cs)

unfoldable pub uuid_v4 : ℕ → ℕ → String
uuid_v4 hi lo = of_chars (format 0 (stamped hi lo))
