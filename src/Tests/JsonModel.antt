-- ===== src/Tests/JsonModel.antt =====
-- JSON values that meet the laws of Json: a value is the text that it is written as, a tag and then a
-- sequence of words, in which every character has a mark in front of it and every word an end.
use Prim.Native.Char.{Char, code}
use mathlib.Core.List.{append_assoc, append-nil}
use choreography_saga_demo.Base.{
  ℕ, zero, suc, String, ◌≡◌, refl, ap, ◌∙◌, sym, Bool, true, false, List, [], ◌∷◌, ◌++◌, Option,
  none, some, arith, ◌==◌,
}
use choreography_saga_demo.Base.Int.{ℤ, pos, negsuc}
use choreography_saga_demo.Base.Outcome.{Outcome, ok, throws, json_type_error}
use choreography_saga_demo.Uuid.{of_chars}
use choreography_saga_demo.Uuid.Format.{chars, chars-of_chars}
use choreography_saga_demo.Json.{Json, JsonLaws, field}

of_chars-chars : (s : String) → of_chars (chars s) ≡ s
of_chars-chars String.[] = refl
of_chars-chars (String.◌∷◌ c s) = ap (λ t. String.◌∷◌ c t) (of_chars-chars s)

-- A word, and what follows it.
abbrev word : List Char → List Char → List Char
word [] rest = "e" ∷ rest
word (c ∷ cs) rest = "c" ∷ c ∷ word cs rest

abbrev is_end : Char → Bool
is_end c = code c == code "e"

-- The words of a sequence, with what has been read of the first.
abbrev words : List Char → List Char → List (List Char)
words acc [] = []
words acc (m ∷ []) = elim (is_end m) [ true ↦ acc ∷ [] | false ↦ [] ]
words acc (m ∷ c ∷ s) = elim (is_end m) [
  | true ↦ acc ∷ words [] (c ∷ s)
  | false ↦ words (acc ++ c ∷ []) s
]

words-end : (acc rest : List Char) → words acc ("e" ∷ rest) ≡ acc ∷ words [] rest
words-end acc [] = refl
words-end acc (c ∷ s) = refl

words-word : (acc cs rest : List Char) → words acc (word cs rest) ≡ (acc ++ cs) ∷ words [] rest
words-word acc [] rest = words-end acc rest ∙ ap (λ t. t ∷ words [] rest) (sym (append-nil acc))
words-word acc (c ∷ cs) rest =
    words-word (acc ++ c ∷ []) cs rest ∙ ap (λ t. t ∷ words [] rest) (append_assoc acc (c ∷ []) cs)

abbrev write : List (String × List Char) → List Char
write [] = []
write ((k, v) ∷ fs) = word (chars k) (word v (write fs))

abbrev pairs : List (List Char) → List (String × List Char)
pairs [] = []
pairs (k ∷ []) = []
pairs (k ∷ v ∷ ws) = (of_chars k, v) ∷ pairs ws

unfoldable pub read : List Char → List (String × List Char)
read s = pairs (words [] s)

read-write : (fs : List (String × List Char)) → read (write fs) ≡ fs
unfolding read
read-write [] = refl
read-write ((k, v) ∷ fs) =
    ap pairs (words-word [] (chars k) (word v (write fs)))
    ∙ ap (λ t. pairs (chars k ∷ t)) (words-word [] v (write fs))
    ∙ (λ i. (of_chars-chars k i, v) ∷ read-write fs i)

abbrev unary : ℕ → List Char
unary zero = []
unary (suc n) = "1" ∷ unary n

abbrev number : ℤ → List Char
number (pos n) = "p" ∷ unary n
number (negsuc n) = "n" ∷ unary n

abbrev has_tag : Char → Char → Bool
has_tag t c = code c == code t

-- The fields of an object, `none` for another value.
unfoldable pub fields_of : List Char → Option (List (String × List Char))
unfolding read
fields_of [] = none
fields_of (t ∷ s) = elim (has_tag "o" t) [ true ↦ some (read s) | false ↦ none ]

unfoldable pub text_of : List Char → Outcome String
text_of [] = throws json_type_error
text_of (t ∷ s) = elim (has_tag "t" t) [ true ↦ ok (of_chars s) | false ↦ throws json_type_error ]

abbrev count : List Char → ℕ
count [] = 0
count (c ∷ s) = suc (count s)

count-unary : (n : ℕ) → count (unary n) ≡ n
count-unary zero = refl
count-unary (suc n) = ap suc (count-unary n)

unfoldable pub int_of : List Char → Outcome ℤ
int_of [] = throws json_type_error
int_of (t ∷ s) = elim (has_tag "p" t) [
  | true ↦ ok (pos (count s))
  | false ↦ elim (has_tag "n" t) [ true ↦ ok (negsuc (count s)) | false ↦ throws json_type_error ]
]

-- value(key, default), by how a stored value is converted.
abbrev value : {A : Type 0} → (List Char → Outcome A) → List Char → String → A → Outcome A
value convert j k d = elim (fields_of j) [
  | none ↦ throws json_type_error
  | some fs ↦ elim (field k fs) [ none ↦ ok d | some v ↦ convert v ]
]

abbrev pub model : Json (List Char)
model = record {
  text = λ s. "t" ∷ chars s;
  number = number;
  boolean = λ b. elim b [ true ↦ "y" ∷ [] | false ↦ "z" ∷ [] ];
  object = λ fs. "o" ∷ write fs;
  dump = λ j. ok (of_chars j);
  parse = λ s. some (chars s);
  is_object = λ j. elim (fields_of j) [ none ↦ false | some fs ↦ true ];
  value_text = value text_of;
  value_int = value int_of;
  value_json = value (λ v. ok v);
}

fields_of-object : (fs : List (String × List Char)) → fields_of ("o" ∷ write fs) ≡ some fs
unfolding fields_of
fields_of-object fs = ap some (read-write fs)

text_of-text : (s : String) → text_of ("t" ∷ chars s) ≡ ok s
unfolding text_of
text_of-text s = ap ok (of_chars-chars s)

text_of-number : (n : ℤ) → text_of (number n) ≡ throws json_type_error
unfolding text_of
text_of-number (pos n) = refl
text_of-number (negsuc n) = refl

int_of-number : (n : ℤ) → int_of (number n) ≡ ok n
unfolding int_of
int_of-number (pos n) = ap (λ t. ok (pos t)) (count-unary n)
int_of-number (negsuc n) = ap (λ t. ok (negsuc t)) (count-unary n)

pub model-laws : JsonLaws model
model-laws = record {
  object_is_object = λ fs. ground (arith, fields_of-object fs);
  parse-dump = λ j s h. ground (arith, chars-of_chars j);
  value_text-text = λ fs k d s h. ground (arith, fields_of-object fs, text_of-text s);
  value_text-missing = λ fs k d h. ground (arith, fields_of-object fs);
  value_text-number = λ fs k d n h. ground (arith, fields_of-object fs, text_of-number n);
  value_int-number = λ fs k d n range h. ground (arith, fields_of-object fs, int_of-number n);
  value_json-found = λ fs k d j h. ground (arith, fields_of-object fs);
}
