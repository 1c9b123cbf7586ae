-- ===== src/Json.antt =====
-- nlohmann::json as the service uses it: its operations on a type of values `J`, and what is
-- documented of them.
use choreography_saga_demo.Base.{
  String, text_dec, ◌≡◌, Bool, true, List, [], ◌∷◌, Option, none, some, ite,
}
use choreography_saga_demo.Base.Int.{ℤ, InRange}
use choreography_saga_demo.Base.Outcome.{Outcome, ok, throws, json_type_error}

-- `dump` throws on a text that is not UTF-8. `parse` is the call with allow_exceptions = false:
-- `none` is a discarded value. `value_*` are the calls of value(key, default) with a default that is
-- a text, an int or a JSON value.
pub record Json (J : Type 0) : Type 0 where
  pub text : String → J
  pub number : ℤ → J
  pub boolean : Bool → J
  pub object : List (String × J) → J
  pub dump : J → Outcome String
  pub parse : String → Option J
  pub is_object : J → Bool
  pub value_text : J → String → String → Outcome String
  pub value_int : J → String → ℤ → Outcome ℤ
  pub value_json : J → String → J → Outcome J

abbrev pub field : {J : Type 0} → String → List (String × J) → Option J
field k [] = none
field k ((j, v) ∷ fs) = ite (text_dec j k) (some v) (field k fs)

pub record JsonLaws {J : Type 0} (lib : Json J) : Type 0 where
  pub object_is_object : (fs : List (String × J)) → lib.is_object (lib.object fs) ≡ true
  pub parse-dump : (j : J) (s : String) → lib.dump j ≡ ok s → lib.parse s ≡ some j
  pub value_text-text :
      (fs : List (String × J)) (k d s : String)
      → field k fs ≡ some (lib.text s)
      → lib.value_text (lib.object fs) k d ≡ ok s
  pub value_text-missing :
      (fs : List (String × J)) (k d : String)
      → field k fs ≡ none
      → lib.value_text (lib.object fs) k d ≡ ok d
  pub value_text-number :
      (fs : List (String × J)) (k d : String) (n : ℤ)
      → field k fs ≡ some (lib.number n)
      → lib.value_text (lib.object fs) k d ≡ throws json_type_error
  pub value_int-number :
      (fs : List (String × J)) (k : String) (d n : ℤ)
      → InRange n
      → field k fs ≡ some (lib.number n)
      → lib.value_int (lib.object fs) k d ≡ ok n
  pub value_json-found :
      (fs : List (String × J)) (k : String) (d j : J)
      → field k fs ≡ some j
      → lib.value_json (lib.object fs) k d ≡ ok j
