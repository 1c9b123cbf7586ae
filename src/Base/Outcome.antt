-- ===== src/Base/Outcome.antt =====
-- A C++ call that may throw, on a state that it changes: what was written before a throw stays
-- written, unless the caller undoes it.
use choreography_saga_demo.Base.{String, Bool, true, false, ◌≡◌, refl, ◌⊎◌, inl, inr}

-- What the service's calls throw: PostgreSQL's refusals (as pqxx::sql_error), the JSON library's
-- type_error, and the runtime_error of the Kafka wrappers with its text.
pub data Error : Type 0 where
  invalid_uuid invalid_json int_out_of_range negative_limit json_type_error : Error
  runtime_error : String → Error

pub data Outcome (A : Type 0) : Type 0 where
  ok : A → Outcome A
  throws : Error → Outcome A

abbrev pub Proc : Type 0 → Type 0 → Type 0
Proc S A = S → Outcome A × S

module _ {S A : Type 0} where
  abbrev pub pure : A → Proc S A
  pure a s = (ok a, s)

  abbrev pub throw : Error → Proc S A
  throw e s = (throws e, s)

  abbrev pub lift : Outcome A → Proc S A
  lift r s = (r, s)

  abbrev pub gets : (S → A) → Proc S A
  gets f s = (ok (f s), s)

abbrev pub modify : {S : Type 0} → (S → S) → Proc S (Unit {0})
modify f s = (ok tt, f s)

infixl 5 ◌>>=◌ ◌>>◌
abbrev pub ◌>>=◌ : {S A B : Type 0} → Proc S A → (A → Proc S B) → Proc S B
◌>>=◌ m f s = let (r, s') = m s in elim r [ ok a ↦ f a s' | throws e ↦ (throws e, s') ]

abbrev pub ◌>>◌ : {S A B : Type 0} → Proc S A → Proc S B → Proc S B
m >> k = m >>= λ _. k

-- A transaction: a throw before the commit rolls the writes back.
abbrev pub run_tx : {S A : Type 0} → Proc S A → Proc S A
run_tx m s = let (r, s') = m s in elim r [ ok a ↦ (ok a, s') | throws e ↦ (throws e, s) ]

-- `if (c) m; else k;`
abbrev pub branch : {S A : Type 0} → Bool → Proc S A → Proc S A → Proc S A
branch c m k s = elim c [ true ↦ m s | false ↦ k s ]

pub Outcome-cases :
    {A : Type 0} (r : Outcome A) → ((e : Error) × (r ≡ throws e)) ⊎ ((a : A) × (r ≡ ok a))
Outcome-cases (ok a) = inr (a, refl)
Outcome-cases (throws e) = inl (e, refl)
