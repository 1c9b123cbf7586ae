-- ===== src/Tests/Fixtures.antt =====
-- A database server that takes any text but the empty one for a UUID and for JSON, and the tables
-- as services/inventory/migrations/0001_init.up.sql seeds them.
use text.Mathlib.TextLemmas.{tail-eq_of_cons-eq, cons-ne-nil}
use choreography_saga_demo.Base.{
  ℕ, zero, suc, String, text_dec, ◌≡◌, refl, sym, ap, ◌≢◌, [], ◌∷◌, Option, none, some, ite, arith,
}
use choreography_saga_demo.Base.Int.{pos}
use choreography_saga_demo.Base.Outcome.{ok}
use choreography_saga_demo.Outbox.{Insert}
use choreography_saga_demo.Repository.{EventBuilder}
use choreography_saga_demo.Database.Tables.{Postgres, PostgresLaws, State}

abbrev cast : String → Option String
cast s = ite (text_dec s "") none (some s)

abbrev tally : ℕ → String
tally zero = "u"
tally (suc n) = String.◌∷◌ "u" (tally n)

abbrev pub server : Postgres
server = record { uuid_cast = cast; jsonb_cast = cast; random_uuid = tally }

cast_self : (s u : String) → cast s ≡ some u → (u ≡ s) × (u ≢ "")
cast_self s u h = elim (text_dec s "") [ yes e ↦ ground arith | no n ↦ ground arith ]

cast-some : (s : String) → s ≢ "" → cast s ≡ some s
cast-some s h = ground arith

tally_ne : (n : ℕ) → tally n ≢ ""
tally_ne zero e = cons-ne-nil "u" "" e
tally_ne (suc n) e = cons-ne-nil "u" (tally n) e

tally_injective : (m n : ℕ) → tally m ≡ tally n → m ≡ n
tally_injective zero zero e = refl
tally_injective zero (suc n) e = absurd (tally_ne n (sym (tail-eq_of_cons-eq e)))
tally_injective (suc m) zero e = absurd (tally_ne m (tail-eq_of_cons-eq e))
tally_injective (suc m) (suc n) e = ap suc (tally_injective m n (tail-eq_of_cons-eq e))

pub server-laws : PostgresLaws server
server-laws = record {
  uuid_text = λ s u h. cast-some u (cast_self s u h).1;
  uuid_not_empty = λ s u h. (cast_self s u h).1;
  random_valid = λ n. cast-some (tally n) (tally_ne n);
  random_distinct = tally_injective;
}

abbrev pub seed : State
seed = record {
  stock =
      record { sku = "SKU-1"; available = pos 100; reserved = pos 0 }
      ∷ record { sku = "SKU-DEADBEEF"; available = pos 0; reserved = pos 0 }
      ∷ [];
  reservations = [];
  outbox = [];
  processed_messages = [];
  drawn = 0;
  now = 1000;
}

abbrev pub event : String → Insert
event topic = record {
  aggregate_type = "inventory";
  aggregate_id = "saga-1";
  event_type = "Event";
  topic = topic;
  payload = "{}";
  traceparent = "tp";
}

abbrev pub builder : {O : Type 0} → String → EventBuilder O
builder topic o = ok (event topic)
