-- ===== src/Envelope.antt =====
-- services/inventory/include/inventory/envelope.hpp and src/envelope.cpp: the event envelope, its
-- JSON text, and the parser.
pub mod RoundTrip
use choreography_saga_demo.Base.{
  ℕ, String, Bool, true, false, List, [], ◌∷◌, Option, none, some, if◌then◌else◌,
}
use choreography_saga_demo.Base.Int.{ℤ, pos}
use choreography_saga_demo.Base.Outcome.{Outcome, ok, throws}
use choreography_saga_demo.Json.{Json}
use choreography_saga_demo.Uuid.{uuid_v4}

abbrev pub schema_version : ℤ
schema_version = pos 1

pub record Envelope (J : Type 0) : Type 0 where
  pub event_id : String
  pub event_type : String
  pub version : ℤ
  pub occurred_at : String
  pub saga_id : String
  pub idempotency_key : String
  pub traceparent : String
  pub payload : J

-- What make_envelope takes from its surroundings: the random words of the two UUIDs, and the text of
-- the current time.
pub record Entropy : Type 0 where
  pub event_hi : ℕ
  pub event_lo : ℕ
  pub key_hi : ℕ
  pub key_lo : ℕ
  pub rfc3339_now : String

-- Chains of calls that may throw and have no state.
infixl 5 ◌>>=◌
abbrev pub ◌>>=◌ : {A B : Type 0} → Outcome A → (A → Outcome B) → Outcome B
ok a >>= f = f a
throws e >>= f = throws e

module _ {J : Type 0} (lib : Json J) where
  -- The object that `to_json` dumps.
  abbrev pub fields : Envelope J → List (String × J)
  fields env =
      ("eventId", lib.text env.event_id)
      ∷ ("eventType", lib.text env.event_type)
      ∷ ("schemaVersion", lib.number env.version)
      ∷ ("occurredAt", lib.text env.occurred_at)
      ∷ ("sagaId", lib.text env.saga_id)
      ∷ ("idempotencyKey", lib.text env.idempotency_key)
      ∷ ("traceparent", lib.text env.traceparent)
      ∷ ("data", env.payload)
      ∷ []

  unfoldable pub to_json : Envelope J → Outcome String
  to_json env = lib.dump (lib.object (fields env))

  unfoldable pub make_envelope : Entropy → String → String → J → String → Envelope J
  make_envelope entropy event_type saga_id payload traceparent = record {
    event_id = uuid_v4 entropy.event_hi entropy.event_lo;
    event_type = event_type;
    version = schema_version;
    occurred_at = entropy.rfc3339_now;
    saga_id = saga_id;
    idempotency_key = uuid_v4 entropy.key_hi entropy.key_lo;
    traceparent = traceparent;
    payload = payload;
  }

  abbrev pub empty_envelope : Envelope J
  empty_envelope = record {
    event_id = "";
    event_type = "";
    version = schema_version;
    occurred_at = "";
    saga_id = "";
    idempotency_key = "";
    traceparent = "";
    payload = lib.object [];
  }

  -- The fields of a parsed object, in the order in which they are read.
  unfoldable pub read_fields : J → Outcome (Envelope J)
  read_fields obj = do
    event_id ← lib.value_text obj "eventId" ""
    event_type ← lib.value_text obj "eventType" ""
    version ← lib.value_int obj "schemaVersion" schema_version
    occurred_at ← lib.value_text obj "occurredAt" ""
    saga_id ← lib.value_text obj "sagaId" ""
    idempotency_key ← lib.value_text obj "idempotencyKey" ""
    traceparent ← lib.value_text obj "traceparent" ""
    payload ← lib.value_json obj "data" (lib.object [])
    ok (record {
      event_id = event_id;
      event_type = event_type;
      version = version;
      occurred_at = occurred_at;
      saga_id = saga_id;
      idempotency_key = idempotency_key;
      traceparent = traceparent;
      payload = payload;
    })

  unfoldable pub parse : String → Outcome (Envelope J)
  unfolding read_fields
  parse raw = elim (lib.parse raw) [
    | none ↦ ok empty_envelope
    | some obj ↦ elim (lib.is_object obj) [ true ↦ read_fields obj | false ↦ ok empty_envelope ]
  ]
