-- ===== src/Envelope/RoundTrip.antt =====
-- What the envelope parser reads back.
use choreography_saga_demo.Base.{String, text_dec, ◌≡◌, refl, [], arith}
use choreography_saga_demo.Base.Int.{InRange}
use choreography_saga_demo.Base.Outcome.{ok}
use choreography_saga_demo.Json.{Json, JsonLaws}
use choreography_saga_demo.Envelope.{Envelope, schema_version, fields, to_json, parse}

module _ {J : Type 0} (lib : Json J) (laws : JsonLaws lib) where
  -- An envelope whose version is an int, and whose JSON text can be written, is read back from it.
  pub parse-to_json :
      (env : Envelope J) (s : String)
      → InRange env.version
      → to_json lib env ≡ ok s
      → parse lib s ≡ ok env
  unfolding to_json parse text_dec
  parse-to_json env s range h = ground (
    arith,
    laws.parse-dump (lib.object (fields lib env)) s h,
    laws.object_is_object (fields lib env),
    laws.value_text-text (fields lib env) "eventId" "" env.event_id refl,
    laws.value_text-text (fields lib env) "eventType" "" env.event_type refl,
    laws.value_int-number (fields lib env) "schemaVersion" schema_version env.version range refl,
    laws.value_text-text (fields lib env) "occurredAt" "" env.occurred_at refl,
    laws.value_text-text (fields lib env) "sagaId" "" env.saga_id refl,
    laws.value_text-text (fields lib env) "idempotencyKey" "" env.idempotency_key refl,
    laws.value_text-text (fields lib env) "traceparent" "" env.traceparent refl,
    laws.value_json-found (fields lib env) "data" (lib.object []) env.payload refl,
  )
