-- ===== src/Obs/Lines.antt =====
-- What a log line says.
use choreography_saga_demo.Base.{
  ℕ, String, text_dec, ◌≡◌, refl, ap, ◌∙◌, List, [], ◌∷◌, ◌++◌, Option, none, some, ite, arith,
}
use choreography_saga_demo.Base.Outcome.{ok}
use choreography_saga_demo.Json.{Json, JsonLaws, field}
use choreography_saga_demo.Clock.{timestamp}
use choreography_saga_demo.Obs.Log.{
  assign, SpanContext, Telemetry, log_fields, add_fields, emit, stamp_span,
  install_log_trace_context,
}

field-assign :
    {A : Type 0} (k key : String) (value : A) (fs : List (String × A))
    → field k (assign key value fs) ≡ ite (text_dec key k) (some value) (field k fs)
field-assign k key value [] = refl
field-assign k key value ((j, v) ∷ rest) = elim (text_dec j key) [
  | yes a ↦ elim (text_dec j k) [ yes b ↦ ground (arith, a, b) | no b ↦ ground (arith, a, b) ]
  | no a ↦ elim (text_dec j k) [
    | yes b ↦ ground (arith, a, b)
    | no b ↦ ground (arith, a, b, field-assign k key value rest)
  ]
]

-- The last value that the fields have under a key, and `d` where they have none.
abbrev pub last_value : {J : Type 0} → String → List (String × J) → Option J → Option J
last_value k [] d = d
last_value k ((key, value) ∷ more) d = last_value k more (ite (text_dec key k) (some value) d)

field-add_fields :
    {J : Type 0} (k : String) (fields obj : List (String × J))
    → field k (add_fields fields obj) ≡ last_value k fields (field k obj)
field-add_fields k [] obj = refl
field-add_fields k ((key, value) ∷ more) obj =
    field-add_fields k more (assign key value obj)
    ∙ ap (last_value k more) (field-assign k key value obj)

module _ {J : Type 0} (lib : Json J) where
  -- What the trace context adds: the ids of the current span, if it is valid.
  abbrev pub span_value : String → SpanContext → Option J → Option J
  span_value k none d = d
  span_value k (some (trace_id, span_id)) d =
      ite (text_dec "span_id" k) (some (lib.text span_id))
        (ite (text_dec "trace_id" k) (some (lib.text trace_id)) d)

  field-stamp_span :
      (k : String) (span : SpanContext) (obj : List (String × J))
      → field k (stamp_span lib span obj) ≡ span_value k span (field k obj)
  field-stamp_span k none obj = refl
  field-stamp_span k (some (trace_id, span_id)) obj =
      field-assign k "span_id" (lib.text span_id) (assign "trace_id" (lib.text trace_id) obj)
      ∙ ap (ite (text_dec "span_id" k) (some (lib.text span_id)))
          (field-assign k "trace_id" (lib.text trace_id) obj)

  -- The object of a line, when the provider of setup() is installed.
  abbrev pub logged : ℕ → SpanContext → String → String → List (String × J) → List (String × J)
  logged now span level message fields =
      stamp_span lib span (add_fields fields (log_fields lib (timestamp now) level message))

module _ {J R : Type 0} (lib : Json J) where
  emit-dump :
      (now : ℕ) (span : SpanContext) (level message line : String) (fields : List (String × J))
      (s : Telemetry J R)
      → lib.dump (lib.object (logged lib now span level message fields)) ≡ ok line
      → emit lib now span level message fields (install_log_trace_context lib s)
        ≡ (ok tt, record (install_log_trace_context lib s) { out = s.out ++ line ∷ [] })
  unfolding emit
  emit-dump now span level message line fields s e = ground (arith, e)

  -- A call of log_info or log_error after setup(), whose object can be dumped, writes one line, which
  -- parses to an object that has under each key: the ids of the current span, if that is valid; else
  -- the last of the call's fields with that key; else the time, the level, the logger or the message.
  pub emit-field :
      (laws : JsonLaws lib) (now : ℕ) (span : SpanContext) (level message line k : String)
      (fields : List (String × J)) (s : Telemetry J R)
      → lib.dump (lib.object (logged lib now span level message fields)) ≡ ok line
      → let (r, s') = emit lib now span level message fields (install_log_trace_context lib s) in
        (r ≡ ok tt)
        × (s'.out ≡ s.out ++ line ∷ [])
        × (lib.parse line ≡ some (lib.object (logged lib now span level message fields)))
        × (field k (logged lib now span level message fields)
            ≡ span_value lib k span
                (last_value k fields (field k (log_fields lib (timestamp now) level message))))
  emit-field laws now span level message line k fields s e =
      let same = emit-dump now span level message line fields s e in
      (
        ap (λ x. x.0) same,
        ap (λ x. x.1.out) same,
        laws.parse-dump (lib.object (logged lib now span level message fields)) line e,
        field-stamp_span lib k span
              (add_fields fields (log_fields lib (timestamp now) level message))
            ∙ ap (span_value lib k span)
                (field-add_fields k fields (log_fields lib (timestamp now) level message)),
      )
