-- ===== src/Obs/Handled.antt =====
-- What a handler comes to that makes one call of the repository, logs one line about its outcome, and
-- answers.
use choreography_saga_demo.Base.{
  ℕ, String, ◌≡◌, ap, ◌∙◌, inl, inr, ◌⊎◌, List, [], ◌∷◌, ◌++◌, none, arith,
}
use choreography_saga_demo.Base.Outcome.{Error, Outcome, ok, throws, Proc, Outcome-cases}
use choreography_saga_demo.Json.{Json}
use choreography_saga_demo.Clock.{timestamp}
use choreography_saga_demo.Obs.Log.{
  SpanContext, Telemetry, with_context, add_fields, log_fields, log_info, emit,
}
use choreography_saga_demo.Obs.Spans.{Spans, running, find_scope, starts, ends}
use choreography_saga_demo.Obs.Host.{Host, Moment, with_span, then_act, spanned, ends-starts}

-- A log line is written, or the JSON library throws for its object.
pub emit-cases :
    {J R : Type 0} (lib : Json J) (now : ℕ) (span : SpanContext) (level message : String)
    (fields : List (String × J)) (t : Telemetry J R)
    → ((e : Error) × (object : List (String × J)) × (lib.dump (lib.object object) ≡ throws e)
        × (emit lib now span level message fields t ≡ (throws e, t)))
      ⊎ ((line : String) × (emit lib now span level message fields t
            ≡ (ok tt, record t { out = t.out ++ line ∷ [] })))
unfolding emit
emit-cases lib now span level message fields t =
    let object =
      with_context t.trace_context span
        (add_fields fields (log_fields lib (timestamp now) level message)) in
    elim (Outcome-cases (lib.dump (lib.object object))) [
      | inl (e, x) ↦ inl (e, object, x, ground (arith, x))
      | inr (line, x) ↦ inr (line, ground (arith, x))
    ]

module _ {J R : Type 0} (lib : Json J) (at : Moment) (t : Telemetry J R) where
  -- The JSON object of a line.
  abbrev pub line_object : String × List (String × J) → J
  line_object (message, fields) = lib.object (
      with_context t.trace_context at.span
        (add_fields fields (log_fields lib (timestamp at.now) "INFO" message)))

  pub log_info-written :
      (message : String) (fields : List (String × J)) (text : String)
      → lib.dump (line_object (message, fields)) ≡ ok text
      → log_info lib at.now at.span message fields t
        ≡ (ok tt, record t { out = t.out ++ text ∷ [] })
  unfolding emit
  log_info-written message fields text h = ground (arith, h)

  pub log_info-throws :
      (message : String) (fields : List (String × J)) (e : Error)
      → lib.dump (line_object (message, fields)) ≡ throws e
      → log_info lib at.now at.span message fields t ≡ (throws e, t)
  unfolding emit
  log_info-throws message fields e h = ground (arith, h)

  -- `q` is the outcome of the call of the repository. It throws, and so does the handler, which logs
  -- nothing; or it returns, and the line cannot be written, so that the handler throws; or the line is
  -- written, the handler answers, and `after` is done.
  pub data Handled {O A : Type 0} (q : Outcome O) (line : O → String × List (String × J))
      (answer : O → A) (after : O → Telemetry J R → Telemetry J R) (r : Outcome A)
      (t' : Telemetry J R) : Type 0 where
    thrown : (e : Error) → q ≡ throws e → r ≡ throws e → t' ≡ t → Handled q line answer after r t'
    unlogged :
        (o : O) (e : Error)
        → q ≡ ok o
        → lib.dump (line_object (line o)) ≡ throws e
        → r ≡ throws e
        → t' ≡ t
        → Handled q line answer after r t'
    answered :
        (o : O) (text : String)
        → q ≡ ok o
        → lib.dump (line_object (line o)) ≡ ok text
        → r ≡ ok (answer o)
        → t' ≡ after o (record t { out = t.out ++ text ∷ [] })
        → Handled q line answer after r t'

-- An outcome with another answer.
abbrev pub answered_with : {O A : Type 0} → (O → A) → Outcome O → Outcome A
answered_with answer (ok o) = ok (answer o)
answered_with answer (throws e) = throws e

-- Such a handler: the call `m`, its line, what is done to the telemetry, and the answer.
module _ {J S R O A : Type 0} (lib : Json J) (at : Moment) (m : Proc S O)
    (line : O → String × List (String × J)) (answer : O → A)
    (after : O → Telemetry J R → Telemetry J R) where
  abbrev then_log : O → Proc (Host S J R) A
  then_log o h =
      let (r, t) = log_info lib at.now at.span (line o).0 (line o).1 h.telemetry in
      elim r [
        | ok _ ↦ (ok (answer o), record h { telemetry = after o t })
        | throws e ↦ (throws e, record h { telemetry = t })
      ]

  abbrev pub call_and_log : Proc (Host S J R) A
  call_and_log h =
      let (q, d) = m h.repo in
      elim q [
        | ok o ↦ then_log o (record h { repo = d })
        | throws e ↦ (throws e, record h { repo = d })
      ]

  module _ (v : ℕ) (name traceparent : String) (h : Host S J R) (s : Spans)
      (up : h.spans ≡ running s) (new : find_scope v s.scopes ≡ none) where
    abbrev pub IsHandled : Outcome A × Host S J R → Type 0
    IsHandled (r, h') =
        (h'.repo ≡ (m h.repo).1)
        × (h'.spans ≡ running (spanned name traceparent s))
        × Handled lib at h.telemetry (m h.repo).0 line answer after r h'.telemetry

    closes :
        then_act (ends v) (then_act (starts v name traceparent) h.spans)
        ≡ running (spanned name traceparent s)
    closes =
        ap (λ r. then_act (ends v) (then_act (starts v name traceparent) r)) up
        ∙ ends-starts v name traceparent s new

    pub call_and_log-IsHandled : IsHandled (with_span v name traceparent call_and_log h)
    call_and_log-IsHandled = elim (Outcome-cases (m h.repo).0) [
      | inl (e, x) ↦ (
        ground (arith, x),
        ground (arith, x, closes),
        thrown e x (ground (arith, x)) (ground (arith, x)),
      )
      | inr (o, x) ↦ elim (Outcome-cases (lib.dump (line_object lib at h.telemetry (line o)))) [
        | inl (e, y) ↦
            let logs : _ = log_info-throws lib at h.telemetry (line o).0 (line o).1 e y in
            (
              ground (arith, x, logs),
              ground (arith, x, logs, closes),
              unlogged o e x y (ground (arith, x, logs)) (ground (arith, x, logs)),
            )
        | inr (text, y) ↦
            let logs : _ = log_info-written lib at h.telemetry (line o).0 (line o).1 text y in
            (
              ground (arith, x, logs),
              ground (arith, x, logs, closes),
              answered o text x y (ground (arith, x, logs)) (ground (arith, x, logs)),
            )
      ]
    ]

  -- In any case the repository is left as the call leaves it.
  pub call_and_log-repo : (h : Host S J R) → (call_and_log h).1.repo ≡ (m h.repo).1
  call_and_log-repo h = elim (Outcome-cases (m h.repo).0) [
    | inl (e, x) ↦ ground (arith, x)
    | inr (o, x) ↦
        elim (Outcome-cases (log_info lib at.now at.span (line o).0 (line o).1 h.telemetry).0) [
          | inl (e, y) ↦ ground (arith, x, y)
          | inr (t, y) ↦ ground (arith, x, y)
        ]
  ]
