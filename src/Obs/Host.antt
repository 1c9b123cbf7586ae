-- ===== src/Obs/Host.antt =====
-- What the handlers of the service work on besides the repository: the telemetry of Obs/Log and the
-- spans of Obs/Spans, and how their calls reach each of them.
use choreography_saga_demo.Base.{ℕ, String, ◌≡◌, List, ◌∷◌, none, arith, length, if◌then◌else◌}
use choreography_saga_demo.Base.Outcome.{Proc}
use choreography_saga_demo.Json.{Json}
use choreography_saga_demo.Obs.Log.{SpanContext, Telemetry, log_info, log_error, record_reserve}
use choreography_saga_demo.Obs.Spans.{
  Spans, Run, running, fault, no_scope, find_scope, parent_of, start_span, destroy, end_impl,
  Action, starts, ends, act,
}

pub record Host (S J R : Type 0) : Type 0 where
  pub repo : S
  pub telemetry : Telemetry J R
  pub spans : Run

-- The clock and the current span when a line is logged.
pub record Moment : Type 0 where
  pub now : ℕ
  pub span : SpanContext

-- An action on a SpanScope variable; after a fault nothing goes on.
abbrev pub then_act : Action → Run → Run
then_act a (running s) = act a s
then_act a fault = fault
then_act a no_scope = no_scope

module _ {S J R : Type 0} where
  abbrev pub on_repo : {A : Type 0} → Proc S A → Proc (Host S J R) A
  on_repo m h = let (r, s) = m h.repo in (r, record h { repo = s })

  abbrev pub log : Json J → Moment → String → List (String × J) → Proc (Host S J R) (Unit {0})
  log lib at message fields h =
      let (r, t) = log_info lib at.now at.span message fields h.telemetry in
      (r, record h { telemetry = t })

  abbrev pub log_err : Json J → Moment → String → List (String × J) → Proc (Host S J R) (Unit {0})
  log_err lib at message fields h =
      let (r, t) = log_error lib at.now at.span message fields h.telemetry in
      (r, record h { telemetry = t })

  abbrev pub count_reserve : String → Host S J R → Host S J R
  count_reserve result h = record h { telemetry = record_reserve result h.telemetry }

  -- A block that begins with `SpanScope v = start_span(name, traceparent)`: the variable is at its end
  -- when the block is left, by a return or by a throw.
  abbrev pub with_span :
      {A : Type 0} → ℕ → String → String → Proc (Host S J R) A → Proc (Host S J R) A
  with_span v name traceparent m h =
      let (r, h') = m (record h { spans = then_act (starts v name traceparent) h.spans }) in
      (r, record h' { spans = then_act (ends v) h'.spans })

-- One span more, which has ended; nothing without a tracer.
abbrev pub spanned : String → String → Spans → Spans
spanned name traceparent s =
    if s.has_tracer
    then record s {
      spans = (name, parent_of s.has_propagator traceparent) ∷ s.spans;
      ended = length s.spans ∷ s.ended;
    }
    else s

-- A variable that is not alive begins with a span, and ends it.
pub ends-starts :
    (v : ℕ) (name traceparent : String) (s : Spans)
    → find_scope v s.scopes ≡ none
    → then_act (ends v) (act (starts v name traceparent) s) ≡ running (spanned name traceparent s)
unfolding act start_span destroy end_impl
ends-starts v name traceparent s new = ground arith
