-- ===== src/Tests/Spans.antt =====
-- Runs of the tracing scopes, and their theorems at concrete runs.
use choreography_saga_demo.Base.{text_dec, ◌≡◌, refl, true, List, [], ◌∷◌, none, some}
use choreography_saga_demo.Obs.Spans.{
  Spans, Action, running, starts, constructs, assigns, ends, run, start_span, move_construct,
  move_assign, destroy, end_impl, act, no_spans,
}
use choreography_saga_demo.Obs.Holders.{Keeps, IsOwned}
use choreography_saga_demo.Obs.Ownership.{run-Keeps}

-- The scope of a call is returned from start_span, moved into another variable that has one, and both end.
abbrev calls : List Action
calls =
    starts 0 "ReserveStock" "tp"
    ∷ starts 1 "outbox publish" ""
    ∷ assigns 0 1
    ∷ constructs 2 0
    ∷ ends 2
    ∷ ends 1
    ∷ ends 0
    ∷ []

abbrev after_calls : Spans
after_calls = record {
  has_tracer = true;
  has_propagator = true;
  spans = ("outbox publish", none) ∷ ("ReserveStock", some "tp") ∷ [];
  allocated = [];
  ended = 1 ∷ 0 ∷ [];
  scopes = [];
}

calls-run : run calls (no_spans true true) ≡ running after_calls
unfolding run act start_span move_construct move_assign destroy end_impl text_dec
calls-run = refl

run-Keeps_example : Keeps IsOwned (run calls (no_spans true true))
run-Keeps_example = run-Keeps true true calls
