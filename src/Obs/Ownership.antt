-- ===== src/Obs/Ownership.antt =====
-- The life of the SpanScope variables of the service, over all lists of actions.
use choreography_saga_demo.Base.{
  ℕ, ◌≡◌, refl, ap, Bool, List, [], ◌∷◌, Option, none, some, arith, length, ltb, if◌then◌else◌,
}
use mathlib.Core.Path.{subst}
use choreography_saga_demo.Obs.Spans.{
  Spans, Run, running, fault, no_scope, find_scope, Action, begins, starts, constructs, assigns,
  ends, act, run, no_spans,
}
use choreography_saga_demo.Obs.Holders.{count, holders, IsOwned, Keeps}
use choreography_saga_demo.Obs.Moves.{
  destroy-Keeps, move_assign-Keeps, move_construct-IsOwned, start_span-IsOwned, with_scope,
}

on_scope :
    (o : Option (Option ℕ)) (k : Option ℕ → Run)
    → ((p : Option ℕ) → o ≡ some p → Keeps IsOwned (k p))
    → Keeps IsOwned (elim o [ some p ↦ k p | none ↦ no_scope ])
on_scope none k h = tt
on_scope (some p) k h = h p refl

on_free :
    (o : Option (Option ℕ)) (r : Run)
    → Keeps IsOwned r
    → Keeps IsOwned (elim o [ none ↦ r | some _ ↦ no_scope ])
on_free none r h = h
on_free (some _) r h = tt

act-Keeps : (a : Action) (s : Spans) → IsOwned s → Keeps IsOwned (act a s)
unfolding act
act-Keeps (begins v) s h = on_free (find_scope v s.scopes) _ (with_scope s v h)
act-Keeps (starts v name traceparent) s h =
    on_free (find_scope v s.scopes) _ (start_span-IsOwned v name traceparent s h)
act-Keeps (constructs v w) s h =
    on_free (find_scope v s.scopes) _
      (on_scope (find_scope w s.scopes) _ (λ p f. move_construct-IsOwned v w p s h f))
act-Keeps (assigns v w) s h =
    on_scope (find_scope v s.scopes) _
      (λ old e. on_scope (find_scope w s.scopes) _ (λ p f. move_assign-Keeps v w old p s h e f))
act-Keeps (ends v) s h = on_scope (find_scope v s.scopes) _ (λ p e. destroy-Keeps v p s h e)

then_run :
    (r : Run) (more : List Action)
    → Keeps IsOwned r
    → ((s : Spans) → IsOwned s → Keeps IsOwned (run more s))
    → Keeps IsOwned (elim r [ running s' ↦ run more s' | fault ↦ fault | no_scope ↦ no_scope ])
then_run (running s) more h rest = rest s h
then_run fault more h rest = h
then_run no_scope more h rest = tt

-- From a state where each span is held once or ended once and the Impl objects are those held, a list
-- of actions never uses an Impl that is not on the heap, and leaves such a state.
run_on-Keeps : (actions : List Action) (s : Spans) → IsOwned s → Keeps IsOwned (run actions s)
unfolding run
run_on-Keeps [] s h = h
run_on-Keeps (a ∷ more) s h = then_run (act a s) more (act-Keeps a s h) (run_on-Keeps more)

no_spans-IsOwned : (has_tracer has_propagator : Bool) → IsOwned (no_spans has_tracer has_propagator)
no_spans-IsOwned has_tracer has_propagator = record { once = λ n. ground arith; kept = λ n. refl }

-- The service with a tracer or without: whatever its code does with SpanScope variables, an Impl is
-- never used after it was deleted, and at any time each span that was started is pointed to by one
-- living variable or was ended, exactly once, and the Impl objects on the heap are those pointed to.
pub run-Keeps :
    (has_tracer has_propagator : Bool) (actions : List Action)
    → Keeps IsOwned (run actions (no_spans has_tracer has_propagator))
run-Keeps has_tracer has_propagator actions =
    run_on-Keeps actions (no_spans has_tracer has_propagator)
      (no_spans-IsOwned has_tracer has_propagator)

-- The same, once every variable is at its end: each span started was ended exactly once, and the heap is empty.
pub run-ended :
    (has_tracer has_propagator : Bool) (actions : List Action) (s : Spans) (n : ℕ)
    → run actions (no_spans has_tracer has_propagator) ≡ running s
    → s.scopes ≡ []
    → count n s.allocated ≡ 0 × count n s.ended ≡ (if ltb n (length s.spans) then 1 else 0)
run-ended has_tracer has_propagator actions s n e empty =
    let owned = subst (Keeps IsOwned) e (run-Keeps has_tracer has_propagator actions) in
    let none_held = ap (holders n) empty in
    (omega (arith, owned.kept n, none_held), omega (arith, owned.once n, none_held))
