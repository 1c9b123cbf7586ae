-- ===== src/Obs/Moves.antt =====
-- Moving, starting and destroying a SpanScope keeps each span with one holder.
use choreography_saga_demo.Base.{
  ℕ, suc, ◌+◌, String, ◌≡◌, sym, ◌∙◌, ◌≢◌, inl, inr, true, false, List, ◌∷◌, Option, none, some,
  arith, length, ltb, if◌then◌else◌, Bool-cases,
}
use mathlib.Core.Path.{subst}
use native.Mathlib.Decide.{ℕ_discrete}
use choreography_saga_demo.Obs.Spans.{
  Spans, running, parent_of, find_scope, set_impl, drop_scope, contains, remove, end_impl,
  start_span, move_construct, move_assign, destroy,
}
use choreography_saga_demo.Obs.Holders.{
  points_to, holders, IsOwned, holders-drop_scope, holders-set_impl, find_scope-set_impl,
  count-remove, Keeps, held-contains,
}

destroy-held :
    (v m : ℕ) (s : Spans)
    → contains m s.allocated ≡ true
    → destroy v (some m) s
      ≡ running (record s {
        ended = m ∷ s.ended;
        allocated = remove m s.allocated;
        scopes = drop_scope v s.scopes;
      })
unfolding destroy end_impl
destroy-held v m s h = ground (arith, h)

pub destroy-Keeps :
    (v : ℕ) (p : Option ℕ) (s : Spans)
    → IsOwned s
    → find_scope v s.scopes ≡ some p
    → Keeps IsOwned (destroy v p s)
unfolding destroy end_impl
destroy-Keeps v none s h e = record {
  once = λ n. omega (arith, h.once n, holders-drop_scope n v none s.scopes e);
  kept = λ n. omega (arith, h.kept n, holders-drop_scope n v none s.scopes e);
}
destroy-Keeps v (some m) s h e =
    subst (Keeps IsOwned) (sym (destroy-held v m s (held-contains v m s h e))) (record {
      once = λ n. omega (arith, h.once n, holders-drop_scope n v (some m) s.scopes e);
      kept = λ n. omega (
        arith,
        h.kept n,
        holders-drop_scope n v (some m) s.scopes e,
        count-remove n m s.allocated (held-contains v m s h e),
      );
    })

-- Two variables, and the first takes over what the second points to.
holders-move :
    (n v w : ℕ) (old p : Option ℕ) (scopes : List (ℕ × Option ℕ))
    → v ≢ w
    → find_scope v scopes ≡ some old
    → find_scope w scopes ≡ some p
    → holders n (set_impl w none (set_impl v p scopes)) + points_to n old ≡ holders n scopes
holders-move n v w old p scopes ne e f = omega (
  arith,
  holders-set_impl n v old p scopes e,
  holders-set_impl n w p none (set_impl v p scopes)
      (find_scope-set_impl v w p scopes (λ q. ne (omega arith)) ∙ f),
)

move_assign_self :
    (v w : ℕ) (old p : Option ℕ) (s : Spans) → v ≡ w → move_assign v w old p s ≡ running s
unfolding move_assign end_impl
move_assign_self v w old p s same = ground arith

move_assign-empty :
    (v w : ℕ) (p : Option ℕ) (s : Spans)
    → v ≢ w
    → move_assign v w none p s
      ≡ running (record s { scopes = set_impl w none (set_impl v p s.scopes) })
unfolding move_assign end_impl
move_assign-empty v w p s ne = ground arith

move_assign-held :
    (v w m : ℕ) (p : Option ℕ) (s : Spans)
    → v ≢ w
    → contains m s.allocated ≡ true
    → move_assign v w (some m) p s
      ≡ running (record s {
        ended = m ∷ s.ended;
        allocated = remove m s.allocated;
        scopes = set_impl w none (set_impl v p s.scopes);
      })
unfolding move_assign end_impl
move_assign-held v w m p s ne h = ground arith

move_assign-others :
    (v w : ℕ) (old p : Option ℕ) (s : Spans)
    → v ≢ w
    → IsOwned s
    → find_scope v s.scopes ≡ some old
    → find_scope w s.scopes ≡ some p
    → Keeps IsOwned (move_assign v w old p s)
move_assign-others v w none p s ne h e f =
    subst (Keeps IsOwned) (sym (move_assign-empty v w p s ne)) (record {
      once = λ n. omega (arith, h.once n, holders-move n v w none p s.scopes ne e f);
      kept = λ n. omega (arith, h.kept n, holders-move n v w none p s.scopes ne e f);
    })
move_assign-others v w (some m) p s ne h e f =
    subst (Keeps IsOwned) (sym (move_assign-held v w m p s ne (held-contains v m s h e))) (record {
      once = λ n. omega (arith, h.once n, holders-move n v w (some m) p s.scopes ne e f);
      kept = λ n. omega (
        arith,
        h.kept n,
        holders-move n v w (some m) p s.scopes ne e f,
        count-remove n m s.allocated (held-contains v m s h e),
      );
    })

pub move_assign-Keeps :
    (v w : ℕ) (old p : Option ℕ) (s : Spans)
    → IsOwned s
    → find_scope v s.scopes ≡ some old
    → find_scope w s.scopes ≡ some p
    → Keeps IsOwned (move_assign v w old p s)
move_assign-Keeps v w old p s h e f = elim (ℕ_discrete v w) [
  | yes same ↦ subst (Keeps IsOwned) (sym (move_assign_self v w old p s same)) h
  | no ne ↦ move_assign-others v w old p s ne h e f
]

pub move_construct-IsOwned :
    (v w : ℕ) (p : Option ℕ) (s : Spans)
    → IsOwned s
    → find_scope w s.scopes ≡ some p
    → IsOwned (move_construct v w p s)
unfolding move_construct
move_construct-IsOwned v w p s h f = record {
  once = λ n. omega (arith, h.once n, holders-set_impl n w p none s.scopes f);
  kept = λ n. omega (arith, h.kept n, holders-set_impl n w p none s.scopes f);
}

start_span-traced :
    (v : ℕ) (name traceparent : String) (s : Spans)
    → s.has_tracer ≡ true
    → start_span v name traceparent s ≡ record s {
      spans = (name, parent_of s.has_propagator traceparent) ∷ s.spans;
      allocated = length s.spans ∷ s.allocated;
      scopes = (v, some (length s.spans)) ∷ s.scopes;
    }
unfolding start_span
start_span-traced v name traceparent s t = ground (arith, t)

start_span-untraced :
    (v : ℕ) (name traceparent : String) (s : Spans)
    → s.has_tracer ≡ false
    → start_span v name traceparent s ≡ record s { scopes = (v, none) ∷ s.scopes }
unfolding start_span
start_span-untraced v name traceparent s t = ground (arith, t)

next_number :
    (n size : ℕ)
    → (if ltb n (suc size) then 1 else 0) ≡ (if ltb n size then 1 else 0) + points_to n (some size)
next_number n size = ground arith

pub start_span-IsOwned :
    (v : ℕ) (name traceparent : String) (s : Spans)
    → IsOwned s
    → IsOwned (start_span v name traceparent s)
start_span-IsOwned v name traceparent s h = elim (Bool-cases s.has_tracer) [
  | inl t ↦ subst IsOwned (sym (start_span-traced v name traceparent s t)) (record {
    once = λ n. omega (arith, h.once n, next_number n (length s.spans));
    kept = λ n. omega (arith, h.kept n);
  })
  | inr t ↦
      subst IsOwned (sym (start_span-untraced v name traceparent s t))
        (record { once = λ n. omega (arith, h.once n); kept = λ n. omega (arith, h.kept n) })
]

pub with_scope :
    (s : Spans) (v : ℕ) → IsOwned s → IsOwned (record s { scopes = (v, none) ∷ s.scopes })
with_scope s v h = record {
  once = λ n. omega (arith, h.once n);
  kept = λ n. omega (arith, h.kept n);
}
