-- ===== src/Obs/Spans.antt =====
-- services/inventory/src/obs_otel.cpp: class SpanScope and start_span. A span and the Impl that holds
-- it are named by the number of spans that were started before. Which span is the current one is up
-- to the tracing library, and left out.
use choreography_saga_demo.Base.{
  ℕ, String, Bool, true, false, ◌&&◌, not, List, [], ◌∷◌, Option, none, some, length, ◌==◌,
  if◌then◌else◌, is_empty,
}

-- `g_tracer` and `g_propagator` are there; the name and the remote parent of every span started, the
-- latest first; the Impl objects on the heap; the calls of End(), the latest first; and the living
-- SpanScope variables, each with its `impl_`.
pub record Spans : Type 0 where
  pub has_tracer : Bool
  pub has_propagator : Bool
  pub spans : List (String × Option String)
  pub allocated : List ℕ
  pub ended : List ℕ
  pub scopes : List (ℕ × Option ℕ)

-- What becomes of a call: `fault` is a use of an Impl that is not on the heap. `no_scope` is none that
-- a C++ program can make: it names a variable that is not alive, or begins one that is.
pub data Run : Type 0 where
  running : Spans → Run
  fault no_scope : Run

abbrev pub find_scope : ℕ → List (ℕ × Option ℕ) → Option (Option ℕ)
find_scope v [] = none
find_scope v ((w, impl) ∷ rest) = if w == v then some impl else find_scope v rest

abbrev pub set_impl : ℕ → Option ℕ → List (ℕ × Option ℕ) → List (ℕ × Option ℕ)
set_impl v p [] = []
set_impl v p ((w, impl) ∷ rest) = if w == v then (w, p) ∷ rest else (w, impl) ∷ set_impl v p rest

abbrev pub drop_scope : ℕ → List (ℕ × Option ℕ) → List (ℕ × Option ℕ)
drop_scope v [] = []
drop_scope v ((w, impl) ∷ rest) = if w == v then rest else (w, impl) ∷ drop_scope v rest

abbrev pub contains : ℕ → List ℕ → Bool
contains n [] = false
contains n (m ∷ ms) = if m == n then true else contains n ms

abbrev pub remove : ℕ → List ℕ → List ℕ
remove n [] = []
remove n (m ∷ ms) = if m == n then ms else m ∷ remove n ms

-- `if (impl_ != nullptr) { if (impl_->span) impl_->span->End(); delete impl_; }`; `span` is never null.
unfoldable pub end_impl : Option ℕ → Spans → Run
end_impl none s = running s
end_impl (some n) s =
    if contains n s.allocated
    then running (record s { ended = n ∷ s.ended; allocated = remove n s.allocated })
    else fault

-- The remote parent that start_span gives to a span.
abbrev pub parent_of : Bool → String → Option String
parent_of has_propagator traceparent =
    if has_propagator && not (is_empty traceparent) then some traceparent else none

-- `SpanScope v = start_span(name, traceparent)`.
unfoldable pub start_span : ℕ → String → String → Spans → Spans
start_span v name traceparent s =
    if s.has_tracer
    then record s {
      spans = (name, parent_of s.has_propagator traceparent) ∷ s.spans;
      allocated = length s.spans ∷ s.allocated;
      scopes = (v, some (length s.spans)) ∷ s.scopes;
    }
    else record s { scopes = (v, none) ∷ s.scopes }

-- `SpanScope v(std::move(w))`, where the `impl_` of w is `p`.
unfoldable pub move_construct : ℕ → ℕ → Option ℕ → Spans → Spans
move_construct v w p s = record s { scopes = (v, p) ∷ set_impl w none s.scopes }

-- `v = std::move(w)`, where the `impl_` of v is `old` and that of w is `p`.
unfoldable pub move_assign : ℕ → ℕ → Option ℕ → Option ℕ → Spans → Run
unfolding end_impl
move_assign v w old p s = if v == w then running s else elim (end_impl old s) [
  | running s' ↦ running (record s' { scopes = set_impl w none (set_impl v p s'.scopes) })
  | fault ↦ fault
  | no_scope ↦ no_scope
]

-- The end of v's life, where its `impl_` is `p`.
unfoldable pub destroy : ℕ → Option ℕ → Spans → Run
unfolding end_impl
destroy v p s = elim (end_impl p s) [
  | running s' ↦ running (record s' { scopes = drop_scope v s'.scopes })
  | fault ↦ fault
  | no_scope ↦ no_scope
]

pub data Action : Type 0 where
  begins : ℕ → Action
  starts : ℕ → String → String → Action
  constructs : ℕ → ℕ → Action
  assigns : ℕ → ℕ → Action
  ends : ℕ → Action

-- One action of the program; `begins` is the default constructor.
unfoldable pub act : Action → Spans → Run
unfolding start_span move_construct move_assign destroy
act (begins v) s = elim (find_scope v s.scopes) [
  | none ↦ running (record s { scopes = (v, none) ∷ s.scopes })
  | some _ ↦ no_scope
]
act (starts v name traceparent) s = elim (find_scope v s.scopes) [
  | none ↦ running (start_span v name traceparent s)
  | some _ ↦ no_scope
]
act (constructs v w) s = elim (find_scope v s.scopes) [
  | none ↦ elim (find_scope w s.scopes) [
    | some p ↦ running (move_construct v w p s)
    | none ↦ no_scope
  ]
  | some _ ↦ no_scope
]
act (assigns v w) s = elim (find_scope v s.scopes) [
  | some old ↦ elim (find_scope w s.scopes) [ some p ↦ move_assign v w old p s | none ↦ no_scope ]
  | none ↦ no_scope
]
act (ends v) s = elim (find_scope v s.scopes) [ some p ↦ destroy v p s | none ↦ no_scope ]

unfoldable pub run : List Action → Spans → Run
unfolding act
run [] s = running s
run (a ∷ more) s = elim (act a s) [ running s' ↦ run more s' | fault ↦ fault | no_scope ↦ no_scope ]

-- The service before the first span, after setup() or without it.
abbrev pub no_spans : Bool → Bool → Spans
no_spans has_tracer has_propagator = record {
  has_tracer = has_tracer;
  has_propagator = has_propagator;
  spans = [];
  allocated = [];
  ended = [];
  scopes = [];
}
