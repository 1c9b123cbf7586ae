-- ===== src/Obs/Holders.antt =====
-- Who holds a span, and how often it has been ended, in the state of Obs/Spans.
use choreography_saga_demo.Base.{
  ℕ, ◌+◌, ◌≤◌, ◌≡◌, refl, ◌≢◌, true, List, [], ◌∷◌, Option, none, some, arith, length, ltb, ◌==◌,
  if◌then◌else◌,
}
use choreography_saga_demo.Obs.Spans.{
  Spans, Run, running, fault, no_scope, find_scope, set_impl, drop_scope, contains, remove,
}

-- How often a number stands in a list, and how many living variables point to an Impl.
abbrev pub count : ℕ → List ℕ → ℕ
count n [] = 0
count n (m ∷ ms) = (if m == n then 1 else 0) + count n ms

abbrev pub points_to : ℕ → Option ℕ → ℕ
points_to n none = 0
points_to n (some m) = if m == n then 1 else 0

abbrev pub holders : ℕ → List (ℕ × Option ℕ) → ℕ
holders n [] = 0
holders n ((v, p) ∷ rest) = points_to n p + holders n rest

-- Every span that was started is held by one living variable or has been ended, once, and neither is
-- so of others; and the Impl objects on the heap are those that are held.
pub record IsOwned (s : Spans) : Type 0 where
  pub once :
      (n : ℕ) → count n s.ended + holders n s.scopes ≡ (if ltb n (length s.spans) then 1 else 0)
  pub kept : (n : ℕ) → count n s.allocated ≡ holders n s.scopes

pub holders-drop_scope :
    (n v : ℕ) (p : Option ℕ) (scopes : List (ℕ × Option ℕ))
    → find_scope v scopes ≡ some p
    → points_to n p + holders n (drop_scope v scopes) ≡ holders n scopes
holders-drop_scope n v p [] h = cc
holders-drop_scope n v p ((w, q) ∷ rest) h = ground (arith, holders-drop_scope n v p rest)

pub holders-set_impl :
    (n v : ℕ) (p q : Option ℕ) (scopes : List (ℕ × Option ℕ))
    → find_scope v scopes ≡ some p
    → holders n (set_impl v q scopes) + points_to n p ≡ holders n scopes + points_to n q
holders-set_impl n v p q [] h = cc
holders-set_impl n v p q ((w, r) ∷ rest) h = ground (arith, holders-set_impl n v p q rest)

pub find_scope-set_impl :
    (v w : ℕ) (q : Option ℕ) (scopes : List (ℕ × Option ℕ))
    → w ≢ v
    → find_scope w (set_impl v q scopes) ≡ find_scope w scopes
find_scope-set_impl v w q [] h = refl
find_scope-set_impl v w q ((u, r) ∷ rest) h = ground (arith, find_scope-set_impl v w q rest h)

pub count-remove :
    (n m : ℕ) (xs : List ℕ)
    → contains m xs ≡ true
    → count n (remove m xs) + points_to n (some m) ≡ count n xs
count-remove n m [] h = cc
count-remove n m (x ∷ xs) h = ground (arith, count-remove n m xs)

pub contains-count : (n : ℕ) (xs : List ℕ) → 1 ≤ count n xs → contains n xs ≡ true
contains-count n [] h = absurd (omega arith)
contains-count n (x ∷ xs) h = ground (arith, contains-count n xs)

-- A run that has not gone wrong, in a state with the property.
abbrev pub Keeps : (Spans → Type 0) → Run → Type 0
Keeps Q (running s) = Q s
Keeps Q fault = ⊥
Keeps Q no_scope = Unit

-- An Impl that a living variable points to is on the heap.
pub held-contains :
    (v m : ℕ) (s : Spans)
    → IsOwned s
    → find_scope v s.scopes ≡ some (some m)
    → contains m s.allocated ≡ true
held-contains v m s h e =
    contains-count m s.allocated
      (ground (arith, h.kept m, holders-drop_scope m v (some m) s.scopes e))
