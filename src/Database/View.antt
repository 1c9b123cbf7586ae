-- ===== src/Database/View.antt =====
-- The tables, seen as a shop (Database/Shop).
use choreography_saga_demo.Base.{
  String, text_dec, ◌≡◌, refl, List, [], ◌∷◌, Option, none, some, ite, if◌then◌else◌, arith,
  Bool-cases, inl, inr,
}
use choreography_saga_demo.Base.Int.{ℤ}
use choreography_saga_demo.Domain.{ReservationState}
use choreography_saga_demo.Database.Tables.{Stock, Reservation, State}
use choreography_saga_demo.Database.Sql.{
  is_processed, find_saga, find_reserved, find_stock, available_or_zero, set_stock, set_released,
  is_reserved,
}
use choreography_saga_demo.Database.Ledger.{UniqueSagas}
use choreography_saga_demo.Database.Shop.{Held, nothing, holding, returned, Shop, change_at, amount}

abbrev pub level : Option Stock → Option ℤ
level none = none
level (some r) = some r.available

abbrev pub held_as : Option Reservation → Held
held_as none = nothing
held_as (some r) = if is_reserved r.status then holding r.sku r.quantity else returned

abbrev pub view : State → Shop
view d = record {
  seen = λ key consumer. is_processed key consumer d.processed_messages;
  available = λ sku. level (find_stock sku d.stock);
  held = λ saga. held_as (find_saga saga d.reservations);
}

-- Shops that agree everywhere are the same.
pub same_shop :
    (s t : Shop)
    → ((k c : String) → s.seen k c ≡ t.seen k c)
    → ((k : String) → s.available k ≡ t.available k)
    → ((k : String) → s.held k ≡ t.held k)
    → s ≡ t
same_shop s t p q r i = record { seen = λ k c. p k c i; available = λ k. q k i; held = λ k. r k i }

pub level-set_stock :
    (f : Stock → Stock) (g : ℤ → ℤ)
    → ((s : Stock) → (f s).sku ≡ s.sku)
    → ((s : Stock) → (f s).available ≡ g s.available)
    → (sku k : String) (ss : List Stock)
    → level (find_stock k (set_stock f sku ss)) ≡ change_at sku g k (level (find_stock k ss))
level-set_stock f g keeps is sku k [] = refl
level-set_stock f g keeps is sku k (s ∷ ss) = elim (text_dec s.sku sku) [
  | yes a ↦ elim (text_dec s.sku k) [
    | yes b ↦ ground (arith, a, b, keeps s, is s)
    | no b ↦ ground (arith, a, b, keeps s, level-set_stock f g keeps is sku k ss)
  ]
  | no a ↦ elim (text_dec s.sku k) [
    | yes b ↦ ground (arith, a, b)
    | no b ↦ ground (arith, a, b, level-set_stock f g keeps is sku k ss)
  ]
]

pub amount-level : (o : Option Stock) → amount (level o) ≡ available_or_zero o
amount-level none = refl
amount-level (some r) = refl

abbrev pub close : Held → Held
close nothing = nothing
close (holding sku q) = returned
close returned = returned

closed_row :
    (status : ReservationState) (r : Reservation)
    → r.status ≡ status
    → held_as
        (some (if is_reserved r.status then record r { status = ReservationState.released } else r))
      ≡ close (held_as (some r))
closed_row ReservationState.reserved r e = ground (arith, e)
closed_row ReservationState.released r e = ground (arith, e)

pub held-set_released :
    (u k : String) (rs : List Reservation)
    → held_as (find_saga k (set_released u rs))
      ≡ ite (text_dec u k) (close (held_as (find_saga k rs))) (held_as (find_saga k rs))
held-set_released u k [] = ground arith
held-set_released u k (r ∷ rs) = elim (text_dec r.saga_id u) [
  | yes a ↦ elim (text_dec r.saga_id k) [
    | yes b ↦ elim (Bool-cases (is_reserved r.status)) [
      | inl s ↦ ground (arith, a, b, s)
      | inr s ↦ ground (arith, a, b, s)
    ]
    | no b ↦ ground (arith, a, b, held-set_released u k rs)
  ]
  | no a ↦ ground (arith, a, held-set_released u k rs)
]

find_reserved-none :
    (u : String) (rs : List Reservation) → find_saga u rs ≡ none → find_reserved u rs ≡ none
find_reserved-none u [] h = refl
find_reserved-none u (r ∷ rs) h = ground (arith, find_reserved-none u rs)

pub held-find_reserved :
    (u : String) (rs : List Reservation) (old : Reservation)
    → UniqueSagas rs
    → find_reserved u rs ≡ some old
    → held_as (find_saga u rs) ≡ holding old.sku old.quantity
held-find_reserved u [] old h e = cc
held-find_reserved u (r ∷ rs) old h e =
    ground (arith, held-find_reserved u rs old h.1, find_reserved-none u rs, h.0)

pub held-none :
    (u : String) (rs : List Reservation)
    → UniqueSagas rs
    → find_reserved u rs ≡ none
    → close (held_as (find_saga u rs)) ≡ held_as (find_saga u rs)
held-none u [] h e = refl
held-none u (r ∷ rs) h e = ground (arith, held-none u rs h.1)
