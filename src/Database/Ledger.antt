-- ===== src/Database/Ledger.antt =====
-- What the tables owe each other: the reserved units of a stock row are those of the open
-- reservations, no SKU and no saga has two rows, and nothing is negative.
use choreography_saga_demo.Base.{
  String, text_dec, ◌≡◌, refl, true, false, List, [], ◌∷◌, none, some, ite, arith, All,
  if◌then◌else◌,
}
use choreography_saga_demo.Base.Int.{
  ℤ, pos, ◌+ℤ◌, ◌-ℤ◌, ◌≤ℤ◌, ltb_ℤ, int_laws, +ℤ_comm, zero-+ℤ, +ℤ_left_comm, add-sub_left,
}
use choreography_saga_demo.Database.Tables.{Stock, Reservation, State}
use choreography_saga_demo.Database.Sql.{
  is_reserved, find_reserved, find_saga, find_stock, available_or_zero, take_units, return_units,
  set_stock, set_released,
}

-- The units of a SKU that a reservation is for.
abbrev pub units_of : String → Reservation → ℤ
units_of sku r = ite (text_dec r.sku sku) r.quantity (pos 0)

-- The units of a SKU that the open reservations hold.
abbrev pub reserved_for : String → List Reservation → ℤ
reserved_for sku [] = pos 0
reserved_for sku (r ∷ rs) =
    (if is_reserved r.status then units_of sku r else pos 0) +ℤ reserved_for sku rs

abbrev pub IsBalanced : List Reservation → List Stock → Type 0
IsBalanced rs = All λ s. s.reserved ≡ reserved_for s.sku rs

abbrev pub UniqueSkus : List Stock → Type 0
UniqueSkus [] = Unit
UniqueSkus (s ∷ ss) = (find_stock s.sku ss ≡ none) × UniqueSkus ss

abbrev pub UniqueSagas : List Reservation → Type 0
UniqueSagas [] = Unit
UniqueSagas (r ∷ rs) = (find_saga r.saga_id rs ≡ none) × UniqueSagas rs

pub record IsValid (d : State) : Type 0 where
  pub unique_skus : UniqueSkus d.stock
  pub unique_sagas : UniqueSagas d.reservations
  pub shelf : All (λ s. pos 0 ≤ℤ s.available) d.stock
  pub amounts : All (λ r. pos 0 ≤ℤ r.quantity) d.reservations
  pub balanced : IsBalanced d.reservations d.stock

-- Stock rows under an update that keeps their SKUs.
module _ (f : Stock → Stock) (keeps : (s : Stock) → (f s).sku ≡ s.sku) (sku : String) where
  find_stock-set_stock :
      (other : String) (ss : List Stock)
      → find_stock other ss ≡ none
      → find_stock other (set_stock f sku ss) ≡ none
  find_stock-set_stock other [] h = refl
  find_stock-set_stock other (s ∷ ss) h = ground (arith, keeps s, find_stock-set_stock other ss)

  pub set_stock-UniqueSkus : (ss : List Stock) → UniqueSkus ss → UniqueSkus (set_stock f sku ss)
  set_stock-UniqueSkus [] u = tt
  set_stock-UniqueSkus (s ∷ ss) u =
      ground (arith, keeps s, find_stock-set_stock s.sku ss, set_stock-UniqueSkus ss u.1)

-- A SKU with no row is not updated.
pub set_stock-missing :
    (f : Stock → Stock) (sku : String) (ss : List Stock)
    → find_stock sku ss ≡ none
    → set_stock f sku ss ≡ ss
set_stock-missing f sku [] h = refl
set_stock-missing f sku (s ∷ ss) h = ground (arith, set_stock-missing f sku ss)

-- Enough on the shelf: taking units leaves no row below zero.
pub take_units-shelf :
    (q : ℤ) (sku : String) (ss : List Stock)
    → UniqueSkus ss
    → ltb_ℤ (available_or_zero (find_stock sku ss)) q ≡ false
    → All (λ s. pos 0 ≤ℤ s.available) ss
    → All (λ s. pos 0 ≤ℤ s.available) (set_stock (take_units q) sku ss)
unfolding take_units ◌-ℤ◌
take_units-shelf q sku [] u h a = tt
take_units-shelf q sku (s ∷ ss) u h a =
    ground (arith, set_stock-missing (take_units q) sku ss, take_units-shelf q sku ss u.1)

pub return_units-shelf :
    (q : ℤ) (sku : String) (ss : List Stock)
    → pos 0 ≤ℤ q
    → All (λ s. pos 0 ≤ℤ s.available) ss
    → All (λ s. pos 0 ≤ℤ s.available) (set_stock (return_units q) sku ss)
unfolding return_units ◌+ℤ◌
return_units-shelf q sku [] h a = tt
return_units-shelf q sku (s ∷ ss) h a = ground (arith, return_units-shelf q sku ss h a.1)

-- A new open reservation of the units that are taken.
pub take_units-IsBalanced :
    (new : Reservation) (rs : List Reservation) (ss : List Stock)
    → is_reserved new.status ≡ true
    → IsBalanced rs ss
    → IsBalanced (new ∷ rs) (set_stock (take_units new.quantity) new.sku ss)
unfolding take_units
take_units-IsBalanced new rs [] o b = tt
take_units-IsBalanced new rs (s ∷ ss) o b = grind (
  int_laws,
  +ℤ_comm s.reserved new.quantity,
  zero-+ℤ (reserved_for s.sku rs),
  take_units-IsBalanced new rs ss o b.1,
)

find_reserved-find_saga :
    (u : String) (rs : List Reservation) → find_saga u rs ≡ none → find_reserved u rs ≡ none
find_reserved-find_saga u [] h = refl
find_reserved-find_saga u (r ∷ rs) h = ground (arith, find_reserved-find_saga u rs)

set_released-missing :
    (u : String) (rs : List Reservation) → find_saga u rs ≡ none → set_released u rs ≡ rs
set_released-missing u [] h = refl
set_released-missing u (r ∷ rs) h = ground (arith, set_released-missing u rs)

-- Releasing the saga's reservation takes its units off the sum of its SKU, and of no other.
pub reserved_for-set_released :
    (k u : String) (rs : List Reservation) (old : Reservation)
    → UniqueSagas rs
    → find_reserved u rs ≡ some old
    → reserved_for k rs ≡ units_of k old +ℤ reserved_for k (set_released u rs)
reserved_for-set_released k u [] old uq h = cc
reserved_for-set_released k u (r ∷ rs) old uq h = ground (
  arith,
  find_reserved-find_saga u rs,
  set_released-missing u rs,
  zero-+ℤ (reserved_for k rs),
  reserved_for-set_released k u rs old uq.1,
  +ℤ_left_comm (units_of k r) (units_of k old) (reserved_for k (set_released u rs)),
  +ℤ_left_comm (pos 0) (units_of k old) (reserved_for k (set_released u rs)),
)

-- The units of a released reservation go back.
pub return_units-IsBalanced :
    (u : String) (old : Reservation) (rs : List Reservation) (ss : List Stock)
    → UniqueSagas rs
    → find_reserved u rs ≡ some old
    → IsBalanced rs ss
    → IsBalanced (set_released u rs) (set_stock (return_units old.quantity) old.sku ss)
unfolding return_units
return_units-IsBalanced u old rs [] uq h b = tt
return_units-IsBalanced u old rs (s ∷ ss) uq h b = ground (
  arith,
  reserved_for-set_released s.sku u rs old uq h,
  zero-+ℤ (reserved_for s.sku (set_released u rs)),
  add-sub_left old.quantity (reserved_for s.sku (set_released u rs)),
  return_units-IsBalanced u old rs ss uq h b.1,
)

find_saga-set_released :
    (k u : String) (rs : List Reservation)
    → find_saga k rs ≡ none
    → find_saga k (set_released u rs) ≡ none
find_saga-set_released k u [] h = refl
find_saga-set_released k u (r ∷ rs) h = ground (arith, find_saga-set_released k u rs)

pub set_released-UniqueSagas :
    (u : String) (rs : List Reservation) → UniqueSagas rs → UniqueSagas (set_released u rs)
set_released-UniqueSagas u [] h = tt
set_released-UniqueSagas u (r ∷ rs) h =
    ground (arith, find_saga-set_released r.saga_id u rs, set_released-UniqueSagas u rs)

pub set_released-amounts :
    (u : String) (rs : List Reservation)
    → All (λ r. pos 0 ≤ℤ r.quantity) rs
    → All (λ r. pos 0 ≤ℤ r.quantity) (set_released u rs)
set_released-amounts u [] h = tt
set_released-amounts u (r ∷ rs) h = ground (arith, set_released-amounts u rs)

pub find_reserved-amount :
    (u : String) (rs : List Reservation) (old : Reservation)
    → find_reserved u rs ≡ some old
    → All (λ r. pos 0 ≤ℤ r.quantity) rs
    → pos 0 ≤ℤ old.quantity
find_reserved-amount u [] old h a = cc
find_reserved-amount u (r ∷ rs) old h a = ground (arith, find_reserved-amount u rs old)
