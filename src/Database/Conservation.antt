-- ===== src/Database/Conservation.antt =====
-- The units of stock before and after a reservation or a release.
use choreography_saga_demo.Base.{String, ◌≡◌, refl, List, [], ◌∷◌, arith}
use choreography_saga_demo.Base.Int.{ℤ, ◌+ℤ◌, sum-shift, sum-shift_back}
use choreography_saga_demo.Repository.{ReserveOutcome, ReleaseOutcome, EventBuilder}
use choreography_saga_demo.Database.Tables.{Postgres, Stock, State}
use choreography_saga_demo.Database.Sql.{take_units, return_units, set_stock}
use choreography_saga_demo.Database.{reserve, release}

-- How many units there are of each SKU, on the shelf or reserved.
abbrev pub units : List Stock → List (String × ℤ)
units [] = []
units (r ∷ rs) = (r.sku, r.available +ℤ r.reserved) ∷ units rs

units-set_stock_take :
    (q : ℤ) (sku : String) (rows : List Stock)
    → units (set_stock (take_units q) sku rows) ≡ units rows
unfolding take_units
units-set_stock_take q sku [] = refl
units-set_stock_take q sku (r ∷ rs) =
    ground (arith, sum-shift r.available r.reserved q, units-set_stock_take q sku rs)

units-set_stock_return :
    (q : ℤ) (sku : String) (rows : List Stock)
    → units (set_stock (return_units q) sku rows) ≡ units rows
unfolding return_units
units-set_stock_return q sku [] = refl
units-set_stock_return q sku (r ∷ rs) =
    ground (arith, sum-shift_back r.available r.reserved q, units-set_stock_return q sku rs)

pub reserve-units :
    (pg : Postgres) (saga_id key sku : String) (q : ℤ) (build : EventBuilder ReserveOutcome)
    (d : State)
    → units (reserve pg saga_id key sku q build d).1.stock ≡ units d.stock
unfolding reserve
reserve-units pg saga_id key sku q build d = ground (arith, units-set_stock_take q sku d.stock)

pub release-units :
    (pg : Postgres) (saga_id reservation_id key consumer : String)
    (build : EventBuilder ReleaseOutcome) (d : State)
    → units (release pg saga_id reservation_id key consumer build d).1.stock ≡ units d.stock
unfolding release
release-units pg saga_id reservation_id key consumer build d = grind (arith, units-set_stock_return)
