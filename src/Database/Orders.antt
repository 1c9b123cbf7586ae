-- ===== src/Database/Orders.antt =====
-- Histories of calls of Database as histories of the shop of Database/Shop.
use choreography_saga_demo.Base.{
  String, ◌≡◌, refl, ap, ◌∙◌, Bool, true, false, List, [], ◌∷◌, if◌then◌else◌, arith, All, inl, inr,
  Bool-cases,
}
use choreography_saga_demo.Database.Tables.{Postgres, State}
use choreography_saga_demo.Database.ReserveSteps.{reserve_steps}
use choreography_saga_demo.Database.ReleaseSteps.{release_steps}
use choreography_saga_demo.Database.{
  reserve, release, mark_published, mark_failed, consumer_reserve,
}
use choreography_saga_demo.Database.Shop.{Shop, shop_reserve, shop_release}
use choreography_saga_demo.Database.View.{view}
use choreography_saga_demo.Database.Refines.{succeeded, ReserveStep-view, ReleaseStep-view}
use choreography_saga_demo.Database.History.{
  Call, reserves, releases, publishes, attempts, waits, step, run, Disciplined, IsKeyed,
  repeats_or_new, step-IsKeyed,
}

-- The request that a call makes of the shop; the calls of the relay and the passing of time make none.
unfoldable pub shop_step : Postgres → Shop → Call → Shop
shop_step pg s (reserves saga key sku q build) =
    shop_reserve (pg.uuid_cast saga) key consumer_reserve sku q s
shop_step pg s (releases saga id key consumer build) =
    shop_release (pg.uuid_cast saga) key consumer s
shop_step pg s (publishes id) = s
shop_step pg s (attempts id) = s
shop_step pg s (waits n) = s

unfoldable pub shop_run : Postgres → Shop → List Call → Shop
unfolding shop_step
shop_run pg s [] = s
shop_run pg s (c ∷ cs) = shop_run pg (shop_step pg s c) cs

-- The calls of a history that return, rather than throw.
unfoldable pub returns : Postgres → State → Call → Bool
returns pg d (reserves saga key sku q build) = succeeded (reserve pg saga key sku q build d).0
returns pg d (releases saga id key consumer build) =
    succeeded (release pg saga id key consumer build d).0
returns pg d (publishes id) = succeeded (mark_published pg id d).0
returns pg d (attempts id) = succeeded (mark_failed pg id d).0
returns pg d (waits n) = true

unfoldable pub those_returned : Postgres → State → List Call → List Call
unfolding returns step
those_returned pg d [] = []
those_returned pg d (c ∷ cs) =
    let rest : List Call = those_returned pg (step pg d c) cs in
    if returns pg d c then c ∷ rest else rest

module _ (pg : Postgres) (key_of : String → String) where
  step-view :
      (d : State) (c : Call)
      → Disciplined pg key_of c
      → IsKeyed pg key_of d
      → view (step pg d c) ≡ (if returns pg d c then shop_step pg (view d) c else view d)
  unfolding step returns shop_step mark_published mark_failed
  step-view d (reserves saga key sku q build) h v =
      ReserveStep-view pg saga key sku q build d
        (repeats_or_new pg key_of saga key sku q build d h.1 v.1)
        (reserve_steps pg saga key sku q build d)
  step-view d (releases saga id key consumer build) h v =
      ReleaseStep-view pg saga id key consumer build d v.0
        (release_steps pg saga id key consumer build d)
  step-view d (publishes id) h v = ground arith
  step-view d (attempts id) h v = ground arith
  step-view d (waits n) h v = refl

  step-view_returned :
      (d : State) (c : Call)
      → Disciplined pg key_of c
      → IsKeyed pg key_of d
      → returns pg d c ≡ true
      → view (step pg d c) ≡ shop_step pg (view d) c
  step-view_returned d c h v e = step-view d c h v ∙ rw e refl

  step-view_thrown :
      (d : State) (c : Call)
      → Disciplined pg key_of c
      → IsKeyed pg key_of d
      → returns pg d c ≡ false
      → view (step pg d c) ≡ view d
  step-view_thrown d c h v e = step-view d c h v ∙ rw e refl

  -- Over any history in which each saga reserves under its own one key, for zero or more units, and
  -- which begins with valid tables that have the key of every saga with a reservation processed:
  -- the tables at the end, seen as a shop, are what the shop comes to by the requests of those calls
  -- that did not throw, each taken once, in their order.
  pub run-view :
      (d : State) (cs : List Call)
      → All (Disciplined pg key_of) cs
      → IsKeyed pg key_of d
      → view (run pg d cs) ≡ shop_run pg (view d) (those_returned pg d cs)
  unfolding run shop_run those_returned
  run-view d [] h v = refl
  run-view d (c ∷ cs) h v = elim (Bool-cases (returns pg d c)) [
    | inl e ↦
        run-view (step pg d c) cs h.1 (step-IsKeyed pg key_of d c h.0 v)
        ∙ ap (λ s. shop_run pg s (those_returned pg (step pg d c) cs))
            (step-view_returned d c h.0 v e)
        ∙ rw e refl
    | inr e ↦
        run-view (step pg d c) cs h.1 (step-IsKeyed pg key_of d c h.0 v)
        ∙ ap (λ s. shop_run pg s (those_returned pg (step pg d c) cs))
            (step-view_thrown d c h.0 v e)
        ∙ rw e refl
  ]
