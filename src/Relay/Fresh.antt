-- ===== src/Relay/Fresh.antt =====
-- What calls of reserve and release add to the outbox has an id that was not drawn before.
use choreography_saga_demo.Base.{
  ℕ, suc, ◌≤◌, String, ◌≡◌, refl, ◌⊎◌, inl, inr, [], ◌∷◌, ◌++◌, arith,
}
use choreography_saga_demo.Base.Int.{ℤ}
use choreography_saga_demo.Repository.{ReserveOutcome, ReleaseOutcome, EventBuilder}
use choreography_saga_demo.Database.Tables.{Postgres, OutboxRow, State}
use choreography_saga_demo.Database.ReserveSteps.{ReserveStep}
use choreography_saga_demo.Database.ReleaseSteps.{ReleaseStep}

module _ (pg : Postgres) where
  -- Nothing is added, or a row with an id drawn in the call.
  abbrev pub AddsFresh : State → State → Type 0
  AddsFresh d d' =
      (d.drawn ≤ d'.drawn)
      × ((d'.outbox ≡ d.outbox)
          ⊎ ((r : OutboxRow) × (k : ℕ) × (d'.outbox ≡ d.outbox ++ r ∷ [])
              × (d.drawn ≤ k)
              × (r.id ≡ pg.random_uuid k)))

  pub ReserveStep-AddsFresh :
      (saga key sku : String) (q : ℤ) (build : EventBuilder ReserveOutcome) (d : State) {r : _}
      {d' : State}
      → ReserveStep pg saga key sku q build d r d'
      → AddsFresh d d'
  ReserveStep-AddsFresh saga key sku q build d (ReserveStep.failed e x y) =
      rw y (omega arith, inl refl)
  ReserveStep-AddsFresh saga key sku q build d (ReserveStep.repeated u a b x y) =
      rw y (omega arith, inl refl)
  ReserveStep-AddsFresh saga key sku q build d (ReserveStep.refused ob p a b c e x y) =
      rw y (omega arith, inr (_, _, refl, omega arith, refl))
  ReserveStep-AddsFresh saga key sku q build d (ReserveStep.accepted u ob p a b c e f g x y) =
      rw y (omega arith, inr (_, suc d.drawn, refl, omega arith, refl))
  ReserveStep-AddsFresh saga key sku q build d
        (ReserveStep.accepted_again u o ob p a b c e f g x y) =
      rw y (omega arith, inr (_, suc d.drawn, refl, omega arith, refl))

  pub ReleaseStep-AddsFresh :
      (saga id key consumer : String) (build : EventBuilder ReleaseOutcome) (d : State) {r : _}
      {d' : State}
      → ReleaseStep pg saga id key consumer build d r d'
      → AddsFresh d d'
  ReleaseStep-AddsFresh saga id key consumer build d (ReleaseStep.failed e x y) =
      rw y (omega arith, inl refl)
  ReleaseStep-AddsFresh saga id key consumer build d (ReleaseStep.repeated a x y) =
      rw y (omega arith, inl refl)
  ReleaseStep-AddsFresh saga id key consumer build d (ReleaseStep.nothing u a b c x y) =
      rw y (omega arith, inl refl)
  ReleaseStep-AddsFresh saga id key consumer build d (ReleaseStep.returned u o ob p a b c e f x y) =
      rw y (omega arith, inr (_, d.drawn, refl, omega arith, refl))
