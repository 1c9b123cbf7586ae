-- ===== src/Database/Validity.antt =====
-- `reserve` and `release`, and the validity of the tables (Database/Ledger).
use choreography_saga_demo.Base.{
  String, ◌≡◌, refl, ◌⊎◌, inl, inr, true, false, ◌∷◌, none, some, arith,
}
use choreography_saga_demo.Base.Int.{ℤ, pos, ◌≤ℤ◌}
use choreography_saga_demo.Repository.{ReserveOutcome, ReleaseOutcome, EventBuilder}
use choreography_saga_demo.Database.Tables.{Postgres, State}
use choreography_saga_demo.Database.Sql.{
  is_processed, find_saga, take_units, return_units, set_stock,
}
use choreography_saga_demo.Database.Ledger.{
  IsValid, set_stock-UniqueSkus, take_units-shelf, return_units-shelf, take_units-IsBalanced,
  return_units-IsBalanced, set_released-UniqueSagas, set_released-amounts, find_reserved-amount,
}
use choreography_saga_demo.Database.ReserveSteps
use choreography_saga_demo.Database.ReserveSteps.{ReserveStep, reserve_steps}
use choreography_saga_demo.Database.ReleaseSteps.{ReleaseStep, release_steps}
use choreography_saga_demo.Database.{reserve, release, consumer_reserve}

-- The call is a repetition, or the saga has no reservation yet.
abbrev pub RepeatsOrNew : Postgres → String → String → State → Type 0
RepeatsOrNew pg saga_id key d =
    (is_processed key consumer_reserve d.processed_messages ≡ true)
    ⊎ ((u : String) → pg.uuid_cast saga_id ≡ some u → find_saga u d.reservations ≡ none)

module _ (pg : Postgres) (saga_id key sku : String) (q : ℤ) (build : EventBuilder ReserveOutcome)
    (d : State) (nonneg : pos 0 ≤ℤ q) (new : RepeatsOrNew pg saga_id key d) where
  accepted_rows :
      (u : String)
      → ReserveSteps.is_refused pg saga_id key sku q build d ≡ false
      → find_saga u d.reservations ≡ none
      → IsValid d
      → IsValid (record d {
        stock = set_stock (take_units q) sku d.stock;
        reservations = ReserveSteps.new_reservation pg saga_id key sku q build d u ∷ d.reservations;
      })
  unfolding take_units
  accepted_rows u enough fresh v = record {
    unique_skus = set_stock-UniqueSkus (take_units q) (λ s. refl) sku d.stock v.unique_skus;
    unique_sagas = (fresh, v.unique_sagas);
    shelf = ground (arith, take_units-shelf q sku d.stock v.unique_skus);
    amounts = (nonneg, v.amounts);
    balanced =
        take_units-IsBalanced (ReserveSteps.new_reservation pg saga_id key sku q build d u)
          d.reservations d.stock refl v.balanced;
  }

  ReserveStep-IsValid :
      {r : _} {d' : State} → ReserveStep pg saga_id key sku q build d r d' → IsValid d → IsValid d'
  ReserveStep-IsValid (ReserveStep.failed e x y) v = rw y v
  ReserveStep-IsValid (ReserveStep.repeated u a b c y) v = rw y v
  ReserveStep-IsValid (ReserveStep.refused ob p a b c e x y) v = rw y (ground arith)
  ReserveStep-IsValid (ReserveStep.accepted u ob p a b c e f g x y) v =
      rw y (ground (arith, accepted_rows u b e v))
  ReserveStep-IsValid (ReserveStep.accepted_again u old ob p a b c e f g x y) v =
      absurd (ground (arith, new_saga))
    where
      new_saga : find_saga u d.reservations ≡ none
      new_saga = elim new [ inl again ↦ cc | inr fresh ↦ fresh u c ]

  -- A reservation keeps the tables valid: a repeated call, or a first one for the saga.
  pub reserve-IsValid : IsValid d → IsValid (reserve pg saga_id key sku q build d).1
  reserve-IsValid = ReserveStep-IsValid (reserve_steps pg saga_id key sku q build d)

module _ (pg : Postgres) (saga_id reservation_id key consumer : String)
    (build : EventBuilder ReleaseOutcome) (d : State) where
  ReleaseStep-IsValid :
      {r : _} {d' : State}
      → ReleaseStep pg saga_id reservation_id key consumer build d r d'
      → IsValid d
      → IsValid d'
  unfolding return_units
  ReleaseStep-IsValid (ReleaseStep.failed e x y) v = rw y v
  ReleaseStep-IsValid (ReleaseStep.repeated a x y) v = rw y v
  ReleaseStep-IsValid (ReleaseStep.nothing u a b c x y) v = rw y (ground arith)
  ReleaseStep-IsValid (ReleaseStep.returned u old ob p a b found c e x y) v = rw y (record {
    unique_skus =
        set_stock-UniqueSkus (return_units old.quantity) (λ s. refl) old.sku d.stock v.unique_skus;
    unique_sagas = set_released-UniqueSagas u d.reservations v.unique_sagas;
    shelf =
        return_units-shelf old.quantity old.sku d.stock
          (find_reserved-amount u d.reservations old found v.amounts) v.shelf;
    amounts = set_released-amounts u d.reservations v.amounts;
    balanced = return_units-IsBalanced u old d.reservations d.stock v.unique_sagas found v.balanced;
  })

  -- A release keeps the tables valid.
  pub release-IsValid :
      IsValid d → IsValid (release pg saga_id reservation_id key consumer build d).1
  release-IsValid =
      ReleaseStep-IsValid (release_steps pg saga_id reservation_id key consumer build d)
