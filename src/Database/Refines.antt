-- ===== src/Database/Refines.antt =====
-- Calls of Database as requests to the shop of Database/Shop.
use choreography_saga_demo.Base.{
  String, text_dec, ◌≡◌, refl, sym, ap, ◌∙◌, Bool, true, false, Option, none, some, ite,
  if◌then◌else◌, arith, inl, inr,
}
use choreography_saga_demo.Base.Int.{ℤ, ◌+ℤ◌, ◌-ℤ◌}
use choreography_saga_demo.Base.Outcome.{Outcome, ok, throws}
use choreography_saga_demo.Repository.{ReserveOutcome, ReleaseOutcome, EventBuilder}
use choreography_saga_demo.Database.Tables.{Postgres, Reservation, State}
use choreography_saga_demo.Database.Sql.{find_saga, find_stock, take_units, return_units}
use choreography_saga_demo.Database.Ledger.{IsValid}
use choreography_saga_demo.Database.Validity.{RepeatsOrNew}
use choreography_saga_demo.Database.ReserveSteps
use choreography_saga_demo.Database.ReserveSteps.{ReserveStep, reserve_steps}
use choreography_saga_demo.Database.ReleaseSteps.{ReleaseStep}
use choreography_saga_demo.Database.{consumer_reserve}
use choreography_saga_demo.Database.Shop.{
  Held, nothing, holding, returned, Shop, mark, put, change, refuses, give_back, shop_reserve,
  shop_release,
}
use choreography_saga_demo.Database.View.{
  view, held_as, same_shop, level-set_stock, amount-level, close, held-set_released,
  held-find_reserved, held-none,
}

abbrev pub succeeded : {A : Type 0} → Outcome A → Bool
succeeded (ok a) = true
succeeded (throws e) = false

shop_reserve-seen :
    (saga : Option String) (key consumer sku : String) (q : ℤ) (s : Shop)
    → s.seen key consumer ≡ true
    → shop_reserve saga key consumer sku q s ≡ s
unfolding shop_reserve
shop_reserve-seen saga key consumer sku q s e = ground (arith, e)

shop_reserve-refused :
    (saga : Option String) (key consumer sku : String) (q : ℤ) (s : Shop)
    → s.seen key consumer ≡ false
    → refuses sku q s ≡ true
    → shop_reserve saga key consumer sku q s ≡ mark key consumer s
unfolding shop_reserve
shop_reserve-refused saga key consumer sku q s e f = ground (arith, e, f)

shop_reserve-held :
    (saga key consumer sku : String) (q : ℤ) (s : Shop)
    → s.seen key consumer ≡ false
    → refuses sku q s ≡ false
    → s.held saga ≡ nothing
    → shop_reserve (some saga) key consumer sku q s
      ≡ mark key consumer (change sku (λ n. n -ℤ q) (put saga (holding sku q) s))
unfolding shop_reserve
shop_reserve-held saga key consumer sku q s e f g = ground (arith, e, f, g)

module _ (pg : Postgres) (saga_id key sku : String) (q : ℤ) (build : EventBuilder ReserveOutcome)
    (d : State) (new : RepeatsOrNew pg saga_id key d) where
  -- The request that the call stands for; a call that throws stands for none.
  abbrev pub reserve_as : Outcome ReserveOutcome → Shop
  reserve_as r =
      if succeeded r
      then shop_reserve (pg.uuid_cast saga_id) key consumer_reserve sku q (view d)
      else view d

  refuses-view : refuses sku q (view d) ≡ ReserveSteps.is_refused pg saga_id key sku q build d
  refuses-view = rw (amount-level (find_stock sku d.stock)) refl

  held-new :
      (u k : String) (o : Option Reservation)
      → held_as (
          ite (text_dec u k) (some (ReserveSteps.new_reservation pg saga_id key sku q build d u)) o)
        ≡ ite (text_dec u k) (holding sku q) (held_as o)
  held-new u k o = ground arith

  pub ReserveStep-view :
      {r : Outcome ReserveOutcome} {d' : State}
      → ReserveStep pg saga_id key sku q build d r d'
      → view d' ≡ reserve_as r
  unfolding take_units
  ReserveStep-view (ReserveStep.failed e x y) = rw (x, y) refl
  ReserveStep-view (ReserveStep.repeated u a b c y) =
      rw (c, y)
        (sym (shop_reserve-seen (pg.uuid_cast saga_id) key consumer_reserve sku q (view d) a))
  ReserveStep-view (ReserveStep.refused ob p a b c e x y) =
      rw (x, y)
        (sym (
          shop_reserve-refused (pg.uuid_cast saga_id) key consumer_reserve sku q (view d) a
            (refuses-view ∙ b)))
  ReserveStep-view (ReserveStep.accepted u ob p a b c e f g x y) =
      rw (x, y, c)
        (same_shop _ _ (λ k c. refl)
            (λ k.
              level-set_stock (take_units q) (λ n. n -ℤ q) (λ s. refl) (λ s. refl) sku k d.stock)
            (λ k. held-new u k (find_saga k d.reservations))
          ∙ sym (
              shop_reserve-held u key consumer_reserve sku q (view d) a (refuses-view ∙ b)
                (ap held_as e)))
  ReserveStep-view (ReserveStep.accepted_again u old ob p a b c e f g x y) =
      absurd (ground (arith, new_saga))
    where
      new_saga : find_saga u d.reservations ≡ none
      new_saga = elim new [ inl again ↦ cc | inr fresh ↦ fresh u c ]

shop_release-seen :
    (saga : Option String) (key consumer : String) (s : Shop)
    → s.seen key consumer ≡ true
    → shop_release saga key consumer s ≡ s
unfolding shop_release
shop_release-seen saga key consumer s e = ground (arith, e)

shop_release-new :
    (saga key consumer : String) (h : Held) (s : Shop)
    → s.seen key consumer ≡ false
    → s.held saga ≡ h
    → shop_release (some saga) key consumer s ≡ mark key consumer (give_back saga h s)
unfolding shop_release
shop_release-new saga key consumer h s e f = ground (arith, e, f)

give_back-closed : (saga : String) (h : Held) (s : Shop) → close h ≡ h → give_back saga h s ≡ s
give_back-closed saga nothing s e = refl
give_back-closed saga (holding sku q) s e = cc
give_back-closed saga returned s e = refl

module _ (pg : Postgres) (saga_id id key consumer : String) (build : EventBuilder ReleaseOutcome)
    (d : State) (valid : IsValid d) where
  abbrev pub release_as : Outcome ReleaseOutcome → Shop
  release_as r =
      if succeeded r then shop_release (pg.uuid_cast saga_id) key consumer (view d) else view d

  held-given :
      (u k sku : String) (q : ℤ) (h : Held)
      → (u ≡ k → h ≡ holding sku q)
      → ite (text_dec u k) (close h) h ≡ ite (text_dec u k) returned h
  held-given u k sku q h e = elim (text_dec u k) [
    | yes same ↦ ground (arith, same, e same)
    | no other ↦ ground (arith, other)
  ]

  pub ReleaseStep-view :
      {r : Outcome ReleaseOutcome} {d' : State}
      → ReleaseStep pg saga_id id key consumer build d r d'
      → view d' ≡ release_as r
  unfolding return_units
  ReleaseStep-view (ReleaseStep.failed e x y) = rw (x, y) refl
  ReleaseStep-view (ReleaseStep.repeated a x y) =
      rw (x, y) (sym (shop_release-seen (pg.uuid_cast saga_id) key consumer (view d) a))
  ReleaseStep-view (ReleaseStep.nothing u a b c x y) =
      rw (x, y, b)
        (sym (
          shop_release-new u key consumer ((view d).held u) (view d) a refl
          ∙ ap (mark key consumer) (
              give_back-closed u ((view d).held u) (view d)
                (held-none u d.reservations valid.unique_sagas c))))
  ReleaseStep-view (ReleaseStep.returned u old ob p a b c e f x y) =
      rw (x, y, b)
        (same_shop _ _ (λ k c. refl)
            (λ k.
              level-set_stock (return_units old.quantity) (λ n. n +ℤ old.quantity) (λ s. refl)
                (λ s. refl) old.sku k d.stock)
            (λ k.
              held-set_released u k d.reservations
              ∙ held-given u k old.sku old.quantity ((view d).held k) (λ same.
                rw (sym same) (held-find_reserved u d.reservations old valid.unique_sagas c)))
          ∙ sym (
              shop_release-new u key consumer (holding old.sku old.quantity) (view d) a
                (held-find_reserved u d.reservations old valid.unique_sagas c)))
