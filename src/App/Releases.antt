-- ===== src/App/Releases.antt =====
-- What release_stock tells its caller and announces, over Database.
use choreography_saga_demo.Base.{
  String, ◌≡◌, refl, sym, ◌⊎◌, inl, inr, Bool, true, false, List, [], ◌∷◌, ◌++◌, none, some, arith,
}
use choreography_saga_demo.Base.Outcome.{ok, Outcome-cases}
use choreography_saga_demo.Outbox.{Insert}
use choreography_saga_demo.Repository.{ReleaseOutcome, EventBuilder}
use choreography_saga_demo.Json.{Json}
use choreography_saga_demo.Envelope.{Entropy}
use choreography_saga_demo.Database.Tables.{Postgres, OutboxStatus, OutboxRow, Reservation, State}
use choreography_saga_demo.Database.Sql.{is_processed, find_reserved}
use choreography_saga_demo.Database.OutboxSql.{new_row}
use choreography_saga_demo.Database.ReleaseSteps
use choreography_saga_demo.Database.ReleaseSteps.{ReleaseStep, set_released-closed}
use choreography_saga_demo.Database.{release, repository}
use choreography_saga_demo.App.{
  topic_released, consumer_release, build_release_event, released_event, release_stock,
}

-- The outbox has one row more, a pending one, that announces the release of the saga.
abbrev pub AnnouncesRelease : String → String → List OutboxRow → List OutboxRow → Type 0
AnnouncesRelease saga_id traceparent rows rows' =
    (row : OutboxRow) × (rows' ≡ rows ++ row ∷ [])
    × (row.status ≡ OutboxStatus.pending)
    × (row.topic ≡ topic_released)
    × (row.event_type ≡ "InventoryReleased")
    × (row.aggregate_id ≡ saga_id)
    × (row.traceparent ≡ traceparent)

module _ {J : Type 0} (lib : Json J) (entropy : Entropy) (pg : Postgres)
    (saga_id id key traceparent u : String) (d : State) where
  abbrev build : EventBuilder ReleaseOutcome
  build = build_release_event lib entropy saga_id id traceparent

  built_release :
      (o : ReleaseOutcome) (ob : Insert)
      → build o ≡ ok ob
      → (ob.topic ≡ topic_released)
        × (ob.event_type ≡ "InventoryReleased")
        × (ob.aggregate_id ≡ saga_id)
        × (ob.traceparent ≡ traceparent)
  unfolding build_release_event released_event
  built_release o ob h = ground arith

  -- What a call that tells `released` did.
  abbrev pub Told : Bool → State → Type 0
  Told released d' =
      ((find_reserved u d.reservations ≡ none)
        × (released ≡ false)
        × (d'.stock ≡ d.stock)
        × (d'.reservations ≡ d.reservations)
        × (d'.outbox ≡ d.outbox))
      ⊎ ((old : Reservation) × (find_reserved u d.reservations ≡ some old)
          × (released ≡ true)
          × (find_reserved u d'.reservations ≡ none)
          × AnnouncesRelease saga_id traceparent d.outbox d'.outbox)

  ReleaseStep-Told :
      {r : _} {d' : State}
      → ReleaseStep pg saga_id id key consumer_release build d r d'
      → (o : ReleaseOutcome) → r ≡ ok o
      → is_processed key consumer_release d.processed_messages ≡ false
      → pg.uuid_cast saga_id ≡ some u
      → Told o.released d'
  ReleaseStep-Told (ReleaseStep.failed e x y) o h new cast = cc
  ReleaseStep-Told (ReleaseStep.repeated a x y) o h new cast = absurd (ground arith)
  ReleaseStep-Told (ReleaseStep.nothing w a b c x y) o h new cast =
      rw y (inl (ground arith, ground arith, refl, refl, refl))
  ReleaseStep-Told (ReleaseStep.returned w old ob p a b c e f x y) o h new cast =
      let (topic, event_type, aggregate_id, trace) = built_release _ ob e in
      rw y (
        inr (
          old,
          ground arith,
          ground arith,
          ground (arith, set_released-closed u d.reservations),
          (
            new_row ob p d.now (pg.random_uuid d.drawn),
            refl,
            refl,
            topic,
            event_type,
            aggregate_id,
            trace,
          ),
        ))

  -- A release_stock call over Database under a new key, for a valid saga id, tells the truth when it
  -- returns: false where the saga has no open reservation, and then stock, reservations and outbox stay
  -- as they are; or true where it has one, and then it has none any more, and the outbox has exactly
  -- one row more, a pending InventoryReleased event for the saga under the given trace.
  pub release_stock-Told :
      (released : Bool) (d' : State)
      → is_processed key consumer_release d.processed_messages ≡ false
      → pg.uuid_cast saga_id ≡ some u
      → release_stock lib entropy (repository pg) saga_id id key traceparent d ≡ (ok released, d')
      → Told released d'
  unfolding release_stock
  release_stock-Told released d' new cast h =
      elim (Outcome-cases (release pg saga_id id key consumer_release build d).0) [
        | inl (e, x) ↦ absurd (ground (arith, x))
        | inr (o, x) ↦
            let told : o.released ≡ released = ground (arith, x) in
            let after : (release pg saga_id id key consumer_release build d).1 ≡ d' =
              ground (arith, x) in
            rw (sym told, sym after)
              (ReleaseStep-Told
                (ReleaseSteps.release_steps pg saga_id id key consumer_release build d) o x new
                cast)
      ]
