-- ===== src/System/Calls.antt =====
-- What happens to the service, as calls of the database one after another.
use mathlib.Core.Path.{subst}
use choreography_saga_demo.Base.{
  ℕ, String, text_dec, ◌≡◌, refl, sym, ap, ◌∙◌, inl, inr, List, [], ◌∷◌, some, arith, All,
}
use choreography_saga_demo.Base.Int.{ℤ, pos, ◌≤ℤ◌}
use choreography_saga_demo.Base.Outcome.{Error}
use choreography_saga_demo.Outbox.{Repo, Publisher}
use choreography_saga_demo.Json.{Json}
use choreography_saga_demo.Envelope.{Entropy}
use choreography_saga_demo.Obs.Host.{Host, Moment}
use choreography_saga_demo.Grpc.{incoming_traceparent}
use choreography_saga_demo.Grpc.Served.{serve_reserve_stock-repo, serve_release_stock-repo}
use choreography_saga_demo.System.ByCalls.{
  ByCalls, ByCalls-none, ByCalls-one, ByCalls-trans, ByCalls-to, drain_once-ByCalls,
}
use choreography_saga_demo.Relay.{World, drain_once}
use choreography_saga_demo.Database.Tables.{Postgres, State}
use choreography_saga_demo.Database.Conservation.{units}
use choreography_saga_demo.Database.Ledger.{IsValid}
use choreography_saga_demo.Database.History.{
  reserves, releases, waits, step, run-units, run-IsValid, IsKeyed,
}
use choreography_saga_demo.App.{
  build_reserve_event, consumer_release, topic_order_cancelled, consumer_order_cancelled,
  build_release_event, event_traceparent,
}
use choreography_saga_demo.Process.{on_message}
use choreography_saga_demo.Process.Callback.{consume-on_message}
use choreography_saga_demo.Process.Cancel.{cancel_order-Carries, cancel_order-release}
use choreography_saga_demo.Process.Rounds.{relay_round}
use choreography_saga_demo.Database.{repository, outbox_repo}
use choreography_saga_demo.System.{
  Happening, reserve_asked, release_asked, delivered, relayed, waited, react, run_system,
}

module _ (pg : Postgres) (key_of : String → String) where
  -- A ReserveStock request asks for zero or more units, under the key of its saga.
  abbrev pub IsOrderly : Happening → Type 0
  IsOrderly (reserve_asked entropy at v tracing md request) =
      (pos 0 ≤ℤ request.quantity)
      × ((u : String) → pg.uuid_cast request.saga_id ≡ some u → request.idempotency_key ≡ key_of u)
  IsOrderly _ = Unit {0}

module _ {J : Type 0} (lib : Json J) (pg : Postgres) (key_of : String → String) where
  cancel-ByCalls :
      (entropy : Entropy) (topic value traceparent : String) (d : State)
      → ByCalls pg key_of d
          (on_message lib (repository pg) (λ _. entropy) 0 topic value traceparent d).1
  unfolding on_message step
  cancel-ByCalls entropy topic value traceparent d = elim (text_dec topic topic_order_cancelled) [
    | no other ↦ ByCalls-none pg key_of (ground arith)
    | yes same ↦ elim (cancel_order-Carries lib pg (λ _. entropy) 0 value traceparent d) [
      | inl (e, x) ↦ ByCalls-none pg key_of (ground (arith, x))
      | inr (env, id, c) ↦
          ByCalls-one pg key_of
            (releases env.saga_id id env.idempotency_key consumer_order_cancelled (
              build_release_event lib entropy env.saga_id id
                (event_traceparent lib entropy (repository pg) env traceparent)))
            tt
            (ground
              (arith, cancel_order-release lib pg (λ _. entropy) 0 value traceparent env id d c))
    ]
  ]

module _ {J P R : Type 0} (lib : Json J) (what : Error → String) (pg : Postgres)
    (publisher : Publisher P) (size : ℤ) (key_of : String → String) where
  relay_round-repo :
      (repo : Repo State) (at : Moment) (clock : ℕ → ℕ) (h : Host (World State P) J R)
      → (relay_round lib what repo publisher clock size at h).1.repo
        ≡ (drain_once repo publisher clock size h.repo).1
  unfolding relay_round
  relay_round-repo repo at clock h = ground arith

  -- What happens does to the database what calls of it do.
  pub react-ByCalls :
      (e : Happening) (h : Host (World State P) J R)
      → IsOrderly pg key_of e
      → ByCalls pg key_of h.repo.repo (react lib what pg publisher size e h).repo.repo
  unfolding react step
  react-ByCalls (reserve_asked entropy at v tracing md request) h order =
      let tp : String = tracing.within (incoming_traceparent tracing md) in
      ByCalls-one pg key_of
        (reserves request.saga_id request.idempotency_key request.sku request.quantity
          (build_reserve_event lib entropy request.saga_id request.sku request.quantity tp))
        order (serve_reserve_stock-repo lib entropy (repository pg) at v tracing md _ request)
  react-ByCalls (release_asked entropy at v tracing md request) h order =
      ByCalls-one pg key_of
        (releases request.saga_id request.reservation_id request.idempotency_key consumer_release (
          build_release_event lib entropy request.saga_id request.reservation_id
            (tracing.within (incoming_traceparent tracing md))))
        tt (serve_release_stock-repo lib entropy (repository pg) at v tracing md _ request)
  react-ByCalls (delivered entropy at v topic value traceparent) h order =
      ByCalls-to pg key_of
        (consume-on_message lib (repository pg) entropy at v _ 0 topic value traceparent)
        (cancel-ByCalls lib pg key_of entropy topic value traceparent h.repo.repo)
  react-ByCalls (relayed at clock locked) h order =
      ByCalls-to pg key_of (ap (λ x. x.repo) (relay_round-repo (outbox_repo pg locked) at clock h))
        (drain_once-ByCalls pg key_of locked publisher clock size h.repo)
  react-ByCalls (waited n) h order = ByCalls-one pg key_of (waits n) tt refl

  run_system-ByCalls :
      (es : List Happening) (h : Host (World State P) J R)
      → All (IsOrderly pg key_of) es
      → ByCalls pg key_of h.repo.repo (run_system lib what pg publisher size es h).repo.repo
  unfolding run_system
  run_system-ByCalls [] h orderly = ByCalls-none pg key_of refl
  run_system-ByCalls (e ∷ es) h orderly =
      ByCalls-trans pg key_of (react-ByCalls e h orderly.0)
        (run_system-ByCalls es (react lib what pg publisher size e h) orderly.1)

  -- Whatever happens to the service, one after another: requests answered or not, messages that can
  -- be read or not, rounds of the relay over a publisher that accepts or refuses, log lines that
  -- can be written or not. Where each ReserveStock request asks for zero or more units under the
  -- own one key of its saga, and the tables at the start are valid and have the key of every saga
  -- with a reservation processed, the tables at the end are valid, and there are as many units of
  -- each SKU, available and reserved together, as at the start.
  pub run_system-IsValid :
      (es : List Happening) (h : Host (World State P) J R)
      → All (IsOrderly pg key_of) es
      → IsKeyed pg key_of h.repo.repo
      → let d : State = (run_system lib what pg publisher size es h).repo.repo in
        IsValid d × (units d.stock ≡ units h.repo.repo.stock)
  run_system-IsValid es h orderly keyed =
      let by : ByCalls pg key_of h.repo.repo
          (run_system lib what pg publisher size es h).repo.repo =
        run_system-ByCalls es h orderly in
      (
        subst IsValid (sym by.comes)
            (run-IsValid pg key_of h.repo.repo by.calls by.disciplined keyed),
        ap (λ (d : State). units d.stock) by.comes ∙ run-units pg h.repo.repo by.calls,
      )
