-- ===== src/Database/Connection/Once.antt =====
-- Histories with lost connections, restarts and repeated calls as histories without.
use choreography_saga_demo.Base.{
  ◌≡◌, refl, ap, ◌∙◌, sym, ◌⊎◌, inl, inr, true, false, List, [], ◌∷◌, ◌++◌, if◌then◌else◌, arith,
  All, All-append, Bool-cases,
}
use choreography_saga_demo.Database.Tables.{Postgres, ProcessedMessage, State}
use choreography_saga_demo.Database.Refines.{succeeded}
use choreography_saga_demo.Database.History.{
  Call, reserves, releases, publishes, attempts, waits, step, run,
}
use choreography_saga_demo.Database.Orders.{returns, those_returned}
use choreography_saga_demo.Database.Connection.Requests.{
  request, requests, repeats, once, AllDiffer, once-AllDiffer, Among, once-kept, Among-left,
  Among-right, All-map, Among-self, repeats-All, requests-append,
}
use choreography_saga_demo.Database.Connection.Marks.{
  step-repeated, step-thrown, step-marked, step-Among,
}
use choreography_saga_demo.Database.Connection.{
  Impl, served, lost_before, lost_after, Event, asks, loses, restarts, passes, happen, run_events,
  transaction, over, reached, committed, calls_of, answered,
}

module _ (pg : Postgres) where
  run-once :
      (ms : List ProcessedMessage) (d : State) (cs : List Call)
      → All (Among d.processed_messages) ms
      → run pg d cs ≡ run pg d (once ms (those_returned pg d cs))
  unfolding run once those_returned
  run-once ms d [] h = refl
  run-once ms d (c ∷ cs) h = elim (Bool-cases (returns pg d c)) [
    | inl r ↦
        let ih : run pg (step pg d c) cs
            ≡ run pg (step pg d c) (once (request c ++ ms) (those_returned pg (step pg d c) cs)) =
          run-once (request c ++ ms) (step pg d c) cs (
            All-append _ (request c) ms (step-marked pg d c r)
              (All-map (step-Among pg d c) ms h)) in
        elim (Bool-cases (repeats ms c)) [
          | inl again ↦
              ih
              ∙ ap (λ s. run pg s (once (request c ++ ms) (those_returned pg (step pg d c) cs)))
                  (step-repeated pg d c (repeats-All d.processed_messages ms c h again))
              ∙ rw (r, again) refl
          | inr new ↦ ih ∙ rw (r, new) refl
        ]
    | inr r ↦
        run-once ms (step pg d c) cs (All-map (step-Among pg d c) ms h)
        ∙ ap (λ s. run pg s (once ms (those_returned pg (step pg d c) cs))) (step-thrown pg d c r)
        ∙ rw r refl
  ]

  transaction-step : (d : State) (c : Call) → (transaction pg c d).1 ≡ step pg d c
  unfolding transaction step
  transaction-step d (reserves saga key sku q build) = ground arith
  transaction-step d (releases saga id key consumer build) = ground arith
  transaction-step d (publishes id) = refl
  transaction-step d (attempts id) = refl
  transaction-step d (waits n) = refl

  transaction-returns : (d : State) (c : Call) → succeeded (transaction pg c d).0 ≡ returns pg d c
  unfolding transaction returns
  transaction-returns d (reserves saga key sku q build) = ground arith
  transaction-returns d (releases saga id key consumer build) = ground arith
  transaction-returns d (publishes id) = refl
  transaction-returns d (attempts id) = refl
  transaction-returns d (waits n) = refl

  happen-tables : (s : Impl) (e : Event) → (happen pg s e).1.tables ≡ run pg s.tables (reached s e)
  unfolding happen over run reached
  happen-tables s (asks served c) = ground (arith, transaction-step s.tables c)
  happen-tables s (asks lost_before c) = ground arith
  happen-tables s (asks lost_after c) = ground (arith, transaction-step s.tables c)
  happen-tables s loses = refl
  happen-tables s (restarts reachable) = ground arith
  happen-tables s (passes n) = refl

  run-append : (d : State) (cs es : List Call) → run pg d (cs ++ es) ≡ run pg (run pg d cs) es
  unfolding run
  run-append d [] es = refl
  run-append d (c ∷ cs) es = run-append (step pg d c) cs es

  those_returned-append :
      (d : State) (cs es : List Call)
      → those_returned pg d (cs ++ es)
        ≡ those_returned pg d cs ++ those_returned pg (run pg d cs) es
  unfolding run those_returned
  those_returned-append d [] es = refl
  those_returned-append d (c ∷ cs) es = ground (arith, those_returned-append (step pg d c) cs es)

  run_events-tables :
      (s : Impl) (es : List Event)
      → (run_events pg s es).tables ≡ run pg s.tables (committed pg s es)
  unfolding run_events committed run
  run_events-tables s [] = refl
  run_events-tables s (e ∷ es) =
      run_events-tables (happen pg s e).1 es
      ∙ ap (λ d. run pg d (committed pg (happen pg s e).1 es)) (happen-tables s e)
      ∙ sym (run-append s.tables (reached s e) (committed pg (happen pg s e).1 es))

  -- The calls of the event of which the caller sees the return.
  abbrev answered_now : Impl → Event → List Call
  answered_now s e = if succeeded (happen pg s e).0 then calls_of e else []

  answered_now-cases :
      (s : Impl) (e : Event)
      → (answered_now s e ≡ []) ⊎ (answered_now s e ≡ those_returned pg s.tables (reached s e))
  unfolding happen over reached calls_of those_returned
  answered_now-cases s (asks served c) = elim (Bool-cases s.is_open) [
    | inl up ↦ inr (ground (arith, transaction-returns s.tables c))
    | inr down ↦ inl (ground arith)
  ]
  answered_now-cases s (asks lost_before c) = inl (ground arith)
  answered_now-cases s (asks lost_after c) = inl (ground arith)
  answered_now-cases s loses = inl refl
  answered_now-cases s (restarts true) = inl refl
  answered_now-cases s (restarts false) = inl refl
  answered_now-cases s (passes n) = inl refl

  answered_now-Among :
      (s : Impl) (e : Event)
      → All
          (Among (requests (those_returned pg s.tables (reached s e))))
          (requests (answered_now s e))
  answered_now-Among s e = elim (answered_now-cases s e) [
    | inl x ↦ rw x tt
    | inr x ↦ rw x (Among-self (requests (those_returned pg s.tables (reached s e))))
  ]

  answered-append :
      (s : Impl) (e : Event) (es : List Event)
      → answered pg s (e ∷ es) ≡ answered_now s e ++ answered pg (happen pg s e).1 es
  unfolding answered
  answered-append s e es = ground arith

  committed-append :
      (s : Impl) (e : Event) (es : List Event)
      → requests (those_returned pg s.tables (committed pg s (e ∷ es)))
        ≡ requests (those_returned pg s.tables (reached s e))
          ++ requests
              (those_returned pg (happen pg s e).1.tables (committed pg (happen pg s e).1 es))
  unfolding committed
  committed-append s e es =
      rw
        (
          happen-tables s e,
          those_returned-append s.tables (reached s e) (committed pg (happen pg s e).1 es),
        )
        (requests-append (those_returned pg s.tables (reached s e)) _)

  answered-Among :
      (s : Impl) (es : List Event)
      → All
          (Among (requests (those_returned pg s.tables (committed pg s es))))
          (requests (answered pg s es))
  unfolding answered committed those_returned
  answered-Among s [] = tt
  answered-Among s (e ∷ es) =
      let now : List ProcessedMessage = requests (those_returned pg s.tables (reached s e)) in
      let s' : Impl = (happen pg s e).1 in
      let later : List ProcessedMessage =
        requests (those_returned pg s'.tables (committed pg s' es)) in
      rw
        (
          committed-append s e es,
          answered-append s e es,
          requests-append (answered_now s e) (answered pg s' es),
        )
        (All-append _ (requests (answered_now s e)) (requests (answered pg s' es))
          (All-map (λ m. Among-left m.idempotency_key m.consumer now later) _
            (answered_now-Among s e))
          (All-map (λ m. Among-right m.idempotency_key m.consumer now later) _
            (answered-Among s' es)))

  once-Among :
      (cs : List Call) (m : ProcessedMessage)
      → Among (requests cs) m
      → Among (requests (once [] cs)) m
  once-Among cs m h = once-kept m.idempotency_key m.consumer [] cs h

  -- The fault-free history: the calls that the server committed and that do not throw, without those
  -- whose key and consumer were those of an earlier one.
  unfoldable pub fault_free : Impl → List Event → List Call
  unfolding once those_returned committed
  fault_free s es = once [] (those_returned pg s.tables (committed pg s es))

  -- Whatever calls are made and made again, whatever connections are lost, before the server commits or
  -- after, and however often the process is restarted: the tables are those that a history without
  -- faults leaves, in which no two reservations or releases have the same key and consumer, and which
  -- has one for the key and the consumer of each call that returned to its caller.
  pub run_events-once :
      (s : Impl) (es : List Event)
      → let cs : List Call = fault_free s es in
        ((run_events pg s es).tables ≡ run pg s.tables cs)
        × AllDiffer cs
        × All (Among (requests cs)) (requests (answered pg s es))
  unfolding fault_free
  run_events-once s es = (
    run_events-tables s es ∙ run-once [] s.tables (committed pg s es) tt,
    once-AllDiffer [] (those_returned pg s.tables (committed pg s es)),
    All-map (once-Among (those_returned pg s.tables (committed pg s es))) _ (answered-Among s es),
  )
