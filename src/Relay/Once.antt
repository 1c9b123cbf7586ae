-- ===== src/Relay/Once.antt =====
-- What the relay sends over many passes, to a publisher that keeps what it is given.
use choreography_saga_demo.Base.{
  ℕ, zero, suc, ◌*◌, ◌≤◌, ◌≡◌, refl, sym, ap, ◌∙◌, List, [], ◌∷◌, ◌++◌, map, arith, length, take,
}
use mathlib.Core.List.{append_assoc, append-nil, map-append}
use choreography_saga_demo.Base.Int.{ℤ}
use choreography_saga_demo.Outbox.{Record, Message, Publisher, message_of}
use choreography_saga_demo.Relay.{World, drain_once, relay_rounds}
use choreography_saga_demo.Relay.Rows.{
  order-UniqueIds, select-UniqueIds, length-order_by_time, length-select_pending,
}
use choreography_saga_demo.Relay.Batch.{rest, take-rest}
use choreography_saga_demo.Relay.Send.{sent_state}
use choreography_saga_demo.Relay.Pass.{batch, batch_rows, drain_once-send}
use choreography_saga_demo.Relay.Progress.{
  Accepts, IsReady, nothing_locked, accepted-all, drain_once-progress,
}
use choreography_saga_demo.Relay.Queue.{queue, queue-batch}
use choreography_saga_demo.Database.Tables.{Postgres, OutboxRow, State}
use choreography_saga_demo.Database.OutboxSql.{count_rows, select_pending}
use choreography_saga_demo.Database.{record_of, outbox_repo}

-- The messages that announce the rows.
abbrev pub messages : List OutboxRow → List Message
messages rows = map message_of (map record_of rows)

messages-append : (xs ys : List OutboxRow) → messages (xs ++ ys) ≡ messages xs ++ messages ys
messages-append xs ys =
    ap (map message_of) (map-append record_of xs ys)
    ∙ map-append message_of (map record_of xs) (map record_of ys)

-- The publisher's log, which every accepted message is appended to.
abbrev pub Logs : {P : Type 0} → Publisher P → (P → List Message) → Type 0
Logs {P} publisher log = (m : Message) (p : P) → log (publisher.publish m p).1 ≡ log p ++ m ∷ []

module _ {P : Type 0} (pg : Postgres) (publisher : Publisher P) (log : P → List Message)
    (clock : ℕ → ℕ) (size : ℤ) (accepts : Accepts publisher) (logs : Logs publisher log) where
  log-sent_state :
      (recs : List Record) (p : P)
      → log (sent_state publisher recs p) ≡ log p ++ map message_of recs
  log-sent_state [] p = sym (append-nil (log p))
  log-sent_state (rec ∷ recs) p =
      let p' : P = (publisher.publish (message_of rec) p).1 in
      ground (
        arith,
        accepts (message_of rec) p,
        log-sent_state recs p',
        logs (message_of rec) p,
        append_assoc (log p) (message_of rec ∷ []) (map message_of recs),
      )

  -- A pass sends the first batch of the queue, and leaves the others in the queue.
  drain_once-queue :
      (w : World State P)
      → IsReady pg w.repo.outbox
      → let (_, w') = drain_once (outbox_repo pg nothing_locked) publisher clock size w in
        (log w'.publisher ≡ log w.publisher ++ messages (take (batch size) (queue w.repo.outbox)))
        × (queue w'.repo.outbox ≡ rest (batch size) (queue w.repo.outbox))
  drain_once-queue w h =
      let recs : List Record = map record_of (batch_rows nothing_locked (batch size) w.repo) in
      rw
        (
          drain_once-send pg nothing_locked publisher clock size w h.canonical h.left,
          (accepted-all publisher recs w.publisher accepts).1,
          (accepted-all publisher recs w.publisher accepts).0,
        )
        (
          log-sent_state recs w.publisher,
          queue-batch w.repo.now (batch size) w.repo.outbox (
              order-UniqueIds (select_pending nothing_locked w.repo.outbox)
                (select-UniqueIds nothing_locked w.repo.outbox h.unique)),
        )

  length-queue : (rows : List OutboxRow) → length (queue rows) ≡ count_rows rows
  length-queue rows =
      length-order_by_time (select_pending nothing_locked rows) ∙ length-select_pending rows

  queue-none : (rows : List OutboxRow) → count_rows rows ≡ 0 → queue rows ≡ []
  queue-none rows h = no_rows (queue rows) (length-queue rows ∙ h)
    where
      no_rows : (xs : List OutboxRow) → length xs ≡ 0 → xs ≡ []
      no_rows [] e = refl
      no_rows (x ∷ xs) e = absurd (omega (arith, e))

  -- With a publisher that accepts every message and appends it to its log, and no row locked, the
  -- passes of the relay over an outbox that is ready (row ids are valid and distinct, and attempts can
  -- be counted) send each pending row exactly once, oldest first: after as many rounds as there are
  -- batches of pending rows, or more, the log has grown by the messages of the pending rows in the
  -- order of their creation, and by nothing else.
  pub relay_rounds-once :
      (rounds : ℕ) (w : World State P)
      → IsReady pg w.repo.outbox
      → count_rows w.repo.outbox ≤ rounds * batch size
      → log (relay_rounds (outbox_repo pg nothing_locked) publisher clock size rounds w).publisher
        ≡ log w.publisher ++ messages (queue w.repo.outbox)
  unfolding relay_rounds
  relay_rounds-once zero w h enough =
      sym (append-nil (log w.publisher))
      ∙ ap (λ q. log w.publisher ++ messages q)
          (sym (queue-none w.repo.outbox (omega (arith, enough))))
  relay_rounds-once (suc rounds) w h enough =
      let w' : World State P =
        (drain_once (outbox_repo pg nothing_locked) publisher clock size w).1 in
      let progress = drain_once-progress pg publisher clock size accepts w h in
      let (sent, left) = drain_once-queue w h in
      let now : List OutboxRow = take (batch size) (queue w.repo.outbox) in
      let later : List OutboxRow = rest (batch size) (queue w.repo.outbox) in
      relay_rounds-once rounds w' progress.2 (omega (arith, progress.1, enough))
      ∙ (λ i. sent i ++ messages (left i))
      ∙ append_assoc (log w.publisher) (messages now) (messages later)
      ∙ ap (λ ms. log w.publisher ++ ms)
          (sym (messages-append now later)
            ∙ ap messages (take-rest (batch size) (queue w.repo.outbox)))
