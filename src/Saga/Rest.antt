-- ===== src/Saga/Rest.antt =====
-- The database between the calls of a saga: the relay has sent every row, and takes the next one.
use choreography_saga_demo.Base.{
  ℕ, zero, suc, ◌+◌, ◌*◌, ◌≤◌, String, ◌≡◌, ◌≢◌, refl, sym, ap, ◌∙◌, List, [], ◌∷◌, ◌++◌, map, some,
  arith, All-append, false,
}
use choreography_saga_demo.Base.Int.{ℤ}
use choreography_saga_demo.Outbox.{Record, Insert, Publisher, Message, message_of}
use choreography_saga_demo.Relay.{World, drain_once, relay_rounds}
use choreography_saga_demo.Relay.Rows.{NotIn, UniqueIds}
use choreography_saga_demo.Relay.Send.{settle_published}
use choreography_saga_demo.Relay.Pass.{batch, batch_rows, drain_once-send}
use choreography_saga_demo.Relay.Progress.{
  Accepts, IsReady, nothing_locked, accepted-all, drain_once-progress, relay_rounds-drains,
  update_row-NotIn,
}
use choreography_saga_demo.Relay.Queue.{queue}
use choreography_saga_demo.Relay.Once.{Logs, messages, relay_rounds-once}
use choreography_saga_demo.Database.Tables.{Postgres, PostgresLaws, OutboxRow, State}
use choreography_saga_demo.Database.OutboxSql.{
  new_row, update_row, set_published, count_rows, select_pending, order_by_time,
}
use choreography_saga_demo.Database.{record_of, outbox_repo}

-- No id that is still to be drawn is in the outbox.
abbrev pub Undrawn : Postgres → ℕ → List OutboxRow → Type 0
Undrawn pg drawn rows = (k : ℕ) → drawn ≤ k → NotIn (pg.random_uuid k) rows

-- Row ids are valid and distinct, attempts can be counted, and nothing is pending.
pub record IsResting (pg : Postgres) (d : State) : Type 0 where
  pub ready : IsReady pg d.outbox
  pub undrawn : Undrawn pg d.drawn d.outbox
  pub sent : count_rows d.outbox ≡ 0

settle-NotIn :
    (id : String) (now : ℕ) (recs : List Record) (rows : List OutboxRow)
    → NotIn id rows
    → NotIn id (settle_published now recs rows)
settle-NotIn id now [] rows h = h
settle-NotIn id now (rec ∷ recs) rows h =
    settle-NotIn id now recs (update_row rec.id (set_published now) rows)
      (update_row-NotIn id rec.id now rows h)

-- One row more.
append-NotIn :
    (id : String) (rows : List OutboxRow) (r : OutboxRow)
    → NotIn id rows
    → r.id ≢ id
    → NotIn id (rows ++ r ∷ [])
append-NotIn id [] r h n = (n, tt)
append-NotIn id (x ∷ xs) r h n = (h.0, append-NotIn id xs r h.1 n)

append-UniqueIds :
    (rows : List OutboxRow) (r : OutboxRow)
    → UniqueIds rows
    → NotIn r.id rows
    → UniqueIds (rows ++ r ∷ [])
append-UniqueIds [] r h n = (tt, tt)
append-UniqueIds (x ∷ xs) r h n =
    (append-NotIn x.id xs r h.0 (λ e. n.0 (sym e)), append-UniqueIds xs r h.1 n.1)

module _ (ob : Insert) (payload : String) (now : ℕ) (id : String) where
  select-append :
      (rows : List OutboxRow)
      → count_rows rows ≡ 0
      → select_pending (λ _. false) (rows ++ new_row ob payload now id ∷ [])
        ≡ new_row ob payload now id ∷ []
  select-append [] h = refl
  select-append (r ∷ rs) h = ground (arith, select-append rs)

  -- Nothing else waits for the relay.
  pub queue-append :
      (rows : List OutboxRow)
      → count_rows rows ≡ 0
      → queue (rows ++ new_row ob payload now id ∷ []) ≡ new_row ob payload now id ∷ []
  queue-append rows h = ap order_by_time (select-append rows h)

  count_rows-append :
      (rows : List OutboxRow)
      → count_rows (rows ++ new_row ob payload now id ∷ []) ≡ count_rows rows + 1
  count_rows-append [] = refl
  count_rows-append (r ∷ rs) = ground (arith, count_rows-append rs)

  append-IsReady :
      (pg : Postgres) (rows : List OutboxRow)
      → IsReady pg rows
      → NotIn id rows
      → pg.uuid_cast id ≡ some id
      → IsReady pg (rows ++ new_row ob payload now id ∷ [])
  append-IsReady pg rows h new valid = record {
    unique = append-UniqueIds rows (new_row ob payload now id) h.unique new;
    canonical = All-append _ rows (new_row ob payload now id ∷ []) h.canonical (valid, tt);
    left =
        All-append _ rows (new_row ob payload now id ∷ []) h.left ((omega arith, omega arith), tt);
  }

-- The relay over a publisher that accepts every message and appends it to its log, with no row locked.
module _ {P : Type 0} (pg : Postgres) (publisher : Publisher P) (log : P → List Message)
    (clock : ℕ → ℕ) (size : ℤ) (accepts : Accepts publisher) (logs : Logs publisher log) where
  abbrev pub rounds_of : ℕ → World State P → World State P
  rounds_of n w = relay_rounds (outbox_repo pg nothing_locked) publisher clock size n w

  -- The relay writes the outbox only, and its row ids stay what they are.
  abbrev OnlyOutbox : State → State → Type 0
  OnlyOutbox d d' =
      (d' ≡ record d { outbox = d'.outbox })
      × ((id : String) → NotIn id d.outbox → NotIn id d'.outbox)

  drain_once-OnlyOutbox :
      (w : World State P)
      → IsReady pg w.repo.outbox
      → OnlyOutbox w.repo (drain_once (outbox_repo pg nothing_locked) publisher clock size w).1.repo
  drain_once-OnlyOutbox w h =
      let recs : List Record = map record_of (batch_rows nothing_locked (batch size) w.repo) in
      rw
        (
          drain_once-send pg nothing_locked publisher clock size w h.canonical h.left,
          (accepted-all publisher recs w.publisher accepts).1,
          (accepted-all publisher recs w.publisher accepts).0,
        )
        (refl, λ id n. settle-NotIn id w.repo.now recs w.repo.outbox n)

  relay_rounds-OnlyOutbox :
      (n : ℕ) (w : World State P)
      → IsReady pg w.repo.outbox
      → OnlyOutbox w.repo (rounds_of n w).repo × IsReady pg (rounds_of n w).repo.outbox
  unfolding relay_rounds
  relay_rounds-OnlyOutbox zero w h = ((refl, λ id x. x), h)
  relay_rounds-OnlyOutbox (suc n) w h =
      let w' : World State P =
        (drain_once (outbox_repo pg nothing_locked) publisher clock size w).1 in
      let once : OnlyOutbox w.repo w'.repo = drain_once-OnlyOutbox w h in
      let more : OnlyOutbox w'.repo (rounds_of n w').repo
          × IsReady pg (rounds_of n w').repo.outbox =
        relay_rounds-OnlyOutbox n w' (drain_once-progress pg publisher clock size accepts w h).2 in
      (
        (
          more.0.0 ∙ ap (λ (d : State). record d { outbox = (rounds_of n w').repo.outbox }) once.0,
          λ id x. more.0.1 id (once.1 id x),
        ),
        more.1,
      )

  -- What the relay makes of a state at rest to which one row has been added.
  module _ (laws : PostgresLaws pg) (d : State) (rest : IsResting pg d) (ob : Insert)
      (payload : String) (k : ℕ) (from : d.drawn ≤ k) where
    abbrev pub added : OutboxRow
    added = new_row ob payload d.now (pg.random_uuid k)

    pub sends-added :
        (n : ℕ) (w : World State P)
        → w.repo.outbox ≡ d.outbox ++ added ∷ []
        → suc k ≤ w.repo.drawn
        → 1 ≤ n * batch size
        → IsResting pg (rounds_of n w).repo
          × ((rounds_of n w).repo ≡ record w.repo { outbox = (rounds_of n w).repo.outbox })
          × (log (rounds_of n w).publisher ≡ log w.publisher ++ message_of (record_of added) ∷ [])
    sends-added n w same later enough =
        let ready : IsReady pg w.repo.outbox = rw same (
          append-IsReady ob payload d.now (pg.random_uuid k) pg d.outbox rest.ready
            (rest.undrawn k from) (laws.random_valid k)) in
        let few : count_rows w.repo.outbox ≤ n * batch size =
          rw (same, count_rows-append ob payload d.now (pg.random_uuid k) d.outbox, rest.sent)
            enough in
        let only : OnlyOutbox w.repo (rounds_of n w).repo × IsReady pg (rounds_of n w).repo.outbox =
          relay_rounds-OnlyOutbox n w ready in
        let drawn_same : (rounds_of n w).repo.drawn ≡ w.repo.drawn =
          ap (λ (x : State). x.drawn) only.0.0 in
        (
          record {
            ready = only.1;
            undrawn = λ j le. only.0.1 (pg.random_uuid j) (
                rw same (
                  append-NotIn (pg.random_uuid j) d.outbox added
                    (rest.undrawn j (omega (arith, drawn_same, le, from, later)))
                    (λ e. omega (arith, drawn_same, le, later, laws.random_distinct k j e))));
            sent = relay_rounds-drains pg publisher clock size accepts n w ready few;
          },
          only.0.0,
          relay_rounds-once pg publisher log clock size accepts logs n w ready few
              ∙ ap (λ rows. log w.publisher ++ messages rows)
                  (ap queue same
                    ∙ queue-append ob payload d.now (pg.random_uuid k) d.outbox rest.sent),
        )
