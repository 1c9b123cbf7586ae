-- ===== src/Tests/Delivery.antt =====
-- A client of Kafka that delivers at once, and the relay's theorem on deliveries at a concrete pass.
use choreography_saga_demo.Base.{
  text_dec, ◌≡◌, refl, ◌⊎◌, inl, inr, none, List, [], ◌∷◌, ◌++◌, All, arith,
}
use choreography_saga_demo.Base.Int.{pos}
use choreography_saga_demo.Relay.{World}
use choreography_saga_demo.Relay.Threads.{resting, Threads, Moves-Reach}
use choreography_saga_demo.Relay.Covered.{IsCanonical}
use choreography_saga_demo.Relay.Kept.{Keeps}
use choreography_saga_demo.Relay.Own.{published-Keeps}
use choreography_saga_demo.Relay.Schedule.{stands, passed, drain_once-Moves}
use choreography_saga_demo.Relay.Progress.{nothing_locked}
use choreography_saga_demo.Database.Tables.{State}
use choreography_saga_demo.Database.OutboxSql.{new_row}
use choreography_saga_demo.Database.{record_of}
use choreography_saga_demo.Outbox.{Record, message_of}
use choreography_saga_demo.Kafka.Producer.{RdKafka, producer}
use choreography_saga_demo.Kafka.Delivery.{Wire, wire_of, RdKafkaLaws}
use choreography_saga_demo.Tests.Fixtures.{server, server-laws, seed, event}
use choreography_saga_demo.Tests.Passes.{clock}

abbrev prompt : RdKafka (List Wire)
prompt = record {
  produce = λ topic payload key headers k.
      (none, k ++ record { topic = topic; payload = payload; key = key; headers = headers } ∷ []);
  flush = λ n k. k;
  outq_len = λ k. 0;
}

abbrev In : List Wire → Wire → Type 0
In [] w = ⊥
In (x ∷ xs) w = (x ≡ w) ⊎ In xs w

In-keeps : (xs : List Wire) (x w : Wire) → In xs w → In (xs ++ x ∷ []) w
In-keeps [] x w h = absurd h
In-keeps (y ∷ xs) x w (inl e) = inl e
In-keeps (y ∷ xs) x w (inr h) = inr (In-keeps xs x w h)

In-last : (xs : List Wire) (x : Wire) → In (xs ++ x ∷ []) x
In-last [] x = inl refl
In-last (y ∷ xs) x = inr (In-last xs x)

prompt-laws : RdKafkaLaws prompt In In
prompt-laws = record {
  produce_takes = λ topic payload key headers k e. In-last k _;
  produce_keeps = λ topic payload key headers k w h. In-keeps k _ w h;
  flush_takes = λ n k w h. h;
  flush_keeps = λ n k w h. h;
  empty_queue = λ k w e h. h;
}

-- One row, with the first id drawn.
abbrev one_pending : State
one_pending = record seed {
  outbox = new_row (event "inventory.reserved") "{}" 20 "u" ∷ [];
  drawn = 1;
}

abbrev over_kafka : World State (List Wire)
over_kafka = record { repo = one_pending; publisher = []; lags = [] }

abbrev started : Threads (List Wire)
started = stands server nothing_locked (producer prompt) clock (pos 100) resting over_kafka []

abbrev ended : Threads (List Wire)
ended = passed server nothing_locked (producer prompt) clock (pos 100) over_kafka []

ids : All (λ r. IsCanonical server r.id) one_pending.outbox
unfolding text_dec
ids = (refl, tt)

abbrev its_record : Record
its_record = record_of (new_row (event "inventory.reserved") "{}" 20 "u")

published-Keeps_example :
    All
      (Keeps "u" its_record (In ended.publisher (wire_of (message_of its_record))))
      ended.database.outbox
published-Keeps_example =
    published-Keeps prompt In In prompt-laws server server-laws (pos 100) 0 its_record {s = started}
      {t = ended} refl (refl, tt) ids (omega arith) (λ q. refl, tt)
      (Moves-Reach server (producer prompt) (pos 100)
        (drain_once-Moves server nothing_locked (producer prompt) clock (pos 100) over_kafka []))
