-- ===== src/Tests/Threads.antt =====
-- The relay's thread among others, at a concrete pass.
use choreography_saga_demo.Base.{text_dec, refl, List, [], All}
use choreography_saga_demo.Base.Int.{pos}
use choreography_saga_demo.Outbox.{Message}
use choreography_saga_demo.Relay.Threads.{resting, Threads, Moves, Moves-Reach}
use choreography_saga_demo.Relay.Covered.{IsCovered, IsCanonical}
use choreography_saga_demo.Relay.Safety.{published-IsCovered}
use choreography_saga_demo.Relay.Schedule.{stands, passed, drain_once-Moves}
use choreography_saga_demo.Relay.Progress.{nothing_locked}
use choreography_saga_demo.Tests.Fixtures.{server, server-laws}
use choreography_saga_demo.Tests.Passes.{broker, world, clock}

abbrev started : Threads (List Message)
started = stands server nothing_locked broker clock (pos 100) resting world []

abbrev ended : Threads (List Message)
ended = passed server nothing_locked broker clock (pos 100) world []

drain_once-Moves_example : Moves server broker (pos 100) started ended
drain_once-Moves_example = drain_once-Moves server nothing_locked broker clock (pos 100) world []

ids : All (λ r. IsCanonical server r.id) world.repo.outbox
unfolding text_dec
ids = (refl, (refl, tt))

published-IsCovered_example : All (IsCovered ended.accepted) ended.database.outbox
published-IsCovered_example =
    published-IsCovered server server-laws broker (pos 100) {t = ended} refl (refl, (refl, tt)) ids
      (Moves-Reach server broker (pos 100)
        (drain_once-Moves server nothing_locked broker clock (pos 100) world []))
