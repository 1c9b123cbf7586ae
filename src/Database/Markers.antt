-- ===== src/Database/Markers.antt =====
-- A release, as far as it is about errors and dedupe markers.
use choreography_saga_demo.Base.{String, ◌≡◌, true, false, arith}
use choreography_saga_demo.Base.Outcome.{Error, ok, throws}
use choreography_saga_demo.Repository.{ReleaseOutcome, EventBuilder}
use choreography_saga_demo.Database.Tables.{Postgres, State}
use choreography_saga_demo.Database.Sql.{is_processed}
use choreography_saga_demo.Database.{release}
use choreography_saga_demo.Database.ReleaseSteps.{ReleaseStep}

pub ReleaseStep-throws :
    (pg : Postgres) (saga id key consumer : String) (build : EventBuilder ReleaseOutcome)
    (d : State) {r : _} {d' : State} (e : Error)
    → ReleaseStep pg saga id key consumer build d r d'
    → r ≡ throws e
    → d' ≡ d
ReleaseStep-throws pg saga id key consumer build d e (ReleaseStep.failed e' x y) h = y
ReleaseStep-throws pg saga id key consumer build d e (ReleaseStep.repeated a x y) h = y
ReleaseStep-throws pg saga id key consumer build d e (ReleaseStep.nothing u a b c x y) h = cc
ReleaseStep-throws pg saga id key consumer build d e (ReleaseStep.returned u old ob p a b c f g x y)
      h =
    cc

pub ReleaseStep-processed :
    (pg : Postgres) (saga id key consumer : String) (build : EventBuilder ReleaseOutcome)
    (d : State) {r : _} {d' : State} (other : String)
    → ReleaseStep pg saga id key consumer build d r d'
    → is_processed other consumer d.processed_messages ≡ true
    → is_processed other consumer d'.processed_messages ≡ true
ReleaseStep-processed pg saga id key consumer build d other (ReleaseStep.failed e' x y) h = rw y h
ReleaseStep-processed pg saga id key consumer build d other (ReleaseStep.repeated a x y) h = rw y h
ReleaseStep-processed pg saga id key consumer build d other (ReleaseStep.nothing u a b c x y) h =
    rw y (ground arith)
ReleaseStep-processed pg saga id key consumer build d other
      (ReleaseStep.returned u old ob p a b c f g x y) h =
    rw y (ground arith)

pub ReleaseStep-marked :
    (pg : Postgres) (saga id key consumer : String) (build : EventBuilder ReleaseOutcome)
    (d : State) {r : _} {d' : State} (o : ReleaseOutcome)
    → ReleaseStep pg saga id key consumer build d r d'
    → r ≡ ok o
    → is_processed key consumer d'.processed_messages ≡ true
ReleaseStep-marked pg saga id key consumer build d o (ReleaseStep.failed e' x y) h = cc
ReleaseStep-marked pg saga id key consumer build d o (ReleaseStep.repeated a x y) h = rw y a
ReleaseStep-marked pg saga id key consumer build d o (ReleaseStep.nothing u a b c x y) h =
    rw y (ground arith)
ReleaseStep-marked pg saga id key consumer build d o (ReleaseStep.returned u old ob p a b c f g x y)
      h =
    rw y (ground arith)

pub release-processed :
    (pg : Postgres) (saga id key consumer : String) (build : EventBuilder ReleaseOutcome)
    (d : State)
    → is_processed key consumer d.processed_messages ≡ true
    → release pg saga id key consumer build d
      ≡ (ok (record { released = false; duplicate = true }), d)
unfolding release
release-processed pg saga id key consumer build d h = ground arith
