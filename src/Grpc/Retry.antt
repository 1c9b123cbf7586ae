-- ===== src/Grpc/Retry.antt =====
-- ReserveStock calls that a client sends again.
use choreography_saga_demo.Base.{String, ◌≡◌, inl, inr, List, some, arith}
use choreography_saga_demo.Base.Outcome.{ok, Outcome-cases}
use choreography_saga_demo.Json.{Json}
use choreography_saga_demo.Envelope.{Entropy}
use choreography_saga_demo.Database.Tables.{Postgres, PostgresLaws, State}
use choreography_saga_demo.Database.Validity.{RepeatsOrNew}
use choreography_saga_demo.Database.{repository}
use choreography_saga_demo.App.{reserve_stock}
use choreography_saga_demo.App.Service.{repeated, reserve_stock-retry}
use choreography_saga_demo.Grpc.{
  Tracing, ReserveStockRequest, ReserveStockResponse, incoming_traceparent, to_proto,
  reserve_stock_rpc,
}

module _ {J : Type 0} (lib : Json J) (pg : Postgres) (laws : PostgresLaws pg)
    (entropy entropy' : Entropy) (tracing tracing' : Tracing) (md md' : List (String × String))
    (request : ReserveStockRequest) (u : String) (d : State)
    (cast : pg.uuid_cast request.saga_id ≡ some u)
    (new : RepeatsOrNew pg request.saga_id request.idempotency_key d) where
  abbrev trace : String
  trace = tracing.within (incoming_traceparent tracing md)

  abbrev trace' : String
  trace' = tracing'.within (incoming_traceparent tracing' md')

  -- The saga id of a ReserveStock request is a text that PostgreSQL reads as a UUID, and its key is
  -- processed already or the saga has no reservation yet. Then once the request has got a response,
  -- the same request sent again, with whatever metadata, is answered with the same status and
  -- reservation id, and changes nothing.
  pub reserve_stock_rpc-retry :
      (response : ReserveStockResponse) (d' : State)
      → reserve_stock_rpc lib entropy (repository pg) tracing md request d ≡ (ok response, d')
      → (again : ReserveStockResponse) × (reserve_stock_rpc lib entropy'
            (repository pg)
            tracing'
            md'
            request
            d'
          ≡ (ok again, d'))
        × (again.status ≡ response.status)
        × (again.reservation_id ≡ response.reservation_id)
  unfolding reserve_stock_rpc
  reserve_stock_rpc-retry response d' h =
      elim (Outcome-cases
        (reserve_stock lib entropy (repository pg) request.saga_id request.idempotency_key
          request.sku request.quantity trace d).0) [
            | inl (e, x) ↦ absurd (ground (arith, x))
            | inr (res, x) ↦ (
              record {
                status = to_proto res.status;
                reservation_id = res.reservation_id;
                message = (repeated res).message;
              },
              ground (
                arith,
                x,
                reserve_stock-retry lib entropy pg laws entropy' request.saga_id
                    request.idempotency_key request.sku u request.quantity trace trace' d res d'
                    cast new,
              ),
              ground (arith, x),
              ground (arith, x),
            )
          ]
