-- ===== src/Grpc/Handlers.antt =====
-- services/inventory/src/grpc_server.cpp: the two handlers with their spans, their log lines and the
-- counter of reservations.
use choreography_saga_demo.Base.{ℕ, String, List}
use choreography_saga_demo.Base.Outcome.{Proc, ◌>>=◌, ◌>>◌, pure, modify}
use choreography_saga_demo.Domain.{to_string}
use choreography_saga_demo.Envelope.{Entropy}
use choreography_saga_demo.Obs.Host.{Host, Moment, with_span, count_reserve}
use choreography_saga_demo.App.Logs.{InventoryApp}
use choreography_saga_demo.Grpc.{
  Tracing, ReserveStockRequest, ReserveStockResponse, ReleaseStockRequest, ReleaseStockResponse,
  incoming_traceparent, to_proto,
}

-- `v` is the variable `span` of the call.
module _ {J S R : Type 0} (app : InventoryApp S J R) (entropy : Entropy) (at : Moment) (v : ℕ) where
  unfoldable pub serve_reserve_stock :
      Tracing
      → List (String × String)
      → ReserveStockRequest
      → Proc (Host S J R) ReserveStockResponse
  unfolding to_string
  serve_reserve_stock tracing md request =
      let in_tp : String = incoming_traceparent tracing md in
      with_span v "ReserveStock" in_tp do
        result ←
            app.reserve_stock entropy at request.saga_id request.idempotency_key request.sku
              request.quantity (tracing.within in_tp)
        modify (count_reserve (to_string result.status))
        pure (record {
          status = to_proto result.status;
          reservation_id = result.reservation_id;
          message = result.message;
        })

  unfoldable pub serve_release_stock :
      Tracing
      → List (String × String)
      → ReleaseStockRequest
      → Proc (Host S J R) ReleaseStockResponse
  serve_release_stock tracing md request =
      let in_tp : String = incoming_traceparent tracing md in
      with_span v "ReleaseStock" in_tp do
        released ←
            app.release_stock entropy at request.saga_id request.reservation_id
              request.idempotency_key (tracing.within in_tp)
        pure (record { released = released })

-- The methods of class InventoryServiceImpl; the number is that of the variable `span` of the call.
pub record InventoryServiceImpl (S J R : Type 0) : Type 0 where
  pub reserve_stock :
      Entropy
      → Moment
      → ℕ
      → Tracing
      → List (String × String)
      → ReserveStockRequest
      → Proc (Host S J R) ReserveStockResponse
  pub release_stock :
      Entropy
      → Moment
      → ℕ
      → Tracing
      → List (String × String)
      → ReleaseStockRequest
      → Proc (Host S J R) ReleaseStockResponse

-- InventoryServiceImpl::InventoryServiceImpl.
abbrev pub inventory_service_impl :
    {J S R : Type 0} → InventoryApp S J R → InventoryServiceImpl S J R
inventory_service_impl app = record {
  reserve_stock = λ entropy at v. serve_reserve_stock app entropy at v;
  release_stock = λ entropy at v. serve_release_stock app entropy at v;
}
