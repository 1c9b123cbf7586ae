-- ===== src/Grpc.antt =====
-- services/inventory/include/inventory/grpc_server.hpp and src/grpc_server.cpp: the two handlers
-- over the application, with the messages of proto/inventory/v1/inventory.proto. Spans, log lines
-- and metrics are in Grpc/Handlers.
pub mod Retry
pub mod Handlers
pub mod Served
use choreography_saga_demo.Base.{
  String, text_dec, Bool, List, [], ◌∷◌, ite, if◌then◌else◌, is_empty,
}
use choreography_saga_demo.Base.Int.{ℤ}
use choreography_saga_demo.Base.Outcome.{Outcome, ok, throws, Proc, ◌>>=◌, pure}
use choreography_saga_demo.Domain.{ReserveStatus}
use choreography_saga_demo.Repository.{Repository}
use choreography_saga_demo.Json.{Json}
use choreography_saga_demo.Envelope.{Entropy}
use choreography_saga_demo.App.{ReserveResult, reserve_stock, release_stock}

-- inject_traceparent(): before the handler's span begins, and within the span that continues a trace.
pub record Tracing : Type 0 where
  pub outside : String
  pub within : String → String

pub data ProtoStatus : Type 0 where
  status_unspecified reserved insufficient_stock : ProtoStatus

pub record ReserveStockRequest : Type 0 where
  pub saga_id : String
  pub idempotency_key : String
  pub sku : String
  pub quantity : ℤ

pub record ReserveStockResponse : Type 0 where
  pub status : ProtoStatus
  pub reservation_id : String
  pub message : String

pub record ReleaseStockRequest : Type 0 where
  pub saga_id : String
  pub reservation_id : String
  pub idempotency_key : String

pub record ReleaseStockResponse : Type 0 where
  pub released : Bool

-- The first entry of the metadata of that name, or else the empty text.
abbrev pub metadata_traceparent : List (String × String) → String
metadata_traceparent [] = ""
metadata_traceparent ((key, value) ∷ md) =
    ite (text_dec key "traceparent") value (metadata_traceparent md)

unfoldable pub to_proto : ReserveStatus → ProtoStatus
to_proto ReserveStatus.reserved = ProtoStatus.reserved
to_proto ReserveStatus.insufficient_stock = ProtoStatus.insufficient_stock
to_proto ReserveStatus.unspecified = ProtoStatus.status_unspecified

-- The trace that the handler's span continues.
abbrev pub incoming_traceparent : Tracing → List (String × String) → String
incoming_traceparent tracing md =
    let traceparent : String = metadata_traceparent md in
    if is_empty traceparent then tracing.outside else traceparent

module _ {J S : Type 0} (lib : Json J) (entropy : Entropy) (repo : Repository S) where
  unfoldable pub reserve_stock_rpc :
      Tracing → List (String × String) → ReserveStockRequest → Proc S ReserveStockResponse
  reserve_stock_rpc tracing md request = do
    result ←
        reserve_stock lib entropy repo request.saga_id request.idempotency_key request.sku
          request.quantity (tracing.within (incoming_traceparent tracing md))
    pure (record {
      status = to_proto result.status;
      reservation_id = result.reservation_id;
      message = result.message;
    })

  unfoldable pub release_stock_rpc :
      Tracing → List (String × String) → ReleaseStockRequest → Proc S ReleaseStockResponse
  release_stock_rpc tracing md request = do
    released ←
        release_stock lib entropy repo request.saga_id request.reservation_id
          request.idempotency_key (tracing.within (incoming_traceparent tracing md))
    pure (record { released = released })
