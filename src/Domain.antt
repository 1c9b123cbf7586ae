-- ===== src/Domain.antt =====
-- services/inventory/include/inventory/domain.hpp: the statuses and the poison SKU.
use choreography_saga_demo.Base.{String, text_dec, Bool, true, false, ite}

abbrev pub poison_sku : String
poison_sku = "SKU-DEADBEEF"

pub data ReserveStatus : Type 0 where
  unspecified reserved insufficient_stock : ReserveStatus

pub data ReservationState : Type 0 where
  reserved released : ReservationState

unfoldable pub is_poison_sku : String → Bool
is_poison_sku sku = ite (text_dec sku poison_sku) true false

unfoldable pub to_string : ReserveStatus → String
to_string ReserveStatus.reserved = "RESERVED"
to_string ReserveStatus.insufficient_stock = "INSUFFICIENT_STOCK"
to_string ReserveStatus.unspecified = "STATUS_UNSPECIFIED"
