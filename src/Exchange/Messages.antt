-- ===== src/Exchange/Messages.antt =====
-- The messages of market_data.h, order_server_request.h and order_server_response.h.
use hft_sys.Common.{ℕ}
use hft_sys.Common.Int.{ℤ}
use hft_sys.Exchange.{Side}

-- `OMEClientRequest::Type`; a byte off the network may be none of the three.
pub data RequestType : Type 0 where
  invalid new cancel : RequestType
  other : ℕ → RequestType

pub record ClientRequest : Type 0 where
  pub type : RequestType
  pub client_id : ℕ
  pub ticker_id : ℕ
  pub order_id : ℕ
  pub side : Side
  pub price : ℤ
  pub qty : ℕ

-- `OGSClientRequest`
pub record GatewayRequest : Type 0 where
  pub n_seq : ℕ
  pub request : ClientRequest

pub data ResponseType : Type 0 where
  invalid accepted cancelled filled cancel_rejected : ResponseType

pub record ClientResponse : Type 0 where
  pub type : ResponseType
  pub client_id : ℕ
  pub ticker_id : ℕ
  pub client_order_id : ℕ
  pub market_order_id : ℕ
  pub side : Side
  pub price : ℤ
  pub qty_exec : ℕ
  pub qty_remain : ℕ

-- `OGSClientResponse`
pub record GatewayResponse : Type 0 where
  pub n_seq : ℕ
  pub response : ClientResponse

pub data UpdateType : Type 0 where
  invalid clear add modify cancel trade snapshot_start snapshot_end : UpdateType

pub record MarketUpdate : Type 0 where
  pub type : UpdateType
  pub order_id : ℕ
  pub ticker_id : ℕ
  pub side : Side
  pub price : ℤ
  pub qty : ℕ
  pub priority : ℕ

-- `MDPMarketUpdate`
pub record PublishedUpdate : Type 0 where
  pub n_seq : ℕ
  pub update : MarketUpdate

-- What an order book hands to its matching engine.
pub data Message : Type 0 where
  response : ClientResponse → Message
  update : MarketUpdate → Message
