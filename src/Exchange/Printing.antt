-- ===== src/Exchange/Printing.antt =====
-- core/exchange: the conversions of identifiers and messages to text.
use hft_sys.Common.{ℕ, ◌-◌, ◌^◌, ◌++◌, ◌==◌, if◌then◌else◌, Bool, false}
use hft_sys.Common.Int.{ℤ, pos, negsuc}
use hft_sys.Text.{Text, codes, to_string, to_string_ℤ}
use hft_sys.Exchange.{
  Side, order_id_invalid, ticker_id_invalid, client_id_invalid, qty_invalid, priority_invalid,
}
use hft_sys.Exchange.Messages.{
  RequestType, ClientRequest, GatewayRequest, ResponseType, ClientResponse, GatewayResponse,
  UpdateType, MarketUpdate, PublishedUpdate, accepted, cancelled, filled, cancel_rejected,
}

-- `numericToStr<T>`, where `invalid` is `INVALID_ID<T>`.
unfoldable pub numeric_to_str : ℕ → ℕ → Text
unfolding to_string
numeric_to_str invalid id = if id == invalid then codes "INVALID" else to_string id

unfoldable pub order_id_to_str : ℕ → Text
unfolding numeric_to_str
order_id_to_str = numeric_to_str order_id_invalid

unfoldable pub ticker_id_to_str : ℕ → Text
unfolding numeric_to_str
ticker_id_to_str = numeric_to_str ticker_id_invalid

unfoldable pub client_id_to_str : ℕ → Text
unfolding numeric_to_str
client_id_to_str = numeric_to_str client_id_invalid

unfoldable pub qty_to_str : ℕ → Text
unfolding numeric_to_str
qty_to_str = numeric_to_str qty_invalid

unfoldable pub priority_to_str : ℕ → Text
unfolding numeric_to_str
priority_to_str = numeric_to_str priority_invalid

-- `numericToStr<Price>`: the invalid price is the largest `int64_t`.
abbrev pub is_invalid_price : ℤ → Bool
is_invalid_price (pos n) = n == 2 ^ 63 - 1
is_invalid_price (negsuc n) = false

unfoldable pub price_to_str : ℤ → Text
unfolding to_string_ℤ
price_to_str p = if is_invalid_price p then codes "INVALID" else to_string_ℤ p

unfoldable pub side_to_str : Side → Text
side_to_str Side.buy = codes "BUY"
side_to_str Side.sell = codes "SELL"
side_to_str Side.invalid = codes "INVALID"
side_to_str (Side.other _) = codes "UNKNOWN"

unfoldable pub request_type_to_str : RequestType → Text
request_type_to_str RequestType.new = codes "NEW"
request_type_to_str RequestType.cancel = codes "CANCEL"
request_type_to_str RequestType.invalid = codes "INVALID"
request_type_to_str (RequestType.other _) = codes "UNKNOWN"

unfoldable pub response_type_to_str : ResponseType → Text
response_type_to_str accepted = codes "ACCEPTED"
response_type_to_str cancelled = codes "CANCELLED"
response_type_to_str filled = codes "FILLED"
response_type_to_str cancel_rejected = codes "CANCEL_REJECTED"
response_type_to_str ResponseType.invalid = codes "INVALID"

unfoldable pub update_type_to_str : UpdateType → Text
update_type_to_str UpdateType.clear = codes "CLEAR"
update_type_to_str UpdateType.add = codes "ADD"
update_type_to_str UpdateType.modify = codes "MODIFY"
update_type_to_str UpdateType.cancel = codes "CANCEL"
update_type_to_str UpdateType.trade = codes "TRADE"
update_type_to_str UpdateType.snapshot_start = codes "SNAPSHOT_START"
update_type_to_str UpdateType.snapshot_end = codes "SNAPSHOT_END"
update_type_to_str UpdateType.invalid = codes "INVALID"

-- `OMEClientRequest::toStr`
unfoldable pub request_to_str : ClientRequest → Text
unfolding request_type_to_str client_id_to_str ticker_id_to_str order_id_to_str side_to_str
    price_to_str qty_to_str
request_to_str r =
    codes "<OMEClientRequest> [type: "
    ++ request_type_to_str r.type
    ++ codes ", clientId: "
    ++ client_id_to_str r.client_id
    ++ codes ", tickerId: "
    ++ ticker_id_to_str r.ticker_id
    ++ codes ", orderId: "
    ++ order_id_to_str r.order_id
    ++ codes ", side: "
    ++ side_to_str r.side
    ++ codes ", price: "
    ++ price_to_str r.price
    ++ codes ", qty: "
    ++ qty_to_str r.qty
    ++ codes "]"

-- `OGSClientRequest::toStr`
unfoldable pub gateway_request_to_str : GatewayRequest → Text
unfolding request_to_str
gateway_request_to_str r =
    codes "<OGSClientRequest> [nSeq: "
    ++ to_string r.n_seq
    ++ codes ", omeRequest: "
    ++ request_to_str r.request
    ++ codes "]"

-- `OMEClientResponse::toStr`
unfoldable pub response_to_str : ClientResponse → Text
unfolding response_type_to_str client_id_to_str ticker_id_to_str order_id_to_str side_to_str
    price_to_str qty_to_str
response_to_str r =
    codes "<OMEClientResponse> [type: "
    ++ response_type_to_str r.type
    ++ codes ", client: "
    ++ client_id_to_str r.client_id
    ++ codes ", ticker: "
    ++ ticker_id_to_str r.ticker_id
    ++ codes ", oid_client: "
    ++ order_id_to_str r.client_order_id
    ++ codes ", oid_market: "
    ++ order_id_to_str r.market_order_id
    ++ codes ", side: "
    ++ side_to_str r.side
    ++ codes ", qty_exec: "
    ++ qty_to_str r.qty_exec
    ++ codes ", qty_remain: "
    ++ qty_to_str r.qty_remain
    ++ codes ", price: "
    ++ price_to_str r.price
    ++ codes "]"

-- `OGSClientResponse::toString`
unfoldable pub gateway_response_to_str : GatewayResponse → Text
unfolding response_to_str
gateway_response_to_str r =
    codes "<OGSClientResponse> [n: "
    ++ to_string r.n_seq
    ++ codes ", "
    ++ response_to_str r.response
    ++ codes "]"

-- `OMEMarketUpdate::toStr`
unfoldable pub update_to_str : MarketUpdate → Text
unfolding update_type_to_str ticker_id_to_str order_id_to_str side_to_str price_to_str qty_to_str
    priority_to_str
update_to_str u =
    codes "<OMEMarketUpdate> [type: "
    ++ update_type_to_str u.type
    ++ codes ", ticker: "
    ++ ticker_id_to_str u.ticker_id
    ++ codes ", oid: "
    ++ order_id_to_str u.order_id
    ++ codes ", side: "
    ++ side_to_str u.side
    ++ codes ", qty: "
    ++ qty_to_str u.qty
    ++ codes ", price: "
    ++ price_to_str u.price
    ++ codes ", priority: "
    ++ priority_to_str u.priority
    ++ codes "]"

-- `MDPMarketUpdate::toStr`
unfoldable pub published_update_to_str : PublishedUpdate → Text
unfolding update_to_str
published_update_to_str u =
    codes "<MDPMarketUpdate> [nSeq: "
    ++ to_string u.n_seq
    ++ codes ", "
    ++ update_to_str u.update
    ++ codes "]"
