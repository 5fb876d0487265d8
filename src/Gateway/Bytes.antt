-- ===== src/Gateway/Bytes.antt =====
-- The packed layouts of `OGSClientRequest` and `OMEClientResponse` (order_server_request.h,
-- order_server_response.h) on a little-endian machine, which reinterpret_cast and memcpy expose.
use hft_sys.Common.{
  ℕ, zero, suc, ◌+◌, ◌-◌, ◌*◌, ◌/◌, ◌%◌, ◌^◌, List, [], ◌∷◌, ◌++◌, ltb, ◌==◌, if◌then◌else◌, take,
  drop,
}
use hft_sys.Common.Int.{ℤ, pos, negsuc, to_u64}
use hft_sys.Exchange.{Side}
use hft_sys.Exchange.Messages.{
  RequestType, GatewayRequest, ResponseType, ClientResponse, accepted, cancelled, filled,
  cancel_rejected,
}

-- The bytes of an unsigned integer of the given width, lowest first.
unfoldable pub to_bytes : ℕ → ℕ → List ℕ
to_bytes zero v = []
to_bytes (suc w) v = v % 256 ∷ to_bytes w (v / 256)

unfoldable pub from_bytes : List ℕ → ℕ
from_bytes [] = 0
from_bytes (b ∷ bs) = b + 256 * from_bytes bs

-- The field of `width` bytes that starts at `offset`.
unfoldable pub field : ℕ → ℕ → List ℕ → ℕ
unfolding from_bytes
field offset width bytes = from_bytes (take width (drop offset bytes))

-- An `int64_t` in two's complement.
unfoldable pub signed_64 : ℕ → ℤ
signed_64 v = if ltb v (2 ^ 63) then pos v else negsuc (2 ^ 64 - 1 - v)

unfoldable pub side_of : ℕ → Side
side_of b =
    if b == 0
    then Side.invalid
    else if b == 1
    then Side.buy
    else if b == 255
    then Side.sell
    else Side.other b

unfoldable pub byte_of_side : Side → ℕ
byte_of_side Side.invalid = 0
byte_of_side Side.buy = 1
byte_of_side Side.sell = 255
byte_of_side (Side.other b) = b

unfoldable pub request_type_of : ℕ → RequestType
request_type_of b =
    if b == 0
    then RequestType.invalid
    else if b == 1
    then RequestType.new
    else if b == 2
    then RequestType.cancel
    else RequestType.other b

-- `sizeof(OGSClientRequest)`
abbrev pub request_size : ℕ
request_size = 38

-- The request in the first `request_size` bytes.
unfoldable pub decode_request : List ℕ → GatewayRequest
unfolding field signed_64 side_of request_type_of
decode_request bytes = record {
  n_seq = field 0 8 bytes;
  request = record {
    type = request_type_of (field 8 1 bytes);
    client_id = field 9 4 bytes;
    ticker_id = field 13 4 bytes;
    order_id = field 17 8 bytes;
    side = side_of (field 25 1 bytes);
    price = signed_64 (field 26 8 bytes);
    qty = field 34 4 bytes;
  };
}

unfoldable pub byte_of_response_type : ResponseType → ℕ
byte_of_response_type ResponseType.invalid = 0
byte_of_response_type accepted = 1
byte_of_response_type cancelled = 2
byte_of_response_type filled = 3
byte_of_response_type cancel_rejected = 4

unfoldable pub encode_response : ClientResponse → List ℕ
unfolding to_bytes byte_of_side byte_of_response_type
encode_response r =
    to_bytes 1 (byte_of_response_type r.type)
    ++ to_bytes 4 r.client_id
    ++ to_bytes 4 r.ticker_id
    ++ to_bytes 8 r.client_order_id
    ++ to_bytes 8 r.market_order_id
    ++ to_bytes 1 (byte_of_side r.side)
    ++ to_bytes 8 (to_u64 r.price)
    ++ to_bytes 4 r.qty_exec
    ++ to_bytes 4 r.qty_remain
