-- ===== src/Gateway/Frames.antt =====
-- The size of what goes over the wire.
use hft_sys.Common.{
  ℕ, ◌*◌, ◌≤◌, ◌≡◌, refl, ap, List, [], ◌∷◌, length, length-append, arith, Option, none, some,
  Bool-cases, ◌==◌, inl, inr,
}
use hft_sys.Exchange.Messages.{ClientResponse}
use hft_sys.Gateway.Bytes.{to_bytes, encode_response}
use hft_sys.Gateway.Sending.{frame, counted, outgoing, share, outgoing-share}

-- `sizeof(size_t) + sizeof(OMEClientResponse)`
abbrev pub frame_size : ℕ
frame_size = 50

pub length-frame : (n : ℕ) (r : ClientResponse) → length (frame n r) ≡ frame_size
unfolding frame to_bytes encode_response
length-frame n r = refl

length-share : (o : Option ℕ) (p : ℕ) (bytes : List ℕ) → length (share o p bytes) ≤ length bytes
length-share none p bytes = omega arith
length-share (some s) p bytes = elim (Bool-cases (p == s)) [
  | inl e ↦ rw (e) (omega arith)
  | inr e ↦ rw (e) (omega arith)
]

-- The responses put at most `frame_size` bytes each into a buffer.
pub length-outgoing :
    (sockets : ℕ → Option ℕ) (seq : ℕ → ℕ) (p : ℕ) (rs : List ClientResponse)
    → length (outgoing sockets seq p rs) ≤ frame_size * length rs
length-outgoing sockets seq p [] = omega arith
length-outgoing sockets seq p (r ∷ rs) = omega (
  arith,
  ap length (outgoing-share sockets seq p r rs),
  length-append (share (sockets r.client_id) p (frame (seq r.client_id) r))
      (outgoing sockets (counted seq r.client_id) p rs),
  length-share (sockets r.client_id) p (frame (seq r.client_id) r),
  length-frame (seq r.client_id) r,
  length-outgoing sockets (counted seq r.client_id) p rs,
)
