-- ===== src/Gateway/Stream.antt =====
-- The gateway and the byte stream that it reads, in pieces that are received at one time.
use hft_sys.Common.{
  ℕ, zero, suc, ◌+◌, ◌≤◌, ◌<◌, ◌≡◌, refl, sym, ap, ap₂, ◌∙◌, List, ◌++◌, arith, length,
  length-append, length-drop, drop, take, drop-append, take-append, fun_ext, dec_lt, Result, ok,
  fail, ◌>>=◌,
}
use hft_sys.Common.Int.{ℤ}
use hft_sys.TcpSocket.{Socket, keep_inbound}
use hft_sys.Gateway.{Gateway, handle_request, handle_bytes, rx_callback}
use hft_sys.Gateway.Bytes.{field, decode_request, request_size, from_bytes}

field-append :
    (offset width : ℕ) (a b : List ℕ)
    → offset + width ≤ length a
    → field offset width (a ++ b) ≡ field offset width a
unfolding field
field-append offset width a b fits = ap from_bytes (
    ap (take width) (drop-append offset a b (omega arith))
    ∙ take-append width (drop offset a) b (omega (arith, length-drop offset a)))

decode_request-append :
    (a b : List ℕ) → request_size ≤ length a → decode_request (a ++ b) ≡ decode_request a
unfolding decode_request
decode_request-append a b fits =
    rw
      (
        field-append 0 8 a b (omega arith),
        field-append 8 1 a b (omega arith),
        field-append 9 4 a b (omega arith),
        field-append 13 4 a b (omega arith),
        field-append 17 8 a b (omega arith),
        field-append 25 1 a b (omega arith),
        field-append 26 8 a b (omega arith),
        field-append 34 4 a b (omega arith),
      )
      refl

-- The loop behind one request, and where the rest of the bytes is taken up again.
module _ (socket : ℕ) (t_rx : ℤ) where
  abbrev Loop : ℕ → List ℕ → Gateway → Result (Gateway × List ℕ)
  Loop fuel a g = handle_bytes fuel socket t_rx a g

  handle_bytes-short :
      (fuel : ℕ) (a : List ℕ) (g : Gateway)
      → length a < request_size
      → Loop (suc fuel) a g ≡ ok (g, a)
  unfolding handle_bytes
  handle_bytes-short fuel a g short = ground arith

  handle_bytes-long :
      (fuel : ℕ) (a : List ℕ) (g : Gateway)
      → request_size ≤ length a
      → Loop (suc fuel) a g ≡ (
          handle_request socket t_rx (decode_request a) g >>= λ g'.
          Loop fuel (drop request_size a) g')
  unfolding handle_bytes
  handle_bytes-long fuel a g long = ground arith

  -- One more unit of fuel than the bytes are many is enough, and more changes nothing.
  handle_bytes-fuel :
      (fuel more : ℕ) (a : List ℕ) (g : Gateway)
      → length a < fuel
      → length a < more
      → Loop fuel a g ≡ Loop more a g
  handle_bytes-fuel zero more a g h k = absurd (omega arith)
  handle_bytes-fuel (suc fuel) zero a g h k = absurd (omega arith)
  handle_bytes-fuel (suc fuel) (suc more) a g h k = elim (dec_lt (length a) request_size) [
    | yes short ↦ handle_bytes-short fuel a g short ∙ sym (handle_bytes-short more a g short)
    | no long ↦
        handle_bytes-long fuel a g (omega arith)
        ∙ ap (λ k. handle_request socket t_rx (decode_request a) g >>= k)
            (fun_ext λ g'.
              handle_bytes-fuel fuel more (drop request_size a) g'
                (omega (arith, length-drop request_size a))
                (omega (arith, length-drop request_size a)))
        ∙ sym (handle_bytes-long more a g (omega arith))
  ]

  pub >>=-assoc :
      {A B C : Type 0} (m : Result A) (f : A → Result B) (k : B → Result C)
      → ((m >>= f) >>= k) ≡ (m >>= λ a. f a >>= k)
  >>=-assoc (ok a) f k = refl
  >>=-assoc (fail e) f k = refl

  -- The loop with the fuel that `rxCallback` gives it.
  abbrev pub Whole : List ℕ → Gateway → Result (Gateway × List ℕ)
  Whole a g = Loop (suc (length a)) a g

  -- The loop over `a ++ b` does what it does over `a`, and then goes on with what is left of `a`
  -- before `b`.
  handle_bytes-append :
      (fuel more : ℕ) (a b : List ℕ) (g : Gateway)
      → length a < fuel
      → length a + length b < more
      → Loop more (a ++ b) g ≡ (Loop fuel a g >>= λ r. Whole (r.1 ++ b) r.0)
  handle_bytes-append zero more a b g h k = absurd (omega arith)
  handle_bytes-append (suc fuel) zero a b g h k = absurd (omega arith)
  handle_bytes-append (suc fuel) (suc more) a b g h k = elim (dec_lt (length a) request_size) [
    | yes short ↦ rw (handle_bytes-short fuel a g short) (
        handle_bytes-fuel (suc more) (suc (length (a ++ b))) (a ++ b) g
          (omega (arith, length-append a b)) (omega arith))
    | no long ↦
        let here = handle_request socket t_rx (decode_request a) g in
        handle_bytes-long more (a ++ b) g (omega (arith, length-append a b))
        ∙ ap₂ (λ r bytes. handle_request socket t_rx r g >>= λ g'. Loop more bytes g')
            (decode_request-append a b (omega arith)) (drop-append request_size a b (omega arith))
        ∙ ap (λ k. here >>= k)
            (fun_ext λ g'.
              handle_bytes-append fuel more (drop request_size a) b g'
                (omega (arith, length-drop request_size a))
                (omega (arith, length-drop request_size a)))
        ∙ sym
            (>>=-assoc here (λ g'. Loop fuel (drop request_size a) g') (λ r. Whole (r.1 ++ b) r.0))
        ∙ ap (λ m. m >>= λ r. Whole (r.1 ++ b) r.0) (sym (handle_bytes-long fuel a g (omega arith)))
  ]

  -- `rxCallback` is its loop, also where it returns at once.
  pub rx_callback-loop :
      (s : Socket) (g : Gateway)
      → rx_callback socket t_rx s g
        ≡ (Whole s.inbound g >>= λ r. ok (record s { inbound = r.1 }, r.0))
  unfolding rx_callback keep_inbound
  rx_callback-loop s g = elim (dec_lt (length s.inbound) request_size) [
    | yes short ↦ rw (handle_bytes-short (length s.inbound) s.inbound g short) (ground arith)
    | no long ↦ ground arith
  ]

  -- To receive `a`, and `b` behind what the first callback has left, at the same time, is to receive `a ++ b`.
  pub rx_callback-append :
      (a b : List ℕ) (s : Socket) (g : Gateway)
      → rx_callback socket t_rx (record s { inbound = a ++ b }) g ≡ (
          rx_callback socket t_rx (record s { inbound = a }) g >>= λ r.
          rx_callback socket t_rx (record (r.0) { inbound = r.0.inbound ++ b }) r.1)
  rx_callback-append a b s g =
      let left = λ (r : Gateway × List ℕ). record s { inbound = r.1 } in
      let finish = λ (r : Gateway × List ℕ). ok (left r, r.0) in
      let received = λ (r : Gateway × List ℕ). record s { inbound = r.1 ++ b } in
      let next = λ (r : Socket × Gateway).
        rx_callback socket t_rx (record (r.0) { inbound = r.0.inbound ++ b }) r.1 in
      rx_callback-loop (record s { inbound = a ++ b }) g
      ∙ ap (λ m. m >>= finish)
          (handle_bytes-append (suc (length a)) (suc (length (a ++ b))) a b g (omega arith)
            (omega (arith, length-append a b)))
      ∙ >>=-assoc (Whole a g) (λ r. Whole (r.1 ++ b) r.0) finish
      ∙ ap (λ k. Whole a g >>= k) (fun_ext λ r. sym (rx_callback-loop (received r) r.0))
      ∙ sym (>>=-assoc (Whole a g) finish next)
      ∙ ap (λ m. m >>= next) (sym (rx_callback-loop (record s { inbound = a }) g))
