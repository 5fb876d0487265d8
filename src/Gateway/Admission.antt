-- ===== src/Gateway/Admission.antt =====
-- Which requests the gateway passes on, and what becomes of its tables.
use hft_sys.Common.{
  ==_self, ne→==, ◌&&◌, ℕ_discrete, update_self, update_ne, ℕ, zero, suc, ◌+◌, ◌%◌, ◌^◌, ◌<◌, ◌≡◌,
  refl, sym, ap, ◌∙◌, subst, inl, inr, Bool, true, false, Option, none, some, List, [], ◌∷◌, ◌++◌,
  append_assoc, append-nil, arith, ltb, ◌==◌, if◌then◌else◌, add_size, update, length, leb, drop,
  length-drop, Result, ok, fail, undefined, out_of_fuel, ◌≢◌, ◌>>=◌, Bool-cases,
}
use hft_sys.Common.Int.{ℤ}
use hft_sys.Exchange.{max_n_clients, max_pending_order_requests}
use hft_sys.Exchange.Messages.{GatewayRequest}
use hft_sys.Sequencer.{Pending, Sequencer, push_client_request}
use hft_sys.TcpSocket.{Socket}
use hft_sys.Gateway.{Gateway, bind_client, handle_request, handle_bytes, rx_callback}
use hft_sys.Gateway.Stream.{rx_callback-loop}
use hft_sys.Gateway.Bytes.{request_size, decode_request}

-- How many of the requests are the client's.
abbrev pub requests_of : ℕ → List Pending → ℕ
requests_of c [] = 0
requests_of c (p ∷ ps) = (if p.request.client_id == c then 1 else 0) + requests_of c ps

requests_of-append :
    (c : ℕ) (ps qs : List Pending) → requests_of c (ps ++ qs) ≡ requests_of c ps + requests_of c qs
requests_of-append c [] qs = omega arith
requests_of-append c (p ∷ ps) qs = omega (arith, requests_of-append c ps qs)

-- Whether requests of a client that is bound as `bound` are taken from the socket.
unfoldable pub owns : ℕ → Option ℕ → Bool
owns socket none = true
owns socket (some bound) = bound == socket

-- What is queued of a request that comes at `t`.
abbrev pub stamped : ℤ → GatewayRequest → Pending
stamped t r = record { t_rx = t; request = r.request }

-- Of the requests of a stream those of the client `c` that carry its next number, which is `n` at first, if
-- requests of the client are taken at all.
unfoldable pub in_turn : ℤ → ℕ → Bool → ℕ → List GatewayRequest → List Pending
in_turn t c takes n [] = []
in_turn t c takes n (r ∷ rs) =
    let rest = in_turn t c takes n rs in
    let after = in_turn t c takes (add_size n 1) rs in
    if (r.request.client_id == c) && (takes && (r.n_seq == n)) then stamped t r ∷ after else rest

-- The requests of the client among those that are queued.
unfoldable pub of_client : ℕ → List Pending → List Pending
of_client c [] = []
of_client c (p ∷ ps) =
    let rest = of_client c ps in if p.request.client_id == c then p ∷ rest else rest

of_client-append :
    (c : ℕ) (ps qs : List Pending) → of_client c (ps ++ qs) ≡ of_client c ps ++ of_client c qs
unfolding of_client
of_client-append c [] qs = refl
of_client-append c (p ∷ ps) qs = elim (Bool-cases (p.request.client_id == c)) [
  | inl e ↦ rw (e) (ap (λ xs. p ∷ xs) (of_client-append c ps qs))
  | inr e ↦ rw (e) (of_client-append c ps qs)
]

-- The requests that a byte stream begins with; one more round than there are bytes is enough.
unfoldable pub requests_in : ℕ → List ℕ → List GatewayRequest
requests_in zero bytes = []
requests_in (suc fuel) bytes =
    let rest = requests_in fuel (drop request_size bytes) in
    if leb request_size (length bytes) then decode_request bytes ∷ rest else []

module _ (socket : ℕ) (t : ℤ) where
  -- From `g` to `g'` the requests `rs` came in at the socket.
  record Advances (rs : List GatewayRequest) (g g' : Gateway) : Type 0 where
    added : List Pending
    queued : g'.fifo.pending ≡ g.fifo.pending ++ added
    numbered :
        (c : ℕ) → g.rx_seq c < 2 ^ 64 → g'.rx_seq c ≡ (g.rx_seq c + requests_of c added) % 2 ^ 64
    bound : (c s : ℕ) → g.sockets c ≡ some s → g'.sockets c ≡ some s
    owned : (c : ℕ) → owns socket (g'.sockets c) ≡ owns socket (g.sockets c)
    taken :
        (c : ℕ) (more : List GatewayRequest)
        → of_client c added ++ in_turn t c (owns socket (g.sockets c)) (g'.rx_seq c) more
          ≡ in_turn t c (owns socket (g.sockets c)) (g.rx_seq c) (rs ++ more)

  Advances-refl : (g : Gateway) → Advances [] g g
  unfolding of_client
  Advances-refl g = record {
    added = [];
    queued = sym (append-nil g.fifo.pending);
    numbered = λ c h. omega arith;
    bound = λ c s h. h;
    owned = λ c. refl;
    taken = λ c more. refl;
  }

  Advances-trans :
      {rs rs' : List GatewayRequest} {g h k : Gateway}
      → Advances rs g h
      → Advances rs' h k
      → Advances (rs ++ rs') g k
  Advances-trans {rs} {rs'} {g} {h} {k} a b = record {
    added = a.added ++ b.added;
    queued =
        b.queued ∙ ap (λ ps. ps ++ b.added) a.queued ∙ append_assoc g.fifo.pending a.added b.added;
    numbered = λ c small. omega (
      arith,
      a.numbered c small,
      b.numbered c (omega (arith, a.numbered c small)),
      requests_of-append c a.added b.added,
    );
    bound = λ c s e. b.bound c s (a.bound c s e);
    owned = λ c. b.owned c ∙ a.owned c;
    taken = λ c more.
        let then_b =
          subst
            (λ o.
              of_client c b.added ++ in_turn t c o (k.rx_seq c) more
              ≡ in_turn t c o (h.rx_seq c) (rs' ++ more))
            (a.owned c) (b.taken c more) in
        ap (λ ps. ps ++ in_turn t c (owns socket (g.sockets c)) (k.rx_seq c) more)
          (of_client-append c a.added b.added)
        ∙ append_assoc (of_client c a.added) (of_client c b.added) _
        ∙ ap (λ ps. of_client c a.added ++ ps) then_b
        ∙ a.taken c (rs' ++ more)
        ∙ ap (in_turn t c (owns socket (g.sockets c)) (g.rx_seq c))
            (sym (append_assoc rs rs' more));
  }

-- A run that returns meets the postcondition, and none fails for want of fuel.
abbrev pub Meets {ℓ} : {A : Type ℓ} → (A → Type 0) → Result A → Type 0
Meets P (ok a) = P a
Meets P (fail e) = e ≢ out_of_fuel

Meets-bind {ℓ κ} :
    {A : Type ℓ} {B : Type κ} (P : A → Type 0) (Q : B → Type 0) (m : Result A) (f : A → Result B)
    → Meets P m
    → ((a : A) → P a → Meets Q (f a))
    → Meets Q (m >>= f)
Meets-bind P Q (ok a) f h k = k a h
Meets-bind P Q (fail e) f h k = h

push-Meets :
    (r : _) (t : ℤ) (s : Sequencer)
    → Meets
        (λ s'. s'.pending ≡ s.pending ++ record { t_rx = t; request = r } ∷ [])
        (push_client_request r t s)
unfolding push_client_request
push-Meets r t s = elim (Bool-cases (leb max_pending_order_requests (length s.pending))) [
  | inl e ↦ rw (e) (λ h. cc)
  | inr e ↦ rw (e) refl
]

kept_binding :
    (g : Gateway) (client socket c s : ℕ)
    → g.sockets c ≡ some s
    → g.sockets client ≡ none
    → update g.sockets client (some socket) c ≡ some s
kept_binding g client socket c s h e = grind arith

next_number :
    (f : ℕ → ℕ) (client c : ℕ)
    → f c < 2 ^ 64
    → update f client (add_size (f client) 1) c
      ≡ (f c + ((if client == c then 1 else 0) + 0)) % 2 ^ 64
next_number f client c h = grind arith

module _ (socket : ℕ) (t : ℤ) where
  bind_client-Advances :
      (client : ℕ) (g : Gateway)
      → Advances socket t [] g (bind_client socket client g).0
        × ((bind_client socket client g).1 == socket
            ≡ owns socket ((bind_client socket client g).0.sockets client))
  unfolding bind_client owns of_client
  bind_client-Advances client g = go (g.sockets client) refl
    where
      fresh_owner :
          (c : ℕ)
          → g.sockets client ≡ none
          → owns socket (update g.sockets client (some socket) c) ≡ owns socket (g.sockets c)
      fresh_owner c e = elim (ℕ_discrete c client) [
        | yes here ↦ rw (here, update_self g.sockets client (some socket), e) (ground arith)
        | no away ↦ ap (owns socket) (update_ne g.sockets client (some socket) c away)
      ]

      go :
          (o : Option ℕ)
          → g.sockets client ≡ o
          → Advances socket t [] g
              (elim o as (λ _. Gateway × ℕ) [
                | none ↦ (record g { sockets = update g.sockets client (some socket) }, socket)
                | some bound ↦ (g, bound)
              ]).0
            × ((elim o as (λ _. Gateway × ℕ) [
              | none ↦ (record g { sockets = update g.sockets client (some socket) }, socket)
              | some bound ↦ (g, bound)
            ]).1
                  == socket
                ≡ owns socket (
                    (elim o as (λ _. Gateway × ℕ) [
                      | none ↦
                          (record g { sockets = update g.sockets client (some socket) }, socket)
                      | some bound ↦ (g, bound)
                    ]).0.sockets
                      client))
      go (some s) e = (Advances-refl socket t g, rw (e) refl)
      go none e = (
        record {
          added = [];
          queued = sym (append-nil g.fifo.pending);
          numbered = λ c h. omega arith;
          bound = λ c s h. kept_binding g client socket c s h e;
          owned = λ c. fresh_owner c e;
          taken = λ c more. refl;
        },
        rw (update_self g.sockets client (some socket)) refl,
      )

  -- A request that is not passed on.
  refuse-Advances :
      (r : GatewayRequest) (g : Gateway)
      → owns socket (g.sockets r.request.client_id) && (r.n_seq == g.rx_seq r.request.client_id)
        ≡ false
      → Advances socket t (r ∷ []) g g
  unfolding of_client in_turn
  refuse-Advances r g refused = record {
    added = [];
    queued = sym (append-nil g.fifo.pending);
    numbered = λ c h. omega arith;
    bound = λ c s h. h;
    owned = λ c. refl;
    taken = λ c more. rw (skipped c) refl;
  }
    where
      skipped :
          (c : ℕ)
          → (r.request.client_id == c) && (owns socket (g.sockets c) && (r.n_seq == g.rx_seq c))
            ≡ false
      skipped c = elim (ℕ_discrete r.request.client_id c) [
        | yes here ↦
            subst
              (λ x.
                (r.request.client_id == x) && (owns socket (g.sockets x) && (r.n_seq == g.rx_seq x))
                ≡ false)
              here (ground (arith, refused))
        | no away ↦ ground arith
      ]

  -- A request that is passed on: it is queued, and the client's next number goes up by one.
  accept-Advances :
      (r : GatewayRequest) (g : Gateway) (fifo : Sequencer)
      → owns socket (g.sockets r.request.client_id) ≡ true
      → (r.n_seq == g.rx_seq r.request.client_id) ≡ true
      → fifo.pending ≡ g.fifo.pending ++ stamped t r ∷ []
      → Advances socket t (r ∷ []) g (record g {
        rx_seq = update g.rx_seq r.request.client_id (add_size (g.rx_seq r.request.client_id) 1);
        fifo = fifo;
      })
  unfolding of_client in_turn
  accept-Advances r g fifo mine next q = record {
    added = stamped t r ∷ [];
    queued = q;
    numbered = λ c h. next_number g.rx_seq r.request.client_id c h;
    bound = λ c s h. h;
    owned = λ c. refl;
    taken = λ c more. elim (ℕ_discrete r.request.client_id c) [
      | yes here ↦
          subst
            (λ x.
              of_client x (stamped t r ∷ [])
                ++ in_turn t x (owns socket (g.sockets x))
                    (update g.rx_seq r.request.client_id (add_size (g.rx_seq r.request.client_id) 1)
                      x)
                    more
              ≡ in_turn t x (owns socket (g.sockets x)) (g.rx_seq x) (r ∷ more))
            here
            (rw
              (
                update_self g.rx_seq r.request.client_id
                    (add_size (g.rx_seq r.request.client_id) 1),
                mine,
                next,
                ==_self r.request.client_id,
              )
              (ap
                (λ o.
                  stamped t r
                  ∷ in_turn t r.request.client_id o (add_size (g.rx_seq r.request.client_id) 1)
                      more)
                (sym mine)))
      | no away ↦
          rw
            (
              update_ne g.rx_seq r.request.client_id (add_size (g.rx_seq r.request.client_id) 1) c
                  (λ e. away (sym e)),
              ne→== r.request.client_id c away,
            )
            refl
    ];
  }

  handle_request-Advances :
      (r : GatewayRequest) (g : Gateway)
      → Meets (Advances socket t (r ∷ []) g) (handle_request socket t r g)
  unfolding handle_request
  handle_request-Advances r g =
      let (binds, same_test) = bind_client-Advances client g in
      go binds (ltb client max_n_clients) (bound.1 == socket) (r.n_seq == bound.0.rx_seq client)
        (sym same_test) refl
    where
      client : ℕ
      client = r.request.client_id

      bound : Gateway × ℕ
      bound = bind_client socket client g

      go :
          Advances socket t [] g bound.0
          → (in_range same next : Bool) → owns socket (bound.0.sockets client) ≡ same
          → (r.n_seq == bound.0.rx_seq client) ≡ next
          → Meets (Advances socket t (r ∷ []) g) (
              if in_range
              then (if same
                  then (if next
                      then (push_client_request r.request t bound.0.fifo >>= λ fifo.
                          ok (record (bound.0) {
                            rx_seq =
                                update bound.0.rx_seq client (add_size (bound.0.rx_seq client) 1);
                            fifo = fifo;
                          }))
                      else ok bound.0)
                  else ok bound.0)
              else fail undefined)
      go binds false same next e e' = λ h. cc
      go binds true false next e e' =
          Advances-trans socket t binds (refuse-Advances r bound.0 (ground (arith, e)))
      go binds true true false e e' =
          Advances-trans socket t binds (refuse-Advances r bound.0 (ground (arith, e, e')))
      go binds true true true e e' =
          Meets-bind _ (Advances socket t (r ∷ []) g) (push_client_request r.request t bound.0.fifo)
            _ (push-Meets r.request t bound.0.fifo)
            λ fifo q. Advances-trans socket t binds (accept-Advances r bound.0 fifo e e' q)

  -- Between the loop's calls: what is left is shorter than a request.
  abbrev Drained : List GatewayRequest → Gateway → Gateway × List ℕ → Type 0
  Drained rs g r = Advances socket t rs g r.0 × (length r.1 < request_size)

  Drained-after :
      (r : GatewayRequest) (rs : List GatewayRequest) (g g' : Gateway)
      (m : Result (Gateway × List ℕ))
      → Advances socket t (r ∷ []) g g'
      → Meets (Drained rs g') m
      → Meets (Drained (r ∷ rs) g) m
  Drained-after r rs g g' (ok x) a h = (Advances-trans socket t a h.0, h.1)
  Drained-after r rs g g' (fail e) a h = h

  handle_bytes-Advances :
      (fuel : ℕ) (bytes : List ℕ) (g : Gateway)
      → length bytes < fuel
      → Meets (Drained (requests_in fuel bytes) g) (handle_bytes fuel socket t bytes g)
  unfolding handle_bytes requests_in
  handle_bytes-Advances zero bytes g enough = absurd (omega arith)
  handle_bytes-Advances (suc fuel) bytes g enough =
      elim (Bool-cases (leb request_size (length bytes))) [
        | inr e ↦ rw (e) (Advances-refl socket t g, ground arith)
        | inl e ↦ rw (e) (
            Meets-bind (Advances socket t (decode_request bytes ∷ []) g)
              (Drained (decode_request bytes ∷ requests_in fuel (drop request_size bytes)) g)
              (handle_request socket t (decode_request bytes) g) _
              (handle_request-Advances (decode_request bytes) g)
              λ g' a.
                Drained-after (decode_request bytes) (requests_in fuel (drop request_size bytes)) g
                  g' _ a
                  (handle_bytes-Advances fuel (drop request_size bytes) g'
                    (shorter bytes fuel e enough)))
      ]
    where
      shorter :
          (bytes : List ℕ) (fuel : ℕ)
          → leb request_size (length bytes) ≡ true
          → length bytes < suc fuel
          → length (drop request_size bytes) < fuel
      shorter bytes fuel e enough = ground (arith, length-drop request_size bytes)

-- What a callback at `t` for the bytes of the socket has done to the gateway.
pub record Admits (socket : ℕ) (t : ℤ) (bytes : List ℕ) (g g' : Gateway) : Type 0 where
  pub added : List Pending
  pub queued : g'.fifo.pending ≡ g.fifo.pending ++ added
  pub taken :
      (c : ℕ)
      → of_client c added
        ≡ in_turn t c
            (owns socket (g.sockets c))
            (g.rx_seq c)
            (requests_in (suc (length bytes)) bytes)
  pub numbered :
      (c : ℕ) → g.rx_seq c < 2 ^ 64 → g'.rx_seq c ≡ (g.rx_seq c + requests_of c added) % 2 ^ 64
  pub bound : (c s : ℕ) → g.sockets c ≡ some s → g'.sockets c ≡ some s

Advances-Admits :
    (socket : ℕ) (t : ℤ) (bytes : List ℕ) {g g' : Gateway}
    → Advances socket t (requests_in (suc (length bytes)) bytes) g g'
    → Admits socket t bytes g g'
unfolding in_turn
Advances-Admits socket t bytes {g} {g'} a = record {
  added = a.added;
  queued = a.queued;
  taken = λ c.
      sym (append-nil (of_client c a.added))
      ∙ a.taken c []
      ∙ ap (in_turn t c (owns socket (g.sockets c)) (g.rx_seq c))
          (append-nil (requests_in (suc (length bytes)) bytes));
  numbered = a.numbered;
  bound = a.bound;
}

-- `rxCallback` ends. When it returns, it has left less than one request in the socket's buffer and put requests
-- behind those that were pending: of a client that is bound to another socket none, and of any other client those
-- of the stream, in their order, that carry the number which is the client's next one then. The number that
-- it expects next of a client has gone up by the number of that client's requests among them (modulo 2^64), and
-- a client that was bound to a socket still is.
pub rx_callback-Admits :
    (socket : ℕ) (t : ℤ) (s : Socket) (g : Gateway)
    → Meets
        (λ r. Admits socket t s.inbound g r.1 × (length r.0.inbound < request_size))
        (rx_callback socket t s g)
rx_callback-Admits socket t s g =
    let post = λ (r : Socket × Gateway).
      Admits socket t s.inbound g r.1 × (length r.0.inbound < request_size) in
    subst (λ m. Meets post m) (sym (rx_callback-loop socket t s g))
      (Meets-bind (Drained socket t (requests_in (suc (length s.inbound)) s.inbound) g) post
        (handle_bytes (suc (length s.inbound)) socket t s.inbound g) _
        (handle_bytes-Advances socket t (suc (length s.inbound)) s.inbound g (omega arith))
        λ r h. (Advances-Admits socket t s.inbound h.0, h.1))
