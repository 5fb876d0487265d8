-- ===== src/SocketUtils/Passed.antt =====
-- When `createSocket` returns, and what it opens.
use hft_sys.Common.{
  ℕ, ◌≡◌, refl, sym, ap, subst, inl, inr, ◌⊎◌, Option-cases, List, [], ◌∷◌, ◌++◌, append_assoc,
  append-nil, Bool, true, false, ◌||◌, not, Option, none, some, if◌then◌else◌, arith, Result, ok,
  fail, terminated, ◌>>=◌,
}
use hft_sys.Common.Int.{ℤ}
use hft_sys.Text.{Text}
use hft_sys.SocketUtils.{
  SocketConfig, Answers, set_socket_non_blocking, asserting, prepare_listening, open_socket,
  open_sockets, Interface, chosen_ip, create_socket,
}

-- What has to hold of the answers for an entry.
pub record Passes (c : SocketConfig) (a : Answers) (fd : ℕ) : Type 0 where
  pub made : a.socket ≡ some fd
  pub non_blocking : (a.flags_got ≡ true) × (a.flags_set ≡ true)
  pub no_delay : c.use_udp ≡ false → a.no_delay_set ≡ true
  pub unconnected : c.is_listening_mode ≡ false → a.connected ≡ false
  pub bound : c.is_listening_mode ≡ true → (a.reuse_set ≡ true) × (a.bound ≡ true)
  pub listening : c.is_listening_mode ≡ true → c.use_udp ≡ false → a.listening ≡ true
  pub timestamp : c.enable_timestamp ≡ true → a.timestamp_set ≡ true

open_socket-Passes :
    (c : SocketConfig) (a : Answers) (fd : ℕ) → open_socket c a ≡ ok fd → Passes c a fd
unfolding open_socket set_socket_non_blocking prepare_listening
open_socket-Passes c a fd h = record {
  made = ground arith;
  non_blocking = (ground arith, ground arith);
  no_delay = λ e. ground arith;
  unconnected = λ e. ground arith;
  bound = λ e. (ground arith, ground arith);
  listening = λ e k. ground arith;
  timestamp = λ e. ground arith;
}

Passes-open_socket :
    (c : SocketConfig) (a : Answers) (fd : ℕ) → Passes c a fd → open_socket c a ≡ ok fd
unfolding open_socket set_socket_non_blocking prepare_listening
Passes-open_socket c a fd p = ground (arith, p)

-- The descriptors of a row of entries whose answers all pass.
abbrev pub PassAll : SocketConfig → List Answers → List ℕ → Type 0
PassAll c [] [] = Unit
PassAll c (a ∷ as') (fd ∷ fds) = Passes c a fd × PassAll c as' fds
PassAll c _ _ = ⊥

abbrev pub last_of : Option ℕ → List ℕ → Option ℕ
last_of last [] = last
last_of last (fd ∷ fds) = last_of (some fd) fds

-- A result of the loop, against the answers.
abbrev pub Opens :
    SocketConfig → List Answers → Option ℕ → List ℕ → Result (Option ℕ × List ℕ) → Type 0
Opens c entries last opened r =
    ((fds : List ℕ) × PassAll c entries fds × (r ≡ ok (last_of last fds, opened ++ fds)))
    ⊎ (((fds : List ℕ) → ¬ PassAll c entries fds) × (r ≡ fail terminated))

abbrev Ends : {A : Type 0} → A → Result A → Type 0
Ends v r = (r ≡ ok v) ⊎ (r ≡ fail terminated)

asserting-Ends : {A : Type 0} {v : A} (b : Bool) (r : Result A) → Ends v r → Ends v (asserting b r)
asserting-Ends true r h = h
asserting-Ends false r h = inr refl

bind-Ends :
    {v : ℕ} (m : Result (Unit {0})) (r : Result ℕ) → Ends tt m → Ends v r → Ends v (m >>= λ _. r)
bind-Ends (ok tt) r h k = k
bind-Ends (fail f) r (inl e) k = absurd cc
bind-Ends (fail f) r (inr e) k = inr (ap (λ m. m >>= λ _. r) e)

prepare_listening_lem : (c : SocketConfig) (a : Answers) → Ends tt (prepare_listening c a)
unfolding prepare_listening
prepare_listening_lem c a = go c.is_listening_mode c.use_udp a.reuse_set a.bound a.listening
  where
    go :
        (l u r b s : Bool)
        → Ends tt (
            if l
            then asserting r (asserting b (if not u then asserting s (ok tt) else ok tt))
            else ok tt)
    go false u r b s = inl refl
    go true u r b s = asserting-Ends r _ (asserting-Ends b _ (ended u s))
      where
        ended : (u s : Bool) → Ends tt (if not u then asserting s (ok tt) else ok tt)
        ended true s = inl refl
        ended false s = asserting-Ends s _ (inl refl)

-- A socket is opened, or the program ends.
open_socket-total :
    (c : SocketConfig) (a : Answers)
    → ((fd : ℕ) × (open_socket c a ≡ ok fd)) ⊎ (open_socket c a ≡ fail terminated)
unfolding open_socket set_socket_non_blocking prepare_listening
open_socket-total c a = elim (Option-cases a.socket) [
  | inl e ↦ inr (rw (e) refl)
  | inr (fd, e) ↦ elim (opened fd) [ inl k ↦ inl (fd, rw (e) k) | inr k ↦ inr (rw (e) k) ]
]
  where
    opened :
        (fd : ℕ)
        → Ends fd (
            asserting (set_socket_non_blocking a) (
              asserting (c.use_udp || a.no_delay_set) (
                asserting (c.is_listening_mode || not a.connected) (
                  prepare_listening c a >>= λ _.
                  asserting (not c.enable_timestamp || a.timestamp_set) (ok fd)))))
    opened fd =
        let stamped = asserting (not c.enable_timestamp || a.timestamp_set) (ok fd) in
        let prepared = prepare_listening c a >>= λ _. stamped in
        let tied = asserting (c.is_listening_mode || not a.connected) prepared in
        asserting-Ends (set_socket_non_blocking a) (asserting (c.use_udp || a.no_delay_set) tied) (
          asserting-Ends (c.use_udp || a.no_delay_set) tied (
            asserting-Ends (c.is_listening_mode || not a.connected) prepared (
              bind-Ends (prepare_listening c a) stamped (prepare_listening_lem c a)
                (asserting-Ends (not c.enable_timestamp || a.timestamp_set) (ok fd) (inl refl)))))

open_sockets-Opens :
    (c : SocketConfig) (entries : List Answers) (last : Option ℕ) (opened : List ℕ)
    → Opens c entries last opened (open_sockets c entries last opened)
unfolding open_sockets
open_sockets-Opens c [] last opened = inl ([], tt, ap (λ o. ok (last, o)) (sym (append-nil opened)))
open_sockets-Opens c (a ∷ as') last opened = elim (open_socket-total c a) [
  | inr e ↦ inr (none_pass e, rw (e) refl)
  | inl (fd, e) ↦ elim (open_sockets-Opens c as' (some fd) (opened ++ fd ∷ [])) [
    | inl (fds, pass, runs) ↦ inl (
      fd ∷ fds,
      (open_socket-Passes c a fd e, pass),
      rw (e, runs) (ap (λ o. ok (last_of (some fd) fds, o)) (append_assoc opened (fd ∷ []) fds)),
    )
    | inr (fails, runs) ↦ inr (rest_fails fails, rw (e) runs)
  ]
]
  where
    none_pass : open_socket c a ≡ fail terminated → (fds : List ℕ) → ¬ PassAll c (a ∷ as') fds
    none_pass e [] p = p
    none_pass e (fd ∷ fds) p = cc (e, Passes-open_socket c a fd p.0)

    rest_fails : ((fds : List ℕ) → ¬ PassAll c as' fds) → (fds : List ℕ) → ¬ PassAll c (a ∷ as') fds
    rest_fails h [] p = p
    rest_fails h (fd ∷ fds) p = h fds p.1

-- `createSocket` opens a socket for every entry that `getaddrinfo` gives and returns the last of them, if the
-- answers for each entry pass; otherwise it terminates the program. To pass, `connect` has to fail on a socket
-- that is not to listen.
pub create_socket-Opens :
    (c : SocketConfig) (interfaces : Option (List Interface))
    (lookup : Text → ℤ → Option (List Answers)) (entries : List Answers)
    → lookup (chosen_ip c interfaces) c.port_number ≡ some entries
    → Opens c entries none [] (create_socket c interfaces lookup)
unfolding create_socket
create_socket-Opens c interfaces lookup entries e =
    subst (Opens c entries none [])
      (sym (ap (λ r. elim r [ none ↦ fail terminated | some es ↦ open_sockets c es none [] ]) e))
      (open_sockets-Opens c entries none [])
