-- ===== src/Book/Delisting.antt =====
-- `removePriceLevel`: the links around the level, and the best level of its side.
use hft_sys.Common.{
  ℕ, ◌≡◌, ◌≢◌, refl, sym, ap, ◌∙◌, Option, some, none, ok, Bool, true, false, if◌then◌else◌, update,
  fail, ne→==, ==_self,
}
use hft_sys.Common.Int.{ℤ}
use hft_sys.Common.Ring.{Link}
use hft_sys.Pool.Access.{Live, freed, deallocate-Live}
use hft_sys.Pool.Linked.{Live-linked}
use hft_sys.Exchange.{OrdersAtPrice, Side, is_buy}
use hft_sys.Book.{
  Book, M, pure, ◌>>=◌, ◌>>◌, set_level, level_at, same_pointer, set_best, best_of,
  deallocate_level, set_price_level,
}
use hft_sys.Book.Access.{bind-ok, level_at-Live}
use hft_sys.Book.Rings.{
  with_levels, with_levels_self, link_level, next_level, prev_level, write_level_next,
  write_level_prev, write_level_links,
}
use hft_sys.Book.Unlinking.{unlinked_next, unlinked_prev}
use hft_sys.Book.Levels.{
  unlink_level, remove_price_level, price_to_index, get_level_for_price, get_best,
}

-- The book where the best level of the bids, or of the asks, is `p` if `moves` says so.
abbrev pub moved_best : (moves is_bid : Bool) → Option ℕ → Book → Book
moved_best false is_bid p b = b
moved_best true true p b = record b { bids = p }
moved_best true false p b = record b { asks = p }

-- The end of `unlink_level`, behind the writes to the neighbours.
cut_off :
    (moves is_bid : Bool) (s : Option ℕ) (b : Book) (next prev : Link) (l : ℕ)
    (level : OrdersAtPrice)
    → Live b.level_pool l level
    → ((if moves
            then (λ c. ok (tt, if is_bid then record c { bids = s } else record c { asks = s }))
            else pure tt)
          >> set_level (some l) (λ x. record x { prev = none; next = none }))
        (with_levels b next prev)
      ≡ ok (tt, with_levels (moved_best moves is_bid s b) (update next l none) (update prev l none))
cut_off false is_bid s b next prev l level live =
    write_level_links b next prev (some l) l level refl live none none
cut_off true true s b next prev l level live =
    write_level_links (record b { bids = s }) next prev (some l) l level refl live none none
cut_off true false s b next prev l level live =
    write_level_links (record b { asks = s }) next prev (some l) l level refl live none none

module _ (b : Book) (next prev : Link) (side : Side) (best : Option ℕ) (z l s : ℕ)
    (lz level ls : OrdersAtPrice) (z_live : Live b.level_pool z lz)
    (live : Live b.level_pool l level) (s_live : Live b.level_pool s ls) (to : level.next ≡ some s)
    (from : level.prev ≡ some z) where
  pub unlink_level-linked :
      unlink_level (some l) level side best (with_levels b next prev)
      ≡ ok (
        tt,
        with_levels
            (moved_best (same_pointer (some l) best) (is_buy side) (some s) b)
            (unlinked_next next z s l)
            (unlinked_prev prev z s l),
      )
  unfolding unlink_level
  unlink_level-linked =
      let next1 = update next z (some s) in
      let prev1 = update prev s (some z) in
      bind-ok (set_level level.prev _) _ _ (
        write_level_next b next prev level.prev z lz from z_live level.next
        ∙ ap (λ p. ok (tt, with_levels b (update next z p) prev)) to)
      ∙ bind-ok (set_level level.next _) _ _ (
          write_level_prev b next1 prev level.next s ls to s_live level.prev
          ∙ ap (λ p. ok (tt, with_levels b next1 (update prev s p))) from)
      ∙ ap
          (λ p.
            ((if same_pointer (some l) best then set_best side p else pure tt)
                >> set_level (some l) (λ x. record x { prev = none; next = none }))
              (with_levels b next1 prev1))
          to
      ∙ cut_off (same_pointer (some l) best) (is_buy side) (some s) b next1 prev1 l level live

moved-fields :
    (t u : Bool) (p : Option ℕ) (b : Book)
    → moved_best t u p b
      ≡ record b { bids = (moved_best t u p b).bids; asks = (moved_best t u p b).asks }
moved-fields false u p b = refl
moved-fields true true p b = refl
moved-fields true false p b = refl

-- The best level of the side, which is a BUY side if `u` says so.
pub best-moved :
    (t u : Bool) (p : Option ℕ) (b : Book)
    → (if u then (moved_best t u p b).bids else (moved_best t u p b).asks)
      ≡ (if t then p else (if u then b.bids else b.asks))
best-moved false true p b = refl
best-moved false false p b = refl
best-moved true true p b = refl
best-moved true false p b = refl

set-moved :
    (u : Bool) (p : Option ℕ) (b : Book)
    → (if u then record b { bids = p } else record b { asks = p }) ≡ moved_best true u p b
set-moved true p b = refl
set-moved false p b = refl

deallocate_level-ok :
    (b : Book) (i : ℕ) (l : OrdersAtPrice)
    → Live b.level_pool i l
    → deallocate_level (some i) b ≡ ok (tt, record b { level_pool = freed b.level_pool i })
unfolding deallocate_level
deallocate_level-ok b i l live =
    ap (λ r. elim r [ fail e ↦ fail e | ok q ↦ ok (tt, record b { level_pool = q }) ])
      (deallocate-Live live)

-- The book with the level at `l` out of the index and out of the pool.
abbrev pub delisted : Book → ℕ → ℕ → Book
delisted b k l = record b {
  price_levels = update b.price_levels k none;
  level_pool = freed b.level_pool l;
}

abbrev pub unlisted : Book → Option ℕ → Option ℕ → ℕ → ℕ → ℕ → Book
unlisted b bids asks z l s =
    with_levels (record b { bids = bids; asks = asks }) (unlinked_next (next_level b) z s l)
      (unlinked_prev (prev_level b) z s l)

next_level-Live :
    (b : Book) (i : ℕ) (l : OrdersAtPrice) → Live b.level_pool i l → next_level b i ≡ l.next
unfolding next_level
next_level-Live b i l live = let held = live.holds in rw (held) refl

prev_level-Live :
    (b : Book) (i : ℕ) (l : OrdersAtPrice) → Live b.level_pool i l → prev_level b i ≡ l.prev
unfolding prev_level
prev_level-Live b i l live = let held = live.holds in rw (held) refl

module _ (b : Book) (side : Side) (price : ℤ) (l : ℕ) (level : OrdersAtPrice)
    (live : Live b.level_pool l level) (at : b.price_levels (price_to_index price) ≡ some l) where
  abbrev after_links : Unit {0} → M (Unit {0})
  after_links _ = set_price_level (price_to_index price) none >> deallocate_level (some l)

  remove_price_level-steps :
      remove_price_level side price b
      ≡ ((if same_pointer level.next (some l)
              then set_best side none
              else unlink_level (some l) level side (best_of side b))
            >>= after_links)
          b
  unfolding remove_price_level get_level_for_price
  remove_price_level-steps =
      ap
        (λ p.
          (level_at p >>= λ x. get_best side >>= λ best.
          (if same_pointer x.next p then set_best side none else unlink_level p x side best)
          >> (set_price_level (price_to_index price) none >> deallocate_level p))
            b)
        at
      ∙ bind-ok (level_at (some l)) _ b (level_at-Live live)

  -- A level with neighbours `z` and `s`, which are others.
  pub remove_price_level-linked :
      (z s : ℕ) (lz ls : OrdersAtPrice)
      → Live b.level_pool z lz
      → Live b.level_pool s ls
      → next_level b l ≡ some s
      → prev_level b l ≡ some z
      → s ≢ l
      → let moved = moved_best (same_pointer (some l) (best_of side b)) (is_buy side) (some s) b in
        remove_price_level side price b
        ≡ ok (tt, delisted (unlisted b moved.bids moved.asks z l s) (price_to_index price) l)
  remove_price_level-linked z s lz ls z_live s_live to from apart =
      let best = best_of side b in
      let moved = moved_best (same_pointer (some l) best) (is_buy side) (some s) b in
      let not_alone : same_pointer level.next (some l) ≡ false =
        ap (λ p. same_pointer p (some l)) (sym (next_level-Live b l level live) ∙ to)
        ∙ ne→== s l apart in
      let c = unlisted b moved.bids moved.asks z l s in
      let still =
        Live-linked link_level b.level_pool (unlinked_next (next_level b) z s l)
          (unlinked_prev (prev_level b) z s l) l level live in
      remove_price_level-steps
      ∙ ap
          (λ (t : Bool).
            ((if t then set_best side none else unlink_level (some l) level side best)
                >>= after_links)
              b)
          not_alone
      ∙ bind-ok (unlink_level (some l) level side best) _ b (
          ap (λ x. unlink_level (some l) level side best x) (sym (with_levels_self b))
          ∙ unlink_level-linked b (next_level b) (prev_level b) side best z l s lz level ls z_live
              live s_live (sym (next_level-Live b l level live) ∙ to)
              (sym (prev_level-Live b l level live) ∙ from)
          ∙ ap
              (λ x. ok (
                tt,
                with_levels x (unlinked_next (next_level b) z s l)
                    (unlinked_prev (prev_level b) z s l),
              ))
              (moved-fields (same_pointer (some l) best) (is_buy side) (some s) b))
      ∙ deallocate_level-ok
          (record c { price_levels = update c.price_levels (price_to_index price) none }) l _ still

  -- A level that is alone on its side.
  pub remove_price_level-alone :
      next_level b l ≡ some l
      → let moved = moved_best true (is_buy side) none b in
        remove_price_level side price b
        ≡ ok (
          tt,
          delisted (record b { bids = moved.bids; asks = moved.asks }) (price_to_index price) l,
        )
  remove_price_level-alone to =
      let moved = moved_best true (is_buy side) none b in
      let c = record b { bids = moved.bids; asks = moved.asks } in
      let is_alone : same_pointer level.next (some l) ≡ true =
        ap (λ p. same_pointer p (some l)) (sym (next_level-Live b l level live) ∙ to) ∙ ==_self l in
      remove_price_level-steps
      ∙ ap
          (λ (t : Bool).
            ((if t then set_best side none else unlink_level (some l) level side (best_of side b))
                >>= after_links)
              b)
          is_alone
      ∙ bind-ok (set_best side none) after_links b (
          ap (λ x. ok (tt, x))
            (set-moved (is_buy side) none b ∙ moved-fields true (is_buy side) none b))
      ∙ deallocate_level-ok
          (record c { price_levels = update c.price_levels (price_to_index price) none }) l level
          live
