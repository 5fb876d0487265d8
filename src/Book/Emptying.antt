-- ===== src/Book/Emptying.antt =====
-- `removeOrderFromBook` as a whole: an order that is alone takes its level with it, any other leaves the levels
-- as they are.
use hft_sys.Common.{
  ℕ, ◌≡◌, ◌<◌, refl, sym, ap, ◌∙◌, subst, Option, some, none, List, [], ◌∷◌, ◌++◌, ok, Bool, true,
  update_self, if◌then◌else◌, ==_self,
}
use hft_sys.Pool.{Pool}
use hft_sys.Pool.Access.{Live, freed}
use hft_sys.Exchange.{Order, Side, max_n_clients, max_order_ids}
use hft_sys.Exchange.Messages.{Message}
use hft_sys.Book.{Book, order_at, same_pointer}
use hft_sys.Book.Access.{bind-ok, order_at-Live, mapped_self}
use hft_sys.Book.Rings.{prev_order, next_level, prev_level}
use hft_sys.Book.Queue.{HasQueue}
use hft_sys.Book.Inserting.{HasLevels}
use hft_sys.Book.LevelRemoval.{remove_price_level-Delisted}
use hft_sys.Book.Unlinking.{drop_order-ok}
use hft_sys.Book.Levels.{remove_price_level, price_to_index}
use hft_sys.Book.Orders.{remove_order_from_book, unlink_order}

-- The levels of a side depend on the pool of levels and on the best levels.
pub HasLevels-same :
    (b : Book) (orders : Pool Order) (map : ℕ → ℕ → Option ℕ) (sent : List Message) (side : Side)
    (xs : List ℕ)
    → HasLevels b side xs
    → HasLevels (record b { order_pool = orders; client_orders = map; sent = sent }) side xs
unfolding next_level prev_level
HasLevels-same b orders map sent side [] h = h
HasLevels-same b orders map sent side (x ∷ xs) (best, r) =
    (best, record { live = r.live; distinct = r.distinct; ring = r.ring })

prev_order-Live : (b : Book) (i : ℕ) (o : Order) → Live b.order_pool i o → prev_order b i ≡ o.prev
unfolding prev_order
prev_order-Live b i o live = let held = live.holds in rw (held) refl

module _ (b : Book) (l n : ℕ) (o : Order) (live : Live b.order_pool n o)
    (at : b.price_levels (price_to_index o.price) ≡ some l)
    (in_clients : o.client_id < max_n_clients) (in_ids : o.client_order_id < max_order_ids) where
  -- What is left when the last order of a level is removed: the other levels.
  abbrev pub LeavesLevels : List ℕ → Book → Type 0
  LeavesLevels levels b' =
      HasLevels b' o.side levels
      × (b'.order_pool.blocks n ≡ none)
      × (b'.client_orders o.client_id o.client_order_id ≡ none)
      × (b'.price_levels (price_to_index o.price) ≡ none)
      × (b'.sent ≡ b.sent)

  pub lone-LeavesLevels :
      (before after : List ℕ)
      → HasQueue b l (n ∷ [])
      → HasLevels b o.side (before ++ l ∷ after)
      → (b' : Book) × (remove_order_from_book (some n) b ≡ ok (tt, b'))
        × LeavesLevels (before ++ after) b'
  unfolding remove_order_from_book
  lone-LeavesLevels before after (level, queue) has =
      let (b1, removes, (levels, free, index, same_orders, same_map, same_sent)) =
        remove_price_level-Delisted b o.side o.price l level queue.there at before after has in
      let is_lone : same_pointer o.prev (some n) ≡ true =
        ap (λ p. same_pointer p (some n)) (sym (prev_order-Live b n o live) ∙ queue.orders.ring.1)
        ∙ ==_self n in
      let still : Live b1.order_pool n o = subst (λ q. Live q n o) (sym same_orders) live in
      (
        _,
        bind-ok (order_at (some n)) _ b (order_at-Live live)
            ∙ bind-ok
                (if same_pointer o.prev (some n)
                  then remove_price_level o.side o.price
                  else unlink_order (some n) (b.price_levels (price_to_index o.price)))
                _ b
                (ap
                    (λ (t : Bool).
                      (if t
                          then remove_price_level o.side o.price
                          else unlink_order (some n) (b.price_levels (price_to_index o.price)))
                        b)
                    is_lone
                  ∙ removes)
            ∙ bind-ok (order_at (some n)) _ b1 (order_at-Live still)
            ∙ drop_order-ok b1 n o.client_id o.client_order_id o still in_clients in_ids,
        (
          HasLevels-same b1 (freed b1.order_pool n) _ b1.sent o.side (before ++ after) levels,
          update_self b1.order_pool.blocks n none,
          mapped_self b1 o.client_id o.client_order_id none,
          ap (λ f. f (price_to_index o.price)) index
              ∙ update_self b.price_levels (price_to_index o.price) none,
          same_sent,
        ),
      )
