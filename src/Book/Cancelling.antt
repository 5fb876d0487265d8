-- ===== src/Book/Cancelling.antt =====
-- `cancelOrder` of a resting order, on the queue of its level and the levels of its side.
use hft_sys.Common.{ℕ, ◌≡◌, ◌<◌, ap, ◌∙◌, some, none, List, [], ◌∷◌, ◌++◌, ok, lt→ltb, append_assoc}
use hft_sys.Pool.Access.{Live}
use hft_sys.Exchange.{Order, Side, max_n_clients, max_order_ids, qty_invalid}
use hft_sys.Exchange.Messages.{Message, response, update, ResponseType, UpdateType}
use hft_sys.Book.{Book, order_at}
use hft_sys.Book.Access.{bind-ok, order_at-Live}
use hft_sys.Book.Queue.{HasQueue, IsQueue-sent}
use hft_sys.Book.Inserting.{HasLevels}
use hft_sys.Book.Removing.{remove_order_from_book-Leaves}
use hft_sys.Book.Heads.{HasLevels-SameLevels}
use hft_sys.Book.Emptying.{HasLevels-same, lone-LeavesLevels}
use hft_sys.Book.Levels.{price_to_index}
use hft_sys.Book.Orders.{remove_order_from_book}
use hft_sys.Book.Handlers.{cancel_found, cancel_order}

abbrev pub cancel_update : ℕ → Order → Message
cancel_update ticker o = update (record {
  type = UpdateType.cancel;
  order_id = o.market_order_id;
  ticker_id = ticker;
  side = o.side;
  price = o.price;
  qty = 0;
  priority = o.priority;
})

abbrev pub cancelled_response : ℕ → Order → Message
cancelled_response ticker o = response (record {
  type = ResponseType.cancelled;
  client_id = o.client_id;
  ticker_id = ticker;
  client_order_id = o.client_order_id;
  market_order_id = o.market_order_id;
  side = o.side;
  price = o.price;
  qty_exec = qty_invalid;
  qty_remain = o.qty;
})

-- The side of the book when the queue of the level `l`, between `before` and `after`, is `orders`: without orders,
-- the level is gone.
abbrev pub HasSide : Book → Side → List ℕ → ℕ → List ℕ → List ℕ → Type 0
HasSide b side before l [] after = HasLevels b side (before ++ after)
HasSide b side before l (x ∷ xs) after =
    HasQueue b l (x ∷ xs) × HasLevels b side (before ++ l ∷ after)

HasSide-sent :
    (b : Book) (sent : List Message) (side : Side) (before : List ℕ) (l : ℕ) (orders after : List ℕ)
    → HasSide b side before l orders after
    → HasSide (record b { sent = sent }) side before l orders after
HasSide-sent b sent side before l [] after h =
    HasLevels-same b b.order_pool b.client_orders sent side (before ++ after) h
HasSide-sent b sent side before l (x ∷ xs) after ((level, queue), levels) = (
  (level, IsQueue-sent b b.client_orders sent l level x xs queue),
  HasLevels-same b b.order_pool b.client_orders sent side (before ++ l ∷ after) levels,
)

-- What a removal of the order `o` at `n` leaves.
abbrev pub Removed : Book → ℕ → Order → List ℕ → ℕ → List ℕ → List ℕ → Book → Type 0
Removed b n o before l orders after b' =
    HasSide b' o.side before l orders after
    × (b'.order_pool.blocks n ≡ none)
    × (b'.client_orders o.client_id o.client_order_id ≡ none)
    × (b'.sent ≡ b.sent)

module _ (b : Book) (ticker l n : ℕ) (o : Order) (live : Live b.order_pool n o)
    (at : b.price_levels (price_to_index o.price) ≡ some l)
    (in_clients : o.client_id < max_n_clients) (in_ids : o.client_order_id < max_order_ids)
    (before after : List ℕ) where
  -- `removeOrderFromBook`, whether or not the order is alone.
  pub remove_order_from_book-Removed :
      (ahead behind : List ℕ)
      → HasQueue b l (ahead ++ n ∷ behind)
      → HasLevels b o.side (before ++ l ∷ after)
      → (b' : Book) × (remove_order_from_book (some n) b ≡ ok (tt, b'))
        × Removed b n o before l (ahead ++ behind) after b'
  remove_order_from_book-Removed [] [] queue levels =
      let (b', e, (left, free, map, _, sent)) =
        lone-LeavesLevels b l n o live at in_clients in_ids before after queue levels in
      (b', e, (left, free, map, sent))
  remove_order_from_book-Removed [] (y ∷ ys) queue levels =
      let (b', e, (left, free, map, same, sent)) =
        remove_order_from_book-Leaves b l n o live at in_clients in_ids [] (y ∷ ys) (λ k. cc)
          queue in
      (
        b',
        e,
        (
          (left, HasLevels-SameLevels b b' same o.side (before ++ l ∷ after) levels),
          free,
          map,
          sent,
        ),
      )
  remove_order_from_book-Removed (x ∷ xs) behind queue levels =
      let (b', e, (left, free, map, same, sent)) =
        remove_order_from_book-Leaves b l n o live at in_clients in_ids (x ∷ xs) behind (λ k. cc)
          queue in
      (
        b',
        e,
        (
          (left, HasLevels-SameLevels b b' same o.side (before ++ l ∷ after) levels),
          free,
          map,
          sent,
        ),
      )

  -- `cancelOrder` of the order that the map has for its client and id: it returns, the order is gone from its queue,
  -- and its level from its side if it was the only one there, all else in the same order; the order's
  -- block is free, the map has no entry for it, and a CANCEL update and a CANCELLED response are sent.
  pub cancel_order-Removed :
      (ahead behind : List ℕ)
      → b.client_orders o.client_id o.client_order_id ≡ some n
      → HasQueue b l (ahead ++ n ∷ behind)
      → HasLevels b o.side (before ++ l ∷ after)
      → (b' : Book) × (cancel_order o.client_id o.client_order_id ticker b ≡ ok (tt, b'))
        × HasSide b' o.side before l (ahead ++ behind) after
        × (b'.order_pool.blocks n ≡ none)
        × (b'.client_orders o.client_id o.client_order_id ≡ none)
        × (b'.sent ≡ b.sent ++ cancel_update ticker o ∷ cancelled_response ticker o ∷ [])
  unfolding cancel_order cancel_found
  cancel_order-Removed ahead behind listed queue levels =
      let (b', e, (left, free, map, sent)) =
        remove_order_from_book-Removed ahead behind queue levels in
      let u = cancel_update ticker o in
      let r = cancelled_response ticker o in
      (
        record b' { sent = (b'.sent ++ u ∷ []) ++ r ∷ [] },
        rw (lt→ltb _ _ in_clients, lt→ltb _ _ in_ids, listed)
            (bind-ok (order_at (some n)) _ b (order_at-Live live)
              ∙ bind-ok (remove_order_from_book (some n)) _ b e),
        HasSide-sent b' _ o.side before l (ahead ++ behind) after left,
        free,
        map,
        append_assoc b'.sent (u ∷ []) (r ∷ []) ∙ ap (λ before. before ++ u ∷ r ∷ []) sent,
      )
