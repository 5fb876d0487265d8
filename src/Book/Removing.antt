-- ===== src/Book/Removing.antt =====
-- `removeOrderFromBook` on the queue of a level: the order leaves the queue, the others keep their order.
use hft_sys.Common.{
  ℕ, ◌≡◌, ◌≢◌, ◌<◌, refl, sym, ap, ◌∙◌, some, none, List, [], ◌∷◌, ◌++◌, All, All-left, All-right,
  All-append, ok, true, false, update, update_self, update_ne, ==_self, ne→==,
}
use hft_sys.Common.Ring.{
  Chain, Chain-split, Absent, Absent-append, Absent-last, Absent-right, Distinct, last, prev-last,
}
use hft_sys.Common.Ring.Splice.{
  frame_next, frame_prev, retarget, Chain-without, Distinct-before, Distinct-right,
  Distinct-without, first as head_of, next-head, Absent-head,
}
use hft_sys.Pool.{Pool}
use hft_sys.Pool.Access.{Live, freed}
use hft_sys.Exchange.{Order, OrdersAtPrice, max_n_clients, max_order_ids}
use hft_sys.Book.{Book, same_pointer}
use hft_sys.Book.Access.{mapped, mapped_self}
use hft_sys.Book.Rings.{next_order, prev_order}
use hft_sys.Book.Queue.{
  IsOrder, OrderRing, OrderRing-linked, IsQueue, HasQueue, IsQueue-sent, last-IsOrder,
}
use hft_sys.Book.Elsewhere.{OrderRing-elsewhere}
use hft_sys.Book.Heads.{SameLevels, moved_head-same_size, moved_head-same_levels}
use hft_sys.Book.Levels.{price_to_index}
use hft_sys.Book.Orders.{remove_order_from_book}
use hft_sys.Book.Unlinking.{
  unlinked_next, unlinked_prev, moved_head, removed, remove_order_from_book-removed, unlinked_book,
}

module _ (b : Book) (l : ℕ) (level : OrdersAtPrice) (z n s : ℕ) (o : Order) where
  -- A ring of the links around `n`, which is not in it, is one of the book without `n`.
  unlinked-ring :
      (first : ℕ) (rest : List ℕ)
      → All (IsOrder b) (first ∷ rest)
      → Distinct (first ∷ rest)
      → Absent n (first ∷ rest)
      → Chain (update (next_order b) z (some s)) (update (prev_order b) s (some z)) first rest first
      → OrderRing (unlinked_book b l level z n s) first rest
  unlinked-ring first rest live distinct absent ring =
      OrderRing-linked (record b { level_pool = moved_head b.level_pool l level n s })
        (unlinked_next (next_order b) z s n) (unlinked_prev (prev_order b) z s n) first rest live
        distinct
        (frame_prev _ (update (prev_order b) s (some z)) n none first rest first absent.1 absent.0 (
          frame_next (update (next_order b) z (some s)) (update (prev_order b) s (some z)) n none
            first rest first absent ring))

  removed-IsQueue :
      (level' : OrdersAtPrice) (first : ℕ) (rest : List ℕ)
      → Live (moved_head b.level_pool l level n s) l level'
      → level'.order0 ≡ some first
      → All (IsOrder b) (first ∷ rest)
      → Distinct (first ∷ rest)
      → Absent n (first ∷ rest)
      → Chain (update (next_order b) z (some s)) (update (prev_order b) s (some z)) first rest first
      → IsQueue (removed b l level z n s o) l level' first rest
  removed-IsQueue level' first rest there head live distinct absent ring =
      let c = unlinked_book b l level z n s in
      IsQueue-sent (record c { order_pool = freed c.order_pool n }) _ b.sent l level' first rest
        (record {
          there = there;
          head = head;
          orders =
              OrderRing-elsewhere c (freed c.order_pool n) n
                (λ i away. update_ne c.order_pool.blocks n none i away) refl first rest absent
                (unlinked-ring first rest live distinct absent ring);
        })

moved_head-other :
    (b : Book) (l : ℕ) (level : OrdersAtPrice) (n s first : ℕ)
    → Live b.level_pool l level
    → level.order0 ≡ some first
    → first ≢ n
    → Live (moved_head b.level_pool l level n s) l level
moved_head-other b l level n s first there head away =
    let e : same_pointer level.order0 (some n) ≡ false =
      ap (λ p. same_pointer p (some n)) head ∙ ne→== first n away in
    rw (e) there

moved_head-first :
    (b : Book) (l : ℕ) (level : OrdersAtPrice) (n s : ℕ)
    → Live b.level_pool l level
    → level.order0 ≡ some n
    → Live (moved_head b.level_pool l level n s) l (record level { order0 = some s })
moved_head-first b l level n s there head =
    let e : same_pointer level.order0 (some n) ≡ true =
      ap (λ p. same_pointer p (some n)) head ∙ ==_self n in
    rw (e) (record {
      in_pool = there.in_pool;
      holds = update_self b.level_pool.blocks l (some (record level { order0 = some s }));
    })

removed-SameLevels :
    (b : Book) (l : ℕ) (level : OrdersAtPrice) (z n s : ℕ) (o : Order)
    → Live b.level_pool l level
    → SameLevels b (removed b l level z n s o)
removed-SameLevels b l level z n s o live = record {
  same_bids = refl;
  same_asks = refl;
  same_index = refl;
  same_size = moved_head-same_size b.level_pool l level n s;
  same_levels = moved_head-same_levels b.level_pool l level n s live;
}

-- What is left of the book after `removeOrderFromBook` of `o` at `n`: the queue of the level is `orders`,
-- and the levels are the same but for their first orders.
abbrev pub Leaves : Book → ℕ → List ℕ → ℕ → Order → Book → Type 0
Leaves b l orders n o b' =
    HasQueue b' l orders
    × (b'.order_pool.blocks n ≡ none)
    × (b'.client_orders o.client_id o.client_order_id ≡ none)
    × SameLevels b b'
    × (b'.sent ≡ b.sent)

freed_self : (q : Pool Order) (n : ℕ) → (freed q n).blocks n ≡ none
freed_self q n = update_self q.blocks n none

unmapped_self : (b : Book) (client oid : ℕ) → mapped b client oid none client oid ≡ none
unmapped_self b client oid = mapped_self b client oid none

head_of-IsOrder :
    (b : Book) (xs : List ℕ) (e : ℕ) → All (IsOrder b) xs → IsOrder b e → IsOrder b (head_of xs e)
head_of-IsOrder b [] e h k = k
head_of-IsOrder b (x ∷ xs) e h k = h.0

module _ (b : Book) (l n : ℕ) (o : Order) (live : Live b.order_pool n o)
    (at : b.price_levels (price_to_index o.price) ≡ some l)
    (in_clients : o.client_id < max_n_clients) (in_ids : o.client_order_id < max_order_ids) where
  first-Leaves :
      (y : ℕ) (ys : List ℕ)
      → HasQueue b l (n ∷ y ∷ ys)
      → (b' : Book) × (remove_order_from_book (some n) b ≡ ok (tt, b')) × Leaves b l (y ∷ ys) n o b'
  first-Leaves y ys (level, queue) =
      let (to, back, beyond) = queue.orders.ring in
      let away = queue.orders.distinct.0 in
      let (oz, z_live) = last-IsOrder b y ys queue.orders.live.1 in
      let (os, s_live) = queue.orders.live.1.0 in
      let from = prev-last (next_order b) (prev_order b) y ys n beyond in
      (
        removed b l level (last y ys) n y o,
        remove_order_from_book-removed b l level (last y ys) n y oz o os queue.there z_live live
            s_live to from (λ e. Absent-last n y ys away (sym e)) (λ e. away.0 (sym e)) at
            in_clients in_ids,
        (
          (
            _,
            removed-IsQueue b l level (last y ys) n y o (record level { order0 = some y }) y ys
                (moved_head-first b l level n y queue.there queue.head) refl queue.orders.live.1
                queue.orders.distinct.1 away
                (retarget (next_order b) (prev_order b) y ys n y queue.orders.distinct.1
                  queue.orders.distinct.1.0 beyond),
          ),
          freed_self (unlinked_book b l level (last y ys) n y).order_pool n,
          unmapped_self b o.client_id o.client_order_id,
          removed-SameLevels b l level (last y ys) n y o queue.there,
          refl,
        ),
      )

  later-Leaves :
      (f : ℕ) (xs ys : List ℕ)
      → HasQueue b l (f ∷ (xs ++ n ∷ ys))
      → (b' : Book) × (remove_order_from_book (some n) b ≡ ok (tt, b'))
        × Leaves b l (f ∷ (xs ++ ys)) n o b'
  later-Leaves f xs ys (level, queue) =
      let next = next_order b in
      let prev = prev_order b in
      let z = last f xs in
      let s = head_of ys f in
      let distinct = queue.orders.distinct in
      let all = queue.orders.live in
      let (to_n, from_n) = Chain-split next prev f xs n ys f queue.orders.ring in
      let before : Absent n (f ∷ xs) = (
        (λ e. (Absent-right f xs (n ∷ ys) distinct.0).0 (sym e)),
        Distinct-before xs [] n ys distinct.1,
      ) in
      let after = (Distinct-right (f ∷ xs) (n ∷ ys) distinct).0 in
      let absent : Absent n (f ∷ (xs ++ ys)) = (before.0, Absent-append n xs ys before.1 after) in
      let live_after = (All-right (IsOrder b) xs (n ∷ ys) all.1).1 in
      let live_before = All-left (IsOrder b) (f ∷ xs) (n ∷ ys) all in
      let (oz, z_live) = last-IsOrder b f xs live_before in
      let (os, s_live) = head_of-IsOrder b ys f live_after all.0 in
      (
        removed b l level z n s o,
        remove_order_from_book-removed b l level z n s oz o os queue.there z_live live s_live
            (next-head next prev n ys f from_n) (prev-last next prev f xs n to_n)
            (λ e. Absent-last n f xs before (sym e))
            (λ e. Absent-head n ys f after before.0 (sym e)) at in_clients in_ids,
        (
          (
            level,
            removed-IsQueue b l level z n s o level f (xs ++ ys)
                (moved_head-other b l level n s f queue.there queue.head (λ e. before.0 (sym e)))
                queue.head (All-append (IsOrder b) (f ∷ xs) ys live_before live_after)
                (Distinct-without (f ∷ xs) n ys distinct) absent
                (Chain-without next prev f xs n ys f distinct distinct.0 queue.orders.ring),
          ),
          freed_self (unlinked_book b l level z n s).order_pool n,
          unmapped_self b o.client_id o.client_order_id,
          removed-SameLevels b l level z n s o queue.there,
          refl,
        ),
      )

  -- `removeOrderFromBook` of a live order that is not alone in the queue of its level, with a client
  -- and an id in range, returns: the queue is what it was without the order, in the same order, the block of the order is
  -- free, the client map has no entry for it, and the levels are the same but for their first orders.
  pub remove_order_from_book-Leaves :
      (before after : List ℕ)
      → before ++ after ≢ []
      → HasQueue b l (before ++ n ∷ after)
      → (b' : Book) × (remove_order_from_book (some n) b ≡ ok (tt, b'))
        × Leaves b l (before ++ after) n o b'
  remove_order_from_book-Leaves [] [] some_left queue = absurd (some_left refl)
  remove_order_from_book-Leaves [] (y ∷ ys) some_left queue = first-Leaves y ys queue
  remove_order_from_book-Leaves (f ∷ xs) after some_left queue = later-Leaves f xs after queue
