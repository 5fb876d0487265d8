-- ===== src/Book/Elsewhere.antt =====
-- Queues of orders under a change of the pool of orders at one block that is not in the queue.
use hft_sys.Common.{ℕ, ◌≡◌, ◌≢◌, ◌<◌, refl, sym, ap, ◌∙◌, subst, none, List, [], ◌∷◌, All}
use hft_sys.Common.Ring.{Absent, Chain-agree}
use hft_sys.Pool.{Pool}
use hft_sys.Exchange.{Order, OrdersAtPrice}
use hft_sys.Book.{Book}
use hft_sys.Book.Rings.{next_order, prev_order}
use hft_sys.Book.Queue.{IsOrder, OrderRing, IsQueue}

-- A live order stands where no free block is.
pub Absent-free :
    (b : Book) (n : ℕ) (xs : List ℕ)
    → b.order_pool.blocks n ≡ none
    → All (IsOrder b) xs
    → Absent n xs
Absent-free b n [] free h = tt
Absent-free b n (x ∷ xs) free ((o, l), rest) =
    let held = l.holds in ((λ e. cc (ap b.order_pool.blocks e)), Absent-free b n xs free rest)

-- The pool of orders has become `q`, which is the same away from `n`.
module _ (b : Book) (q : Pool Order) (n : ℕ)
    (same : (i : ℕ) → i ≢ n → q.blocks i ≡ b.order_pool.blocks i)
    (same_size : q.size ≡ b.order_pool.size) where
  abbrev Away : ℕ → Type 0
  Away i = IsOrder b i × (n ≢ i)

  kept_block : (i : ℕ) → Away i → q.blocks i ≡ b.order_pool.blocks i
  kept_block i h = same i (λ e. h.1 (sym e))

  kept-IsOrder : (i : ℕ) → Away i → IsOrder (record b { order_pool = q }) i
  kept-IsOrder i ((x, l), away) = (
    x,
    record {
      in_pool = subst (λ s. i < s) (sym same_size) l.in_pool;
      holds = kept_block i ((x, l), away) ∙ l.holds;
    },
  )

  kept_links :
      (i : ℕ)
      → Away i
      → (next_order (record b { order_pool = q }) i ≡ next_order b i)
        × (prev_order (record b { order_pool = q }) i ≡ prev_order b i)
  unfolding next_order prev_order
  kept_links i h = (rw (kept_block i h) refl, rw (kept_block i h) refl)

  All-kept : (xs : List ℕ) → All Away xs → All (IsOrder (record b { order_pool = q })) xs
  All-kept [] h = tt
  All-kept (x ∷ xs) h = (kept-IsOrder x h.0, All-kept xs h.1)

  All-Away : (xs : List ℕ) → All (IsOrder b) xs → Absent n xs → All Away xs
  All-Away [] h k = tt
  All-Away (x ∷ xs) h k = ((h.0, k.0), All-Away xs h.1 k.1)

  pub OrderRing-elsewhere :
      (first : ℕ) (rest : List ℕ)
      → Absent n (first ∷ rest)
      → OrderRing b first rest
      → OrderRing (record b { order_pool = q }) first rest
  OrderRing-elsewhere first rest absent r =
      let away = All-Away (first ∷ rest) r.live absent in
      record {
        live = All-kept (first ∷ rest) away;
        distinct = r.distinct;
        ring =
            Chain-agree Away (next_order b) (prev_order b) _ _ kept_links first rest first away
              away.0 r.ring;
      }

  pub IsQueue-elsewhere :
      (l : ℕ) (level : OrdersAtPrice) (first : ℕ) (rest : List ℕ)
      → Absent n (first ∷ rest)
      → IsQueue b l level first rest
      → IsQueue (record b { order_pool = q }) l level first rest
  IsQueue-elsewhere l level first rest absent queue = record {
    there = queue.there;
    head = queue.head;
    orders = OrderRing-elsewhere first rest absent queue.orders;
  }
