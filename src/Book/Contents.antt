-- ===== src/Book/Contents.antt =====
-- Books that differ only in the links of their levels and in which levels are the best ones.
use hft_sys.Common.{ℕ, ◌≡◌, ◌<◌, refl, sym, ap, ◌∙◌, Option, some, none, Option-cases, inl, inr}
use hft_sys.Common.Ring.{Link}
use hft_sys.Pool.Access.{Live}
use hft_sys.Pool.Linked.{linked}
use hft_sys.Exchange.{OrdersAtPrice}
use hft_sys.Book.{Book}
use hft_sys.Book.Rings.{with_levels}
use hft_sys.Book.Seeking.{level_price, level_price-linked}

head_in : Option OrdersAtPrice → Option ℕ
head_in none = none
head_in (some l) = l.order0

-- The first order of the level at `i`.
unfoldable pub level_head : Book → ℕ → Option ℕ
unfolding head_in
level_head b i = head_in (b.level_pool.blocks i)

pub level_head-Live :
    (b : Book) (i : ℕ) (l : OrdersAtPrice) → Live b.level_pool i l → level_head b i ≡ l.order0
unfolding level_head
level_head-Live b i l live = let held = live.holds in rw (held) refl

level_head-linked :
    (b : Book) (next prev : Link) (i : ℕ) → level_head (with_levels b next prev) i ≡ level_head b i
unfolding level_head linked
level_head-linked b next prev i = elim (Option-cases (b.level_pool.blocks i)) [
  | inl e ↦ rw (e) refl
  | inr (l, e) ↦ rw (e) refl
]

linked-same_size :
    (b : Book) (next prev : Link) → (with_levels b next prev).level_pool.size ≡ b.level_pool.size
unfolding linked
linked-same_size b next prev = refl

-- The orders, the client map, the messages, and the prices and first orders of the levels are the same.
pub record SameContents (b b' : Book) : Type 0 where
  pub same_index : b'.price_levels ≡ b.price_levels
  pub same_prices : (i : ℕ) → level_price b' i ≡ level_price b i
  pub same_heads : (i : ℕ) → level_head b' i ≡ level_head b i
  pub same_size : b'.level_pool.size ≡ b.level_pool.size
  pub same_orders : b'.order_pool ≡ b.order_pool
  pub same_map : b'.client_orders ≡ b.client_orders
  pub same_sent : b'.sent ≡ b.sent

pub SameContents-linked : (b : Book) (next prev : Link) → SameContents b (with_levels b next prev)
SameContents-linked b next prev = record {
  same_index = refl;
  same_prices = level_price-linked b next prev;
  same_heads = level_head-linked b next prev;
  same_size = linked-same_size b next prev;
  same_orders = refl;
  same_map = refl;
  same_sent = refl;
}

pub SameContents-best :
    (b : Book) (bids asks : Option ℕ) → SameContents b (record b { bids = bids; asks = asks })
unfolding level_price level_head
SameContents-best b bids asks = record {
  same_index = refl;
  same_prices = λ i. refl;
  same_heads = λ i. refl;
  same_size = refl;
  same_orders = refl;
  same_map = refl;
  same_sent = refl;
}

pub SameContents-trans : (a b c : Book) → SameContents a b → SameContents b c → SameContents a c
SameContents-trans a b c s t = record {
  same_index = t.same_index ∙ s.same_index;
  same_prices = λ i. t.same_prices i ∙ s.same_prices i;
  same_heads = λ i. t.same_heads i ∙ s.same_heads i;
  same_size = t.same_size ∙ s.same_size;
  same_orders = t.same_orders ∙ s.same_orders;
  same_map = t.same_map ∙ s.same_map;
  same_sent = t.same_sent ∙ s.same_sent;
}

-- A level that leads to an order is alive.
pub level_of_head :
    (b : Book) (i n : ℕ)
    → i < b.level_pool.size
    → level_head b i ≡ some n
    → (l : OrdersAtPrice) × Live b.level_pool i l × (l.order0 ≡ some n)
unfolding level_head
level_of_head b i n inside e = elim (Option-cases (b.level_pool.blocks i)) [
  | inl gone ↦ absurd (no_head gone e)
  | inr (l, held) ↦ (l, record { in_pool = inside; holds = held }, sym (ap head_in held) ∙ e)
]
  where
    no_head : {x : Option OrdersAtPrice} → x ≡ none → head_in x ≡ some n → ⊥
    no_head gone e = cc (sym (ap head_in gone) ∙ e)
