-- ===== src/Book/LevelRings.antt =====
-- The ring of price levels of a side as a list, the best level first, and a level put between two others.
use hft_sys.Common.{ℕ, ◌≡◌, ◌≢◌, refl, ap, ◌∙◌, some, List, [], ◌∷◌, All, ok, update}
use hft_sys.Common.Ring.{Link, Chain, Distinct, Chain-agree}
use hft_sys.Pool.Access.{Live}
use hft_sys.Pool.Linked.{Live-linked}
use hft_sys.Exchange.{OrdersAtPrice}
use hft_sys.Book.{Book, level_at, set_level}
use hft_sys.Book.Access.{bind-ok}
use hft_sys.Book.Rings.{
  with_levels, next_level, prev_level, read_level, write_level_next, write_level_prev, link_level,
}
use hft_sys.Book.Queue.{appended_next, appended_prev}
use hft_sys.Book.Levels.{insert_before, insert_after}

abbrev pub IsLevel : Book → ℕ → Type 0
IsLevel b i = (l : OrdersAtPrice) × Live b.level_pool i l

-- The links of the levels run through `first ∷ rest`, live ones of the book, and close.
pub record LevelRing (b : Book) (first : ℕ) (rest : List ℕ) : Type 0 where
  pub live : All (IsLevel b) (first ∷ rest)
  pub distinct : Distinct (first ∷ rest)
  pub ring : Chain (next_level b) (prev_level b) first rest first

links_there :
    (b : Book) (next prev : Link) (i : ℕ)
    → IsLevel b i
    → (next_level (with_levels b next prev) i ≡ next i)
      × (prev_level (with_levels b next prev) i ≡ prev i)
unfolding next_level prev_level
links_there b next prev i (o, l) =
    let held = (Live-linked link_level b.level_pool next prev i o l).holds in
    (rw (held) refl, rw (held) refl)

linked_levels :
    (b : Book) (next prev : Link) (xs : List ℕ)
    → All (IsLevel b) xs
    → All (IsLevel (with_levels b next prev)) xs
linked_levels b next prev [] h = tt
linked_levels b next prev (x ∷ xs) ((o, l), rest) =
    ((_, Live-linked link_level b.level_pool next prev x o l), linked_levels b next prev xs rest)

-- A ring of the links that a book is given.
pub LevelRing-linked :
    (b : Book) (next prev : Link) (first : ℕ) (rest : List ℕ)
    → All (IsLevel b) (first ∷ rest)
    → Distinct (first ∷ rest)
    → Chain next prev first rest first
    → LevelRing (with_levels b next prev) first rest
LevelRing-linked b next prev first rest live distinct ring = record {
  live = linked_levels b next prev (first ∷ rest) live;
  distinct = distinct;
  ring =
      Chain-agree (IsLevel b) next prev _ _ (links_there b next prev) first rest first live live.0
        ring;
}

module _ (b : Book) (next prev : Link) (z n s : ℕ) (lz ln ls : OrdersAtPrice)
    (z_live : Live b.level_pool z lz) (n_live : Live b.level_pool n ln)
    (s_live : Live b.level_pool s ls) where
  pub insert_before-linked :
      prev s ≡ some z
      → n ≢ s
      → insert_before (some n) (some s) (with_levels b next prev)
        ≡ ok (tt, with_levels b (appended_next next s z n) (appended_prev prev s z n))
  unfolding insert_before
  insert_before-linked from new =
      let next1 = update next n (some s) in
      let prev1 = update prev n (prev s) in
      bind-ok (set_level (some n) _) _ _
        (write_level_next b next prev (some n) n ln refl n_live (some s))
      ∙ bind-ok (level_at (some s)) _ _ (read_level b next1 prev (some s) s ls refl s_live)
      ∙ bind-ok (set_level (some n) _) _ _
          (write_level_prev b next1 prev (some n) n ln refl n_live (prev s))
      ∙ bind-ok (set_level (prev s) _) _ _
          (write_level_next b next1 prev1 (prev s) z lz from z_live (some n))
      ∙ write_level_prev b (update next1 z (some n)) prev1 (some s) s ls refl s_live (some n)
      ∙ ap
          (λ p.
            ok (tt, with_levels b (update next1 z (some n)) (update (update prev n p) s (some n))))
          from

  pub insert_after-linked :
      next z ≡ some s
      → n ≢ z
      → insert_after (some n) (some z) (with_levels b next prev)
        ≡ ok (tt, with_levels b (appended_next next s z n) (appended_prev prev s z n))
  unfolding insert_after
  insert_after-linked to new =
      let prev1 = update prev n (some z) in
      let next1 = update next n (next z) in
      bind-ok (set_level (some n) _) _ _
        (write_level_prev b next prev (some n) n ln refl n_live (some z))
      ∙ bind-ok (level_at (some z)) _ _ (read_level b next prev1 (some z) z lz refl z_live)
      ∙ bind-ok (set_level (some n) _) _ _
          (write_level_next b next prev1 (some n) n ln refl n_live (next z))
      ∙ bind-ok (set_level (next z) _) _ _
          (write_level_prev b next1 prev1 (next z) s ls to s_live (some n))
      ∙ write_level_next b next1 (update prev1 s (some n)) (some z) z lz refl z_live (some n)
      ∙ ap
          (λ p.
            ok (tt, with_levels b (update (update next n p) z (some n)) (update prev1 s (some n))))
          to
