-- ===== src/Book/ElsewhereLevels.antt =====
-- Rings of levels under a change of the pool of levels at one block that is not in the ring.
use hft_sys.Common.{ℕ, ◌≡◌, ◌≢◌, ◌<◌, refl, sym, ap, ◌∙◌, subst, none, List, [], ◌∷◌, All}
use hft_sys.Common.Ring.{Absent, Chain-agree}
use hft_sys.Book.{Book}
use hft_sys.Book.Rings.{next_level, prev_level}
use hft_sys.Book.LevelRings.{IsLevel, LevelRing}

-- A live level stands where no free block is.
pub Absent-free_level :
    (b : Book) (n : ℕ) (xs : List ℕ)
    → b.level_pool.blocks n ≡ none
    → All (IsLevel b) xs
    → Absent n xs
Absent-free_level b n [] free h = tt
Absent-free_level b n (x ∷ xs) free ((l, live), rest) =
    let held = live.holds in
    ((λ e. cc (ap b.level_pool.blocks e)), Absent-free_level b n xs free rest)

-- The levels of `c` are those of `b`, away from `l`.
module _ (b c : Book) (l : ℕ)
    (same : (i : ℕ) → i ≢ l → c.level_pool.blocks i ≡ b.level_pool.blocks i)
    (same_size : c.level_pool.size ≡ b.level_pool.size) where
  abbrev Away : ℕ → Type 0
  Away i = IsLevel b i × (l ≢ i)

  kept-IsLevel : (i : ℕ) → Away i → IsLevel c i
  kept-IsLevel i ((x, live), away) = (
    x,
    record {
      in_pool = subst (λ s. i < s) (sym same_size) live.in_pool;
      holds = same i (λ e. away (sym e)) ∙ live.holds;
    },
  )

  kept_links :
      (i : ℕ) → Away i → (next_level c i ≡ next_level b i) × (prev_level c i ≡ prev_level b i)
  unfolding next_level prev_level
  kept_links i (_, away) = let e = same i (λ k. away (sym k)) in (rw (e) refl, rw (e) refl)

  All-kept : (xs : List ℕ) → All Away xs → All (IsLevel c) xs
  All-kept [] h = tt
  All-kept (x ∷ xs) h = (kept-IsLevel x h.0, All-kept xs h.1)

  All-Away : (xs : List ℕ) → All (IsLevel b) xs → Absent l xs → All Away xs
  All-Away [] h k = tt
  All-Away (x ∷ xs) h k = ((h.0, k.0), All-Away xs h.1 k.1)

  pub LevelRing-elsewhere :
      (first : ℕ) (rest : List ℕ)
      → Absent l (first ∷ rest)
      → LevelRing b first rest
      → LevelRing c first rest
  LevelRing-elsewhere first rest absent r =
      let away = All-Away (first ∷ rest) r.live absent in
      record {
        live = All-kept (first ∷ rest) away;
        distinct = r.distinct;
        ring =
            Chain-agree Away (next_level b) (prev_level b) _ _ kept_links first rest first away
              away.0 r.ring;
      }
