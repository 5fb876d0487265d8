-- ===== src/Book/Heads.antt =====
-- Books whose levels differ only in the order that they lead to.
use hft_sys.Common.{
  ℕ, ◌≡◌, ◌<◌, refl, sym, ap, ap₂, ◌∙◌, subst, Option, some, none, List, [], ◌∷◌, All, Bool, true,
  false, update, update_self, update_ne, if◌then◌else◌, ℕ_discrete,
}
use hft_sys.Common.Ring.{Chain-agree}
use hft_sys.Pool.{Pool}
use hft_sys.Pool.Access.{Live, written}
use hft_sys.Exchange.{OrdersAtPrice, Side, is_buy}
use hft_sys.Book.{Book, same_pointer, best_of}
use hft_sys.Book.Rings.{next_level, prev_level}
use hft_sys.Book.LevelRings.{IsLevel}
use hft_sys.Book.Inserting.{HasLevels}
use hft_sys.Book.Unlinking.{moved_head}

abbrev pub without_head : Option OrdersAtPrice → Option OrdersAtPrice
without_head none = none
without_head (some l) = some (record l { order0 = none })

-- The levels, their index and the best ones are the same, but for the first orders of the levels.
pub record SameLevels (b b' : Book) : Type 0 where
  pub same_bids : b'.bids ≡ b.bids
  pub same_asks : b'.asks ≡ b.asks
  pub same_index : b'.price_levels ≡ b.price_levels
  pub same_size : b'.level_pool.size ≡ b.level_pool.size
  pub same_levels :
      (i : ℕ) → without_head (b'.level_pool.blocks i) ≡ without_head (b.level_pool.blocks i)

pub moved_head-same_size :
    (q : Pool OrdersAtPrice) (l : ℕ) (level : OrdersAtPrice) (n s : ℕ)
    → (moved_head q l level n s).size ≡ q.size
moved_head-same_size q l level n s = decided (same_pointer level.order0 (some n))
  where
    decided :
        (t : Bool) → (if t then written q l (record level { order0 = some s }) else q).size ≡ q.size
    decided true = refl
    decided false = refl

pub moved_head-same_levels :
    (q : Pool OrdersAtPrice) (l : ℕ) (level : OrdersAtPrice) (n s : ℕ)
    → Live q l level
    → (i : ℕ) → without_head ((moved_head q l level n s).blocks i) ≡ without_head (q.blocks i)
moved_head-same_levels q l level n s live i = decided (same_pointer level.order0 (some n))
  where
    decided :
        (t : Bool)
        → without_head ((if t then written q l (record level { order0 = some s }) else q).blocks i)
          ≡ without_head (q.blocks i)
    decided false = refl
    decided true = elim (ℕ_discrete i l) [
      | yes e ↦
          subst
            (λ j.
              without_head (update q.blocks l (some (record level { order0 = some s })) j)
              ≡ without_head (q.blocks j))
            (sym e)
            (ap without_head (update_self q.blocks l (some (record level { order0 = some s })))
              ∙ sym (ap without_head live.holds))
      | no away ↦
          ap without_head (update_ne q.blocks l (some (record level { order0 = some s })) i away)
    ]

-- A block that holds a level of the same links.
held_without :
    (x : Option OrdersAtPrice) (l : OrdersAtPrice)
    → without_head x ≡ without_head (some l)
    → (l' : OrdersAtPrice) × (x ≡ some l') × (l'.next ≡ l.next) × (l'.prev ≡ l.prev)
held_without none l e = absurd cc
held_without (some l') l e =
    let links : record l' { order0 = none } ≡ record l { order0 = none } = cc in
    (l', refl, ap (λ x. x.next) links, ap (λ x. x.prev) links)

module _ (b b' : Book) (same : SameLevels b b') where
  SameLevels-IsLevel :
      (i : ℕ)
      → IsLevel b i
      → (IsLevel b' i) × (next_level b' i ≡ next_level b i) × (prev_level b' i ≡ prev_level b i)
  unfolding next_level prev_level
  SameLevels-IsLevel i (l, live) =
      let held = live.holds in
      let (l', held', next, prev) =
        held_without (b'.level_pool.blocks i) l (same.same_levels i ∙ ap without_head held) in
      (
        (
          l',
          record { in_pool = subst (λ n. i < n) (sym same.same_size) live.in_pool; holds = held' },
        ),
        rw (held', held) next,
        rw (held', held) prev,
      )

  All-IsLevel : (xs : List ℕ) → All (IsLevel b) xs → All (IsLevel b') xs
  All-IsLevel [] h = tt
  All-IsLevel (x ∷ xs) h = ((SameLevels-IsLevel x h.0).0, All-IsLevel xs h.1)

  best-same : (side : Side) → best_of side b' ≡ best_of side b
  best-same side = ap₂ (λ p q. if is_buy side then p else q) same.same_bids same.same_asks

  pub HasLevels-SameLevels :
      (side : Side) (xs : List ℕ) → HasLevels b side xs → HasLevels b' side xs
  HasLevels-SameLevels side [] h = best-same side ∙ h
  HasLevels-SameLevels side (x ∷ xs) (best, r) = (
    best-same side ∙ best,
    record {
      live = All-IsLevel (x ∷ xs) r.live;
      distinct = r.distinct;
      ring =
          Chain-agree (IsLevel b) (next_level b) (prev_level b) _ _
            (λ i h. let (_, n, p) = SameLevels-IsLevel i h in (n, p)) x xs x r.live r.live.0 r.ring;
    },
  )
