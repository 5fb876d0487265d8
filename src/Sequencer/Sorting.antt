-- ===== src/Sequencer/Sorting.antt =====
-- What std::sort with the sequencer's comparison promises: the same entries, none before an earlier
-- one. It does not promise to keep the order of entries with equal times.
use mathlib.Core.List.{Perm}
use hft_sys.Common.{List, [], ◌∷◌, All}
use hft_sys.Common.Int.{◌<ℤ◌}
use hft_sys.Sequencer.{Pending}

-- No entry is received before one that stands ahead of it.
abbrev pub InTimeOrder : List Pending → Type 0
InTimeOrder [] = Unit
InTimeOrder (p ∷ ps) = All (λ q. ¬ (q.t_rx <ℤ p.t_rx)) ps × InTimeOrder ps

pub record StdSort : Type 0 where
  pub sort : List Pending → List Pending
  pub same_entries : (ps : List Pending) → Perm (sort ps) ps
  pub in_time_order : (ps : List Pending) → InTimeOrder (sort ps)
