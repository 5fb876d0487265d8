-- ===== src/Common/Rounds.antt =====
-- Indices that go round an array: `(i + 1) % size`.
use Prim.Native.Nat.{ℕ, suc, ◌+◌, ◌-◌, ◌%◌, ◌^◌, ◌≤◌, ◌<◌}
use mathlib.Core.Path.{◌≡◌, sym, ap, ◌∙◌}
use mathlib.Core.Logic.{◌≢◌}
use native.Mathlib.Nat.{mod-add-mod, mod-eq_of_lt, mod-eq-sub-mod}
use native.Mathlib.Decide.{dec_lt}
use hft_sys.Common.Tests.{add_size}
use native.Mathlib.Omega.{arith}

-- Fewer than `size` steps round do not come back to the start.
pub round-ne : (size s n : ℕ) → s < size → suc n < size → (s + suc n) % size ≢ s
round-ne size s n hs hn = elim (dec_lt (s + suc n) size) [
  | yes p ↦ omega (arith, mod-eq_of_lt p)
  | no p ↦ omega (
    arith,
    mod-eq-sub-mod {n = s + suc n} {m = size} (omega arith),
    mod-eq_of_lt {n = s + suc n - size} {m = size} (omega arith),
  )
]

-- One step round, with no wrap of `size_t`.
pub next-round :
    (size s n i : ℕ)
    → size ≤ 2 ^ 63
    → i < size
    → i ≡ (s + n) % size
    → add_size i 1 % size ≡ (s + suc n) % size
next-round size s n i small h e =
    ap (λ k. k % size) unwrapped
    ∙ (ap (λ k. (k + 1) % size) e ∙ (mod-add-mod (s + n) size 1 ∙ ap (λ k. k % size) (omega arith)))
  where
    unwrapped : add_size i 1 ≡ i + 1
    unwrapped = omega arith

-- The index after one that is known up to whole rounds.
pub suc-mod : (size a b : ℕ) → a % size ≡ b % size → suc a % size ≡ suc b % size
suc-mod size a b e =
    ap (λ k. k % size) (omega arith)
    ∙ (sym (mod-add-mod a size 1)
        ∙ (ap (λ k. (k + 1) % size) e ∙ (mod-add-mod b size 1 ∙ ap (λ k. k % size) (omega arith))))

-- The same for a start that is itself known up to whole rounds.
pub round-ne_mod : (size s n : ℕ) → suc n < size → (s + suc n) % size ≢ s % size
round-ne_mod size s n h e =
    round-ne size (s % size) n (omega arith) h (mod-add-mod s size (suc n) ∙ e)
