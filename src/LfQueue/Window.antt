-- ===== src/LfQueue/Window.antt =====
-- The entries of a ring of `size` slots from an index on.
use hft_sys.Common.{
  ℕ, zero, suc, ◌+◌, ◌%◌, ◌<◌, ◌≤◌, ◌≡◌, refl, sym, ap, ◌∙◌, List, [], ◌∷◌, ◌++◌, arith, update,
  update_ne, length,
}
use hft_sys.Common.Rounds.{suc-mod, round-ne_mod}

module _ {ℓ} {A : Type ℓ} (size : ℕ) where
  -- The `n` entries from index `b` on.
  abbrev pub window : (ℕ → A) → ℕ → ℕ → List A
  window slots b zero = []
  window slots b (suc n) = slots (b % size) ∷ window slots (suc b) n

  pub length-window : (slots : ℕ → A) (b n : ℕ) → length (window slots b n) ≡ n
  length-window slots b zero = refl
  length-window slots b (suc n) = ap suc (length-window slots (suc b) n)

  pub window-mod :
      (slots : ℕ → A) (n a b : ℕ) → a % size ≡ b % size → window slots a n ≡ window slots b n
  window-mod slots zero a b e = refl
  window-mod slots (suc n) a b e =
      λ i. slots (e i) ∷ window-mod slots n (suc a) (suc b) (suc-mod size a b e) i

  -- A write to a slot outside a window leaves the window alone.
  pub window-update :
      (slots : ℕ → A) (v : A) (i n b k : ℕ)
      → i ≡ (b + k) % size
      → n ≤ k
      → k < size
      → window (update slots i v) b n ≡ window slots b n
  window-update slots v i zero b k e h small = refl
  window-update slots v i (suc n) b zero e h small = absurd (omega arith)
  window-update slots v i (suc n) b (suc k) e h small = λ j.
      update_ne slots i v (b % size) (λ q. round-ne_mod size b k small (sym (q ∙ e))) j
      ∷ window-update slots v i n (suc b) k (e ∙ ap (λ x. x % size) (omega arith)) (omega arith)
          (omega arith) j

  -- A window grows at its end.
  pub window-suc :
      (slots : ℕ → A) (n b : ℕ)
      → window slots b (suc n) ≡ window slots b n ++ slots ((b + n) % size) ∷ []
  window-suc slots zero b = λ j. slots (ap (λ x. x % size) (same b) j) ∷ []
    where
      same : (b : ℕ) → b ≡ b + 0
      same b = omega arith
  window-suc slots (suc n) b =
      ap (λ xs. slots (b % size) ∷ xs)
        (window-suc slots n (suc b)
          ∙ ap (λ x. window slots (suc b) n ++ slots (x % size) ∷ []) (shift b n))
    where
      shift : (b n : ℕ) → suc b + n ≡ b + suc n
      shift b n = omega arith
