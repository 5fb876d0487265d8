-- ===== src/Pool/Linked.antt =====
-- A pool of nodes with two links: the pool with its links given as functions, and writes to one link.
use hft_sys.Common.{
  ℕ, ◌≡◌, sym, ap, ◌∙◌, fun_ext, Option, none, some, arith, update, Option-cases, inl, inr,
}
use hft_sys.Common.Ring.{Link}
use hft_sys.Pool.{Pool}
use hft_sys.Pool.Access.{Live, written}

-- `link a n p` is `a` with the links `n` and `p`.
module _ {A : Type 0} (link : A → Option ℕ → Option ℕ → A) where
  relink : Option A → Option ℕ → Option ℕ → Option A
  relink none n p = none
  relink (some a) n p = some (link a n p)

  -- The pool `q` with the links `next` and `prev` in its nodes.
  unfoldable pub linked : Pool A → Link → Link → Pool A
  unfolding relink
  linked q next prev = record q { blocks = λ i. relink (q.blocks i) (next i) (prev i) }

  pub Live-linked :
      (q : Pool A) (next prev : Link) (i : ℕ) (a : A)
      → Live q i a
      → Live (linked q next prev) i (link a (next i) (prev i))
  unfolding linked
  Live-linked q next prev i a l = record {
    in_pool = l.in_pool;
    holds = ap (λ b. relink b (next i) (prev i)) l.holds;
  }

  -- The block `i` written with new links.
  relink-update :
      (q : Pool A) (next prev : Link) (i : ℕ) (a : A) (n p : Option ℕ)
      → q.blocks i ≡ some a
      → (j : ℕ)
      → update (linked q next prev).blocks i (some (link a n p)) j
        ≡ relink (q.blocks j) (update next i n j) (update prev i p j)
  unfolding linked
  relink-update q next prev i a n p h j = ground (arith, h)

  -- Both links of a node written.
  pub written_links :
      (q : Pool A) (next prev : Link) (i : ℕ) (a : A) (n p : Option ℕ)
      → Live q i a
      → written (linked q next prev) i (link a n p) ≡ linked q (update next i n) (update prev i p)
  unfolding linked
  written_links q next prev i a n p l =
      ap (λ f. record q { blocks = f }) (fun_ext (relink-update q next prev i a n p l.holds))

  update_same : (f : Link) (i : ℕ) → update f i (f i) ≡ f
  update_same f i = fun_ext λ j. ground arith

  pub written_next :
      (q : Pool A) (next prev : Link) (i : ℕ) (a : A) (v : Option ℕ)
      → Live q i a
      → written (linked q next prev) i (link a v (prev i)) ≡ linked q (update next i v) prev
  written_next q next prev i a v l =
      written_links q next prev i a v (prev i) l
      ∙ ap (λ f. linked q (update next i v) f) (update_same prev i)

  pub written_prev :
      (q : Pool A) (next prev : Link) (i : ℕ) (a : A) (v : Option ℕ)
      → Live q i a
      → written (linked q next prev) i (link a (next i) v) ≡ linked q next (update prev i v)
  written_prev q next prev i a v l =
      written_links q next prev i a (next i) v l
      ∙ ap (λ f. linked q f (update prev i v)) (update_same next i)

  -- A pool whose nodes have these links already.
  pub linked_self :
      (q : Pool A) (next prev : Link)
      → ((i : ℕ) (a : A) → q.blocks i ≡ some a → link a (next i) (prev i) ≡ a)
      → linked q next prev ≡ q
  unfolding linked
  linked_self q next prev h =
      ap (λ f. record q { blocks = f })
        (fun_ext λ i. elim (Option-cases (q.blocks i)) [
          | inl e ↦ ap (λ b. relink b (next i) (prev i)) e ∙ sym e
          | inr (a, e) ↦ ap (λ b. relink b (next i) (prev i)) e ∙ ap some (h i a e) ∙ sym e
        ])
