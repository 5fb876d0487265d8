-- ===== src/Common/Ring/Splice.antt =====
-- What writes to the links do to a chain: a write elsewhere, a new end, a node put in, a node taken out.
use hft_sys.Common.{
  ℕ, ◌≡◌, ◌≢◌, sym, subst, ◌∙◌, Option, some, List, [], ◌∷◌, ◌++◌, update, update_self, update_ne,
  append-nil,
}
use hft_sys.Common.Ring.{
  Link, Chain, Absent, Distinct, last, Absent-last, Absent-append, Absent-left, Absent-right,
  Chain-append, Chain-split,
}

-- A write to `next` of a node that is not on the way.
pub frame_next :
    (next prev : Link) (y : ℕ) (v : Option ℕ) (a : ℕ) (xs : List ℕ) (z : ℕ)
    → Absent y (a ∷ xs)
    → Chain next prev a xs z
    → Chain (update next y v) prev a xs z
frame_next next prev y v a [] z h c = (update_ne next y v a (λ e. h.0 (sym e)) ∙ c.0, c.1)
frame_next next prev y v a (x ∷ xs) z h c =
    (update_ne next y v a (λ e. h.0 (sym e)) ∙ c.0, c.1, frame_next next prev y v x xs z h.1 c.2)

-- A write to `prev` of a node that is not behind another on the way.
pub frame_prev :
    (next prev : Link) (y : ℕ) (v : Option ℕ) (a : ℕ) (xs : List ℕ) (z : ℕ)
    → Absent y xs
    → y ≢ z
    → Chain next prev a xs z
    → Chain next (update prev y v) a xs z
frame_prev next prev y v a [] z h k c = (c.0, update_ne prev y v z (λ e. k (sym e)) ∙ c.1)
frame_prev next prev y v a (x ∷ xs) z h k c =
    (c.0, update_ne prev y v x (λ e. h.0 (sym e)) ∙ c.1, frame_prev next prev y v x xs z h.1 k c.2)

-- The last node of a chain is linked to another end.
pub retarget :
    (next prev : Link) (a : ℕ) (xs : List ℕ) (z e : ℕ)
    → Distinct (a ∷ xs)
    → Absent e xs
    → Chain next prev a xs z
    → Chain (update next (last a xs) (some e)) (update prev e (some (last a xs))) a xs e
retarget next prev a [] z e d h c = (update_self next a (some e), update_self prev e (some a))
retarget next prev a (x ∷ xs) z e d h c =
    let away = Absent-last a x xs d.0 in
    (
      update_ne next (last x xs) (some e) a away ∙ c.0,
      update_ne prev e (some (last x xs)) x (λ k. h.0 (sym k)) ∙ c.1,
      retarget next prev x xs z e d.1 h.1 c.2,
    )

-- A node `n` behind the last one of a chain to `e`.
pub Chain-snoc :
    (next prev : Link) (a : ℕ) (xs : List ℕ) (e n : ℕ)
    → Distinct (a ∷ xs)
    → Absent n (a ∷ xs)
    → Absent e xs
    → n ≢ e
    → Chain next prev a xs e
    → Chain
        (update (update next n (some e)) (last a xs) (some n))
        (update (update prev n (some (last a xs))) e (some n))
        a
        (xs ++ n ∷ [])
        e
Chain-snoc next prev a xs e n d h k away c =
    let z = last a xs in
    let behind = Absent-last n a xs h in
    let moved =
      retarget (update next n (some e)) prev a xs e n d h.1
        (frame_next next prev n (some e) a xs e h c) in
    Chain-append _ _ a xs n [] e
      (frame_prev _ (update prev n (some z)) e (some n) a xs n k (λ i. away (sym i)) moved)
      (
        update_ne (update next n (some e)) z (some n) n behind ∙ update_self next n (some e),
        update_self (update prev n (some z)) e (some n),
      )

-- The node that follows `ys`, or the end.
abbrev pub first : List ℕ → ℕ → ℕ
first [] e = e
first (y ∷ ys) e = y

Distinct-left : (xs ys : List ℕ) → Distinct (xs ++ ys) → Distinct xs
Distinct-left [] ys d = tt
Distinct-left (x ∷ xs) ys d = (Absent-left x xs ys d.0, Distinct-left xs ys d.1)

pub Distinct-right : (xs ys : List ℕ) → Distinct (xs ++ ys) → Distinct ys
Distinct-right [] ys d = d
Distinct-right (x ∷ xs) ys d = Distinct-right xs ys d.1

pub Distinct-without :
    (xs : List ℕ) (n : ℕ) (ys : List ℕ) → Distinct (xs ++ n ∷ ys) → Distinct (xs ++ ys)
Distinct-without [] n ys d = d.1
Distinct-without (x ∷ xs) n ys d = (
  Absent-append x xs ys (Absent-left x xs (n ∷ ys) d.0) (Absent-right x xs (n ∷ ys) d.0).1,
  Distinct-without xs n ys d.1,
)

-- A new node among different ones.
pub Distinct-with :
    (xs : List ℕ) (n : ℕ) (ys : List ℕ)
    → Distinct (xs ++ ys)
    → Absent n (xs ++ ys)
    → Distinct (xs ++ n ∷ ys)
Distinct-with [] n ys d h = (h, d)
Distinct-with (x ∷ xs) n ys d h = (
  Absent-append x xs (n ∷ ys) (Absent-left x xs ys d.0)
      ((λ e. h.0 (sym e)), Absent-right x xs ys d.0),
  Distinct-with xs n ys d.1 h.1,
)

-- A node further on is none of those before.
pub Distinct-before :
    (xs ws : List ℕ) (m : ℕ) (ys : List ℕ) → Distinct (xs ++ (ws ++ m ∷ ys)) → Absent m xs
Distinct-before [] ws m ys d = tt
Distinct-before (x ∷ xs) ws m ys d = (
  λ e. (Absent-right x ws (m ∷ ys) (Absent-right x xs (ws ++ m ∷ ys) d.0)).0 (sym e),
  Distinct-before xs ws m ys d.1,
)

Distinct-last : (a : ℕ) (xs ys : List ℕ) → Distinct (a ∷ (xs ++ ys)) → Absent (last a xs) ys
Distinct-last a [] ys d = d.0
Distinct-last a (x ∷ xs) ys d = Distinct-last x xs ys d.1

pub next-head :
    (next prev : Link) (n : ℕ) (xs : List ℕ) (e : ℕ)
    → Chain next prev n xs e
    → next n ≡ some (first xs e)
next-head next prev n [] e c = c.0
next-head next prev n (x ∷ xs) e c = c.0

pub Absent-head : (n : ℕ) (xs : List ℕ) (e : ℕ) → Absent n xs → n ≢ e → n ≢ first xs e
Absent-head n [] e h k = k
Absent-head n (x ∷ xs) e h k = h.0

-- A node `n` taken out of a chain from `a` to `e`.
pub Chain-without :
    (next prev : Link) (a : ℕ) (xs : List ℕ) (n : ℕ) (ys : List ℕ) (e : ℕ)
    → Distinct (a ∷ (xs ++ n ∷ ys))
    → Absent e (xs ++ n ∷ ys)
    → Chain next prev a (xs ++ n ∷ ys) e
    → Chain
        (update next (last a xs) (some (first ys e)))
        (update prev (first ys e) (some (last a xs)))
        a
        (xs ++ ys)
        e
Chain-without next prev a xs n [] e d k c =
    subst (λ ws. Chain (update next (last a xs) (some e)) (update prev e (some (last a xs))) a ws e)
      (sym (append-nil xs))
      (retarget next prev a xs n e (Distinct-left (a ∷ xs) (n ∷ []) d) (Absent-left e xs (n ∷ []) k)
        (Chain-split next prev a xs n [] e c).0)
Chain-without next prev a xs n (y ∷ ys) e d k c =
    let (to_n, from_n) = Chain-split next prev a xs n (y ∷ ys) e c in
    let beyond = Distinct-right (a ∷ xs) (n ∷ y ∷ ys) d in
    let apart : y ≢ e = λ same. (Absent-right e xs (n ∷ y ∷ ys) k).1.0 (sym same) in
    Chain-append _ (update prev y (some (last a xs))) a xs y ys e
      (retarget next prev a xs n y (Distinct-left (a ∷ xs) (n ∷ y ∷ ys) d)
        (Distinct-before xs (n ∷ []) y ys d.1) to_n)
      (frame_prev _ prev y (some (last a xs)) y ys e beyond.1.0 apart
        (frame_next next prev (last a xs) _ y ys e (Distinct-last a xs (n ∷ y ∷ ys) d).1 from_n.2))

-- A node `n` put before `y`.
pub Chain-before :
    (next prev : Link) (a : ℕ) (us : List ℕ) (n y : ℕ) (vs : List ℕ) (e : ℕ)
    → Distinct (a ∷ (us ++ y ∷ vs))
    → Absent n (a ∷ (us ++ y ∷ vs))
    → Absent e (us ++ y ∷ vs)
    → n ≢ e
    → Chain next prev a (us ++ y ∷ vs) e
    → Chain
        (update (update next n (some y)) (last a us) (some n))
        (update (update prev n (some (last a us))) y (some n))
        a
        (us ++ n ∷ y ∷ vs)
        e
Chain-before next prev a us n y vs e d h k away c =
    let (to_y, from_y) = Chain-split next prev a us y vs e c in
    let z = last a us in
    let next1 = update next n (some y) in
    let prev1 = update prev n (some z) in
    let absent = Absent-right n us (y ∷ vs) h.1 in
    let beyond = (Distinct-right (a ∷ us) (y ∷ vs) d).0 in
    let apart : y ≢ e = λ same. (Absent-right e us (y ∷ vs) k).0 (sym same) in
    let behind : Chain (update next1 z (some n)) (update prev1 y (some n)) y vs e =
      frame_prev _ prev1 y (some n) y vs e beyond apart (
        frame_next next1 prev1 z (some n) y vs e (Distinct-last a us (y ∷ vs) d) (
          frame_prev next1 prev n (some z) y vs e absent.1 away
            (frame_next next prev n (some y) y vs e absent from_y))) in
    let ahead =
      Chain-snoc next prev a us y n (Distinct-left (a ∷ us) (y ∷ vs) d)
        (h.0, Absent-left n us (y ∷ vs) h.1) (Distinct-before us [] y vs d.1) absent.0 to_y in
    let (before_n, at_n) = Chain-split _ _ a us n [] y ahead in
    Chain-append _ _ a us n (y ∷ vs) e before_n (at_n.0, at_n.1, behind)
