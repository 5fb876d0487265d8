-- ===== src/Common/Ring.antt =====
-- Doubly linked rings: chains of nodes along two functions, `next` and `prev`, and what a node that is put
-- in or taken out does to them.
pub mod Splice
pub mod Fits
use hft_sys.Common.{ℕ, ◌≡◌, ◌≢◌, ◌∙◌, Option, some, List, [], ◌∷◌, ◌++◌, All}

abbrev pub Link : Type 0
Link = ℕ → Option ℕ

-- From `a` along `next` through `xs` to `z`, and back along `prev`.
abbrev pub Chain : Link → Link → ℕ → List ℕ → ℕ → Type 0
Chain next prev a [] z = (next a ≡ some z) × (prev z ≡ some a)
Chain next prev a (x ∷ xs) z = (next a ≡ some x) × (prev x ≡ some a) × Chain next prev x xs z

abbrev pub Absent : ℕ → List ℕ → Type 0
Absent n [] = Unit
Absent n (x ∷ xs) = (n ≢ x) × Absent n xs

abbrev pub Distinct : List ℕ → Type 0
Distinct [] = Unit
Distinct (x ∷ xs) = Absent x xs × Distinct xs

-- The last one of `a ∷ xs`.
abbrev pub last : ℕ → List ℕ → ℕ
last a [] = a
last a (x ∷ xs) = last x xs

pub Absent-last : (n a : ℕ) (xs : List ℕ) → Absent n (a ∷ xs) → n ≢ last a xs
Absent-last n a [] h = h.0
Absent-last n a (x ∷ xs) h = Absent-last n x xs h.1

pub Absent-append : (n : ℕ) (xs ys : List ℕ) → Absent n xs → Absent n ys → Absent n (xs ++ ys)
Absent-append n [] ys h k = k
Absent-append n (x ∷ xs) ys h k = (h.0, Absent-append n xs ys h.1 k)

pub Absent-left : (n : ℕ) (xs ys : List ℕ) → Absent n (xs ++ ys) → Absent n xs
Absent-left n [] ys h = tt
Absent-left n (x ∷ xs) ys h = (h.0, Absent-left n xs ys h.1)

pub Absent-right : (n : ℕ) (xs ys : List ℕ) → Absent n (xs ++ ys) → Absent n ys
Absent-right n [] ys h = h
Absent-right n (x ∷ xs) ys h = Absent-right n xs ys h.1

pub prev-last :
    (next prev : Link) (a : ℕ) (xs : List ℕ) (z : ℕ)
    → Chain next prev a xs z
    → prev z ≡ some (last a xs)
prev-last next prev a [] z h = h.1
prev-last next prev a (x ∷ xs) z h = prev-last next prev x xs z h.2

pub Chain-append :
    (next prev : Link) (a : ℕ) (xs : List ℕ) (m : ℕ) (ys : List ℕ) (z : ℕ)
    → Chain next prev a xs m
    → Chain next prev m ys z
    → Chain next prev a (xs ++ m ∷ ys) z
Chain-append next prev a [] m ys z h k = (h.0, h.1, k)
Chain-append next prev a (x ∷ xs) m ys z h k = (h.0, h.1, Chain-append next prev x xs m ys z h.2 k)

pub Chain-split :
    (next prev : Link) (a : ℕ) (xs : List ℕ) (m : ℕ) (ys : List ℕ) (z : ℕ)
    → Chain next prev a (xs ++ m ∷ ys) z
    → Chain next prev a xs m × Chain next prev m ys z
Chain-split next prev a [] m ys z h = ((h.0, h.1), h.2)
Chain-split next prev a (x ∷ xs) m ys z h =
    let (k, l) = Chain-split next prev x xs m ys z h.2 in ((h.0, h.1, k), l)

-- Links that agree on the nodes of a chain, all of which satisfy `Q`.
pub Chain-agree :
    (Q : ℕ → Type 0) (next prev next' prev' : Link)
    → ((i : ℕ) → Q i → (next' i ≡ next i) × (prev' i ≡ prev i))
    → (a : ℕ) (xs : List ℕ) (z : ℕ) → All Q (a ∷ xs)
    → Q z
    → Chain next prev a xs z
    → Chain next' prev' a xs z
Chain-agree Q next prev next' prev' agree a [] z h k c =
    ((agree a h.0).0 ∙ c.0, (agree z k).1 ∙ c.1)
Chain-agree Q next prev next' prev' agree a (x ∷ xs) z h k c = (
  (agree a h.0).0 ∙ c.0,
  (agree x h.1.0).1 ∙ c.1,
  Chain-agree Q next prev next' prev' agree x xs z h.1 k c.2,
)
