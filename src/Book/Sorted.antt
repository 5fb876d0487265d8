-- ===== src/Book/Sorted.antt =====
-- The validity check of `OrderBook::toString` against the order of the prices along the rings of levels.
use hft_sys.Common.{
  ℕ, zero, suc, ◌≡◌, refl, sym, subst, Option, none, some, Bool, true, false, not, List, [], ◌∷◌,
  ◌++◌, if◌then◌else◌, Result, ok, fail, ◌>>=◌, arith, add_size,
}
use hft_sys.Common.Int.{ℤ, ◌<ℤ◌}
use hft_sys.Text.{Text, codes, to_string}
use hft_sys.Exchange.{OrdersAtPrice, Side}
use hft_sys.Book.{Book, same_pointer}
use hft_sys.Book.Printing.{
  Printed, text, thrown, level_of, print_level, is_sorted, not_sorted, print_levels, print_side,
  print_bids, book_to_string, level_to_str, least_price, greatest_price,
}

-- `p` is a worse price than `last`, for the side.
abbrev pub Behind : Side → ℤ → ℤ → Type 0
Behind Side.sell last p = last <ℤ p
Behind Side.buy last p = p <ℤ last
Behind _ last p = ⊥

-- Every price is worse than the one before, the first than `last`.
abbrev pub IsSortedFrom : Side → ℤ → List ℤ → Type 0
IsSortedFrom side last [] = Unit
IsSortedFrom side last (p ∷ ps) = Behind side last p × IsSortedFrom side p ps

-- The level behind `l` in the ring that starts at `first`, if it is not `first` itself.
abbrev pub next_in_ring : Option ℕ → OrdersAtPrice → Option ℕ
next_in_ring first l = if same_pointer l.next first then none else l.next

-- The prices along `next`, from `p` until the ring closes; at most `fuel` many.
unfoldable pub ring_prices : ℕ → Option ℕ → Option ℕ → Book → List ℤ
ring_prices fuel first none b = []
ring_prices zero first (some p) b = []
ring_prices (suc fuel) first (some p) b = elim (level_of (some p) b) [
  | fail _ ↦ []
  | ok l ↦ l.price ∷ ring_prices fuel first (next_in_ring first l) b
]

-- The prices of a side, the best one first.
abbrev pub side_prices : Option ℕ → Book → List ℤ
side_prices best b = ring_prices b.level_pool.size best best b

-- What the end of a printing says of `S`: a text that it holds, an exception that it does not.
abbrev pub Decides : Type 0 → Result Printed → Type 0
Decides S (ok (text _)) = S
Decides S (ok (thrown _)) = ¬ S
Decides S (fail _) = Unit

Decides-bind :
    {A : Type 0} (S : Type 0) (m : Result A) (f : A → Result Printed)
    → ((a : A) → m ≡ ok a → Decides S (f a))
    → Decides S (m >>= f)
Decides-bind S (ok a) f h = h a refl
Decides-bind S (fail e) f h = tt

Decides-not_sorted :
    (S : Type 0) (last : ℤ) (l : OrdersAtPrice) (b : Book) → ¬ S → Decides S (not_sorted last l b)
unfolding not_sorted
Decides-not_sorted S last l b h = Decides-bind S (level_to_str l b) _ λ t _. h

-- A verdict on the rest is one on the whole where the first part holds.
Decides-both : (R S : Type 0) (r : Result Printed) → R → Decides S r → Decides (R × S) r
Decides-both R S (ok (text _)) here h = (here, h)
Decides-both R S (ok (thrown _)) here h = λ both. h both.1
Decides-both R S (fail _) here h = tt

Behind-of_sorted : (side : Side) (last p : ℤ) → is_sorted side last p ≡ true → Behind side last p
Behind-of_sorted Side.sell last p h = ground arith
Behind-of_sorted Side.buy last p h = ground arith
Behind-of_sorted Side.invalid last p h = cc
Behind-of_sorted (Side.other _) last p h = cc

sorted_of-Behind : (side : Side) (last p : ℤ) → is_sorted side last p ≡ false → ¬ Behind side last p
sorted_of-Behind Side.sell last p h k = ground arith
sorted_of-Behind Side.buy last p h k = ground arith
sorted_of-Behind Side.invalid last p h k = k
sorted_of-Behind (Side.other _) last p h k = k

module _ (side : Side) (name : Text) (is_detailed : Bool) (first : Option ℕ) (b : Book) where
  ring_prices-some :
      (fuel p : ℕ) (l : OrdersAtPrice)
      → level_of (some p) b ≡ ok l
      → ring_prices (suc fuel) first (some p) b
        ≡ l.price ∷ ring_prices fuel first (next_in_ring first l) b
  unfolding ring_prices
  ring_prices-some fuel p l e = rw (e, ring_prices) refl

  print_levels-Decides :
      (fuel : ℕ) (p : Option ℕ) (last : ℤ) (count : ℕ) (out : Text)
      → Decides
          (IsSortedFrom side last (ring_prices fuel first p b))
          (print_levels fuel side name is_detailed true first p last count out b)
  unfolding print_levels ring_prices
  print_levels-Decides zero none last count out = tt
  print_levels-Decides (suc fuel) none last count out = tt
  print_levels-Decides zero (some p) last count out = tt
  print_levels-Decides (suc fuel) (some p) last count out =
      let S = IsSortedFrom side last (ring_prices (suc fuel) first (some p) b) in
      Decides-bind S (level_of (some p) b) _ λ l e.
        Decides-bind S (print_level is_detailed l b) _ λ printed _.
          let next = next_in_ring first l in
          let line = name ++ codes "[" ++ to_string count ++ codes "] => " ++ printed in
          let rest =
            print_levels fuel side name is_detailed true first next l.price (add_size count 1)
              (out ++ line) b in
          subst
            (λ ps.
              Decides (IsSortedFrom side last ps)
                (if not (is_sorted side last l.price) then not_sorted last l b else rest))
            (sym (ring_prices-some fuel p l e))
            (verdict (is_sorted side last l.price) l (ring_prices fuel first next b) rest refl
              (print_levels-Decides fuel next l.price (add_size count 1) (out ++ line)))
    where
      verdict :
          (t : Bool) (l : OrdersAtPrice) (ps : List ℤ) (rest : Result Printed)
          → is_sorted side last l.price ≡ t
          → Decides (IsSortedFrom side l.price ps) rest
          → Decides
              (IsSortedFrom side last (l.price ∷ ps))
              (if not t then not_sorted last l b else rest)
      verdict true l ps rest e h = Decides-both _ _ rest (Behind-of_sorted side last l.price e) h
      verdict false l ps rest e h =
          Decides-not_sorted _ last l b (λ s. sorted_of-Behind side last l.price e s.0)

-- Both sides of the book in the order of their prices, the best one first. The check compares the best prices too,
-- with the least and the greatest price: an ask at the one or a bid at the other is out of order for it.
abbrev pub SidesSorted : Book → Type 0
SidesSorted b =
    IsSortedFrom Side.sell least_price (side_prices b.asks b)
    × IsSortedFrom Side.buy greatest_price (side_prices b.bids b)

print_side-Decides :
    (side : Side) (name empty : Text) (start : ℤ) (is_detailed : Bool) (best : Option ℕ)
    (out : Text) (b : Book)
    → Decides
        (IsSortedFrom side start (side_prices best b))
        (print_side side name empty start is_detailed true best out b)
unfolding print_side ring_prices
print_side-Decides side name empty start is_detailed none out b = tt
print_side-Decides side name empty start is_detailed (some p) out b =
    print_levels-Decides side name is_detailed (some p) b b.level_pool.size (some p) start 0 out

-- A verdict on the first part, then one on the second where the first gave a text.
Decides-then :
    (R S : Type 0) (m : Result Printed) (f : Printed → Result Printed)
    → Decides R m
    → ((t : Text) → Decides S (f (text t)))
    → ((t : Text) → f (thrown t) ≡ ok (thrown t))
    → Decides (R × S) (m >>= f)
Decides-then R S (fail e) f h k l = tt
Decides-then R S (ok (text t)) f h k l = Decides-both R S (f (text t)) h (k t)
Decides-then R S (ok (thrown t)) f h k l =
    subst (λ r. Decides (R × S) r) (sym (l t)) (λ both. h both.0)

-- `toString` with the validity check: when it returns a text, the prices along the ring of asks rise
-- and those along the ring of bids fall, from the best one on; when it throws, they do not.
pub book_to_string-Decides :
    (is_detailed : Bool) (b : Book) → Decides (SidesSorted b) (book_to_string is_detailed true b)
unfolding book_to_string print_bids
book_to_string-Decides is_detailed b =
    Decides-then _ _ (print_side Side.sell _ _ least_price is_detailed true b.asks _ b)
      (print_bids is_detailed true b)
      (print_side-Decides Side.sell _ _ least_price is_detailed b.asks _ b)
      (λ t. print_side-Decides Side.buy _ _ greatest_price is_detailed b.bids _ b) (λ t. refl)
