-- ===== src/LfQueue/Fifo.antt =====
-- The contract of LFQueue, and that its methods keep it: a FIFO of at most `capacity` elements.
use hft_sys.Common.{
  ℕ, ◌≡◌, refl, subst, ◌∙◌, List, [], ◌∷◌, ◌++◌, arith, Option, none, some, Bool, true, false,
  dec_lt, ltb, if◌then◌else◌, lt→ltb, le→ltb, Result, ok, ◌>>=◌, length,
}
use hft_sys.LfQueue.{Queue, push, pop}
use hft_sys.LfQueue.Refine.{IsValid, contents, push-full, push-room, pop-empty, pop-some}
use hft_sys.LfQueue.Window.{length-window}

-- What one side asks of the queue, and the answer.
pub data Call (A : Type 0) : Type 0 where
  send : A → Call A
  receive : Call A

pub data Answer (A : Type 0) : Type 0 where
  sent : Bool → Answer A
  received : Option A → Answer A

module _ {A : Type 0} where
  pub call : Call A → Queue A → Result (Answer A × Queue A)
  call (send v) q = let (done, q') = push v q in ok (sent done, q')
  call receive q = do (out, q') ← pop q; ok (received out, q')

  pub run : List (Call A) → Queue A → Result (List (Answer A) × Queue A)
  run [] q = ok ([], q)
  run (c ∷ cs) q = do (a, q') ← call c q; (as', r) ← run cs q'; ok (a ∷ as', r)

  -- The abstract queue: a list of at most `capacity` elements, oldest first.
  pub fifo_step : ℕ → Call A → List A → Answer A × List A
  fifo_step capacity (send v) xs =
      if ltb (length xs) capacity then (sent true, xs ++ v ∷ []) else (sent false, xs)
  fifo_step capacity receive [] = (received none, [])
  fifo_step capacity receive (x ∷ xs) = (received (some x), xs)

  pub fifo : ℕ → List (Call A) → List A → List (Answer A) × List A
  fifo capacity [] xs = ([], xs)
  fifo capacity (c ∷ cs) xs =
      let (a, ys) = fifo_step capacity c xs in let (as', zs) = fifo capacity cs ys in (a ∷ as', zs)

  -- One call, and the abstract step that it makes.
  record Steps (c : Call A) (q q' : Queue A) (a : Answer A) : Type 0 where
    runs : call c q ≡ ok (a, q')
    valid : IsValid q'
    same_capacity : q'.capacity ≡ q.capacity
    abstract_step : fifo_step q.capacity c (contents q) ≡ (a, contents q')

  pub length-contents : (q : Queue A) → length (contents q) ≡ q.num_elements
  length-contents q = length-window q.capacity q.slots q.next_to_read q.num_elements

  pub contents-empty : (q : Queue A) → q.num_elements ≡ 0 → contents q ≡ []
  contents-empty q e = nothing (contents q) (length-contents q ∙ e)
    where
      nothing : (xs : List A) → length xs ≡ 0 → xs ≡ []
      nothing [] h = refl
      nothing (x ∷ xs) h = absurd (omega arith)

  call-Steps :
      (c : Call A) (q : Queue A) → IsValid q → (q' : Queue A) × (a : Answer A) × Steps c q q' a
  unfolding call fifo_step
  call-Steps (send v) q val = elim (dec_lt q.num_elements q.capacity) [
    | yes room ↦
        let (q', p) = push-room v q val room in
        (
          q',
          sent true,
          record {
            runs = rw p.run refl;
            valid = p.valid;
            same_capacity = p.same_capacity;
            abstract_step = rw (length-contents q, lt→ltb _ _ room, p.contents_lem) refl;
          },
        )
    | no full ↦ (
      q,
      sent false,
      record {
        runs = rw (push-full v q (omega arith)) refl;
        valid = val;
        same_capacity = refl;
        abstract_step = rw (length-contents q, le→ltb q.num_elements q.capacity (omega arith)) refl;
      },
    )
  ]
  call-Steps receive q val = elim (dec_lt 0 q.num_elements) [
    | yes some_in ↦
        let (q', p) = pop-some q val some_in in
        (
          q',
          received (some p.head),
          record {
            runs = rw p.run refl;
            valid = p.valid;
            same_capacity = p.same_capacity;
            abstract_step = rw p.contents_lem refl;
          },
        )
    | no empty ↦
        let e : q.num_elements ≡ 0 = omega arith in
        (
          q,
          received none,
          record {
            runs = rw (pop-empty q e) refl;
            valid = val;
            same_capacity = refl;
            abstract_step = rw (contents-empty q e) refl;
          },
        )
  ]

  fifo-cons :
      (n m : ℕ) (c : Call A) (cs : List (Call A)) (xs : List A) {ys : List A} {a : Answer A}
      {out : List (Answer A) × List A}
      → fifo_step n c xs ≡ (a, ys)
      → m ≡ n
      → fifo m cs ys ≡ out
      → fifo n (c ∷ cs) xs ≡ (a ∷ out.0, out.1)
  unfolding fifo
  fifo-cons n m c cs xs {ys} {out} step same rest =
      let there : fifo n cs ys ≡ out = subst (λ k. fifo k cs ys ≡ out) same rest in
      rw (step, there) refl

  -- Any row of calls on a valid queue runs without a fault, and its answers and what is left in the
  -- queue are those of a FIFO list bounded by the capacity.
  pub run-refines :
      (cs : List (Call A)) (q : Queue A)
      → IsValid q
      → (q' : Queue A) × (as' : List (Answer A)) × (run cs q ≡ ok (as', q'))
        × IsValid q'
        × (fifo q.capacity cs (contents q) ≡ (as', contents q'))
  unfolding run fifo
  run-refines [] q val = (q, [], refl, val, refl)
  run-refines (c ∷ cs) q val =
      let (q', a, s) = call-Steps c q val in
      let (r, as', runs, valid, same) = run-refines cs q' s.valid in
      (
        r,
        a ∷ as',
        rw (s.runs, runs) refl,
        valid,
        fifo-cons q.capacity q'.capacity c cs (contents q) s.abstract_step s.same_capacity same,
      )
