-- ===== src/LfQueue/Reading.antt =====
-- A consumer that takes the pointer of `getNextToRead` and calls `updateReadIndex` itself.
use hft_sys.Common.{
  ◌-◌, ◌%◌, ◌<◌, ◌≡◌, sym, ap, ◌∙◌, ◌∷◌, arith, Option, none, some, add_size, Result, ok, fail,
}
use hft_sys.LfQueue.{Queue, pop, get_next_to_read, update_read_index}
use hft_sys.LfQueue.Refine.{IsValid, contents, pop-some}

-- The read and the step of the read index, as the loop makes them one by one.
pub record Read {A : Type 0} (q : Queue A) : Type 0 where
  pub after : Queue A
  pub slot : get_next_to_read q ≡ some q.next_to_read
  pub step : update_read_index q ≡ ok after
  pub valid : IsValid after
  pub contents_lem : contents q ≡ q.slots q.next_to_read ∷ contents after

module _ {A : Type 0} where
  abbrev advanced : Queue A → Queue A
  advanced q = record q {
    next_to_read = add_size q.next_to_read 1 % q.capacity;
    num_elements = q.num_elements - 1;
  }

  abbrev queue_of : Queue A → Result (Option A × Queue A) → Queue A
  queue_of q (ok (_, q')) = q'
  queue_of q (fail _) = q

  abbrev head_of : A → Result (Option A × Queue A) → A
  head_of x (ok (some y, _)) = y
  head_of x (ok (none, _)) = x
  head_of x (fail _) = x

  pub queue-Read : (q : Queue A) → IsValid q → 0 < q.num_elements → Read q
  unfolding pop get_next_to_read update_read_index
  queue-Read q val some_in =
      let (q', p) = pop-some q val some_in in
      let here : pop q ≡ ok (some (q.slots q.next_to_read), advanced q) = ground arith in
      let step : update_read_index q ≡ ok (advanced q) = ground arith in
      let same = sym here ∙ p.run in
      record {
        after = q';
        slot = ground arith;
        step = step ∙ (ap (λ r. ok (queue_of q r)) same);
        valid = p.valid;
        contents_lem =
            p.contents_lem ∙ ap (λ x. x ∷ contents q') (ap (λ r. head_of p.head r) (sym same));
      }

pub read-none : {A : Type 0} (q : Queue A) → q.num_elements ≡ 0 → get_next_to_read q ≡ none
unfolding get_next_to_read
read-none q e = ground arith
