-- ===== src/LfQueue.antt =====
-- lib/lock_free_queue.h: `utils::LFQueue<T>`, each method as one step. LfQueue/Threads has the
-- atomic accesses of a producer and a consumer one by one.
pub mod Window
pub mod Refine
pub mod Fifo
pub mod Reading
pub mod Threads
pub mod Places
pub mod Producing
pub mod Consuming
pub mod Handover
use hft_sys.Common.{
  ℕ, suc, ◌+◌, ◌-◌, ◌%◌, ◌≡◌, Bool, true, false, Option, none, some, ltb, if◌then◌else◌, add_size,
  update, Result, ok, fail, terminated,
}

pub record Queue {ℓ} (A : Type ℓ) : Type ℓ where
  pub next_to_read : ℕ
  pub next_to_write : ℕ
  pub num_elements : ℕ
  pub slots : ℕ → A
  pub capacity : ℕ

module _ {ℓ} {A : Type ℓ} where
  -- `LFQueue(size)`: the vector's elements are copies of `T{}`.
  unfoldable pub new : A → ℕ → Queue A
  new default capacity = record {
    next_to_read = 0;
    next_to_write = 0;
    num_elements = 0;
    slots = λ _. default;
    capacity = capacity;
  }

  -- The index of the slot, in place of a pointer to it.
  unfoldable pub get_next_to_write : Queue A → Option ℕ
  get_next_to_write q = if ltb q.num_elements q.capacity then some q.next_to_write else none

  unfoldable pub update_write_index : Queue A → Queue A
  update_write_index q = record q {
    next_to_write = add_size q.next_to_write 1 % q.capacity;
    num_elements = add_size q.num_elements 1;
  }

  unfoldable pub push : A → Queue A → Bool × Queue A
  unfolding get_next_to_write update_write_index
  push value q = elim (get_next_to_write q) [
    | none ↦ (false, q)
    | some slot ↦ (true, update_write_index (record q { slots = update q.slots slot value }))
  ]

  unfoldable pub get_next_to_read : Queue A → Option ℕ
  get_next_to_read q = if ltb 0 q.num_elements then some q.next_to_read else none

  unfoldable pub update_read_index : Queue A → Result (Queue A)
  update_read_index q =
      if ltb 0 q.num_elements
      then ok (record q {
        next_to_read = add_size q.next_to_read 1 % q.capacity;
        num_elements = q.num_elements - 1;
      })
      else fail terminated

  unfoldable pub pop : Queue A → Result (Option A × Queue A)
  unfolding get_next_to_read update_read_index
  pop q = elim (get_next_to_read q) [
    | none ↦ ok (none, q)
    | some slot ↦ elim (update_read_index q) [
      | fail e ↦ fail e
      | ok q' ↦ ok (some (q.slots slot), q')
    ]
  ]

  unfoldable pub size : Queue A → ℕ
  size q = q.num_elements
