-- ===== src/LfQueue/Threads.antt =====
-- LFQueue between one producer and one consumer: `push` and `pop` cut at each access to a shared
-- variable, interleaved in any order. The accesses are taken to be sequentially consistent.
use hft_sys.Common.{ℕ, ◌-◌, ◌%◌, ◌<◌, ◌≡◌, List, [], ◌∷◌, ◌++◌, add_size, update}
use hft_sys.LfQueue.{Queue, new}

-- Where the producer stands in `push(value)`.
pub data Producer (A : Type 0) : Type 0 where
  idle : Producer A
  has_room : A → Producer A  -- `getNextToWrite` has seen `numElements_ < queue_.size()`
  stored : A → Producer A  -- `*slot = value` is done
  advanced : A → Producer A  -- `nextIndexToWrite_` is moved, `numElements_` not yet

-- Where the consumer stands in `pop()`.
pub data Consumer (A : Type 0) : Type 0 where
  waiting : Consumer A
  has_element : Consumer A  -- `getNextToRead` has seen `numElements_ > 0`
  copied : A → Consumer A  -- `T value = *elem` is done
  passed : A → Consumer A  -- `nextIndexToRead_` is moved, `numElements_` not yet

-- The shared queue, both threads, and what each has finished so far, oldest first.
pub record System (A : Type 0) : Type 0 where
  pub queue : Queue A
  pub producer : Producer A
  pub consumer : Consumer A
  pub sent : List A
  pub got : List A

module _ {A : Type 0} where
  unfoldable pub start : A → ℕ → System A
  start default n = record {
    queue = new default n;
    producer = idle;
    consumer = waiting;
    sent = [];
    got = [];
  }

  -- `*slot = value`
  abbrev pub with_stored : Queue A → A → Queue A
  with_stored q v = record q { slots = update q.slots q.next_to_write v }

  -- `nextIndexToWrite_ = (nextIndexToWrite_ + 1) % queue_.size()`
  abbrev pub with_advanced : Queue A → Queue A
  with_advanced q = record q { next_to_write = add_size q.next_to_write 1 % q.capacity }

  -- `numElements_.fetch_add(1)`
  abbrev pub with_announced : Queue A → Queue A
  with_announced q = record q { num_elements = add_size q.num_elements 1 }

  -- `nextIndexToRead_ = (nextIndexToRead_ + 1) % queue_.size()`
  abbrev pub with_passed : Queue A → Queue A
  with_passed q = record q { next_to_read = add_size q.next_to_read 1 % q.capacity }

  -- `numElements_.fetch_sub(1)`
  abbrev pub with_released : Queue A → Queue A
  with_released q = record q { num_elements = q.num_elements - 1 }

  -- One access by one thread. A `push` that finds no room and a `pop` that finds nothing change
  -- nothing and leave their thread where it was.
  pub data Step (s : System A) : System A → Type 0 where
    room :
        (v : A)
        → s.producer ≡ idle
        → s.queue.num_elements < s.queue.capacity
        → Step s (record s { producer = has_room v })
    store :
        (v : A)
        → s.producer ≡ has_room v
        → Step s (record s { queue = with_stored s.queue v; producer = stored v })
    advance :
        (v : A)
        → s.producer ≡ stored v
        → Step s (record s { queue = with_advanced s.queue; producer = advanced v })
    announce :
        (v : A)
        → s.producer ≡ advanced v
        → Step s
            (record s { queue = with_announced s.queue; producer = idle; sent = s.sent ++ v ∷ [] })
    look :
        s.consumer ≡ waiting
        → 0 < s.queue.num_elements
        → Step s (record s { consumer = has_element })
    copy :
        s.consumer ≡ has_element
        → Step s (record s { consumer = copied (s.queue.slots s.queue.next_to_read) })
    pass :
        (v : A)
        → s.consumer ≡ copied v
        → Step s (record s { queue = with_passed s.queue; consumer = passed v })
    release :
        (v : A)
        → s.consumer ≡ passed v
        → Step s
            (record s { queue = with_released s.queue; consumer = waiting; got = s.got ++ v ∷ [] })

  pub data Reach (default : A) (n : ℕ) : System A → Type 0 where
    here : Reach default n (start default n)
    next : {s t : System A} → Reach default n s → Step s t → Reach default n t
