-- ===== src/Gateway/Lifetime.antt =====
-- Starting and stopping the gateway: the thread of `run` and its owner, which calls `start` and then `stop` or
-- the destructor; a step of either at a time. The body of the loop of `run` may last for any number of steps,
-- also for ever, and may terminate the program.
use hft_sys.Common.{◌≡◌, ◌≢◌, refl, Bool, true, false}

-- Where the thread of the gateway stands.
pub data ServerPc : Type 0 where
  unborn : ServerPc  -- `serverThread_` is null
  looping : ServerPc  -- at the head of the `while` of `run`
  serving : ServerPc  -- in its body: `poll`, `sendAndReceive`, the responses
  ended : ServerPc
  aborted : ServerPc  -- an assertion or FATAL in the body has terminated the program

-- Where the owner stands.
pub data OwnerPc : Type 0 where
  using : OwnerPc
  stopping : OwnerPc  -- `stop` has cleared `isRunning_`
  stopped : OwnerPc  -- `stop` has come back
  crashed : OwnerPc  -- `stop` has dereferenced a null `serverThread_`

pub record Service : Type 0 where
  pub is_running : Bool
  pub server : ServerPc
  pub owner : OwnerPc

unfoldable pub idle_service : Service
idle_service = record { is_running = false; server = unborn; owner = using }

pub data Step (s : Service) : Service → Type 0 where
  start :
      s.owner ≡ using
      → s.server ≡ unborn
      → Step s (record s { is_running = true; server = looping })
  enter : s.server ≡ looping → s.is_running ≡ true → Step s (record s { server = serving })
  serve : s.server ≡ serving → Step s s
  again : s.server ≡ serving → Step s (record s { server = looping })
  abort : s.server ≡ serving → Step s (record s { server = aborted })
  leave : s.server ≡ looping → s.is_running ≡ false → Step s (record s { server = ended })
  clear :
      s.owner ≡ using
      → s.server ≢ unborn
      → s.server ≢ aborted
      → Step s (record s { is_running = false; owner = stopping })
  crash :
      s.owner ≡ using
      → s.server ≡ unborn
      → Step s (record s { is_running = false; owner = crashed })
  join : s.owner ≡ stopping → s.server ≡ ended → Step s (record s { owner = stopped })

pub data Reach : Service → Type 0 where
  here : Reach idle_service
  next : {s t : Service} → Reach s → Step s t → Reach t

-- What holds between the owner and the thread: the thread leaves its loop only for a `stop`, which comes back only
-- when it has left, and fails only if it was never started.
pub record IsConsistent (s : Service) : Type 0 where
  pub using_unended : s.owner ≡ using → s.server ≢ ended
  pub using_started : s.owner ≡ using → s.server ≢ unborn → s.is_running ≡ true
  pub stopping_started : s.owner ≡ stopping → (s.server ≢ unborn) × (s.is_running ≡ false)
  pub stopped_ended : s.owner ≡ stopped → (s.server ≡ ended) × (s.is_running ≡ false)
  pub crashed_unborn : s.owner ≡ crashed → s.server ≡ unborn

Step-IsConsistent : {s t : Service} → Step s t → IsConsistent s → IsConsistent t
Step-IsConsistent (start e k) h = record {
  using_unended = λ o. cc;
  using_started = λ o n. refl;
  stopping_started = λ o. absurd cc;
  stopped_ended = λ o. absurd cc;
  crashed_unborn = λ o. absurd cc;
}
Step-IsConsistent (enter e k) h = record {
  using_unended = λ o. cc;
  using_started = λ o n. k;
  stopping_started = λ o. (cc, (h.stopping_started o).1);
  stopped_ended = λ o. let (x, y) = h.stopped_ended o in absurd cc;
  crashed_unborn = λ o. let x = h.crashed_unborn o in absurd cc;
}
Step-IsConsistent (serve e) h = h
Step-IsConsistent (again e) h = record {
  using_unended = λ o. cc;
  using_started = λ o n. h.using_started o (λ u. absurd cc);
  stopping_started = λ o. (cc, (h.stopping_started o).1);
  stopped_ended = λ o. let (x, y) = h.stopped_ended o in absurd cc;
  crashed_unborn = λ o. let x = h.crashed_unborn o in absurd cc;
}
Step-IsConsistent (abort e) h = record {
  using_unended = λ o. cc;
  using_started = λ o n. h.using_started o (λ u. absurd cc);
  stopping_started = λ o. (cc, (h.stopping_started o).1);
  stopped_ended = λ o. let (x, y) = h.stopped_ended o in absurd cc;
  crashed_unborn = λ o. let x = h.crashed_unborn o in absurd cc;
}
Step-IsConsistent (leave e k) h = record {
  using_unended = λ o. let x = h.using_started o (λ u. absurd cc) in absurd cc;
  using_started = λ o n. h.using_started o (λ u. absurd cc);
  stopping_started = λ o. (cc, k);
  stopped_ended = λ o. (refl, k);
  crashed_unborn = λ o. let x = h.crashed_unborn o in absurd cc;
}
Step-IsConsistent (clear e k k') h = record {
  using_unended = λ o. absurd cc;
  using_started = λ o. absurd cc;
  stopping_started = λ o. (k, refl);
  stopped_ended = λ o. absurd cc;
  crashed_unborn = λ o. absurd cc;
}
Step-IsConsistent (crash e k) h = record {
  using_unended = λ o. absurd cc;
  using_started = λ o. absurd cc;
  stopping_started = λ o. absurd cc;
  stopped_ended = λ o. absurd cc;
  crashed_unborn = λ o. k;
}
Step-IsConsistent (join e k) h = record {
  using_unended = λ o. absurd cc;
  using_started = λ o. absurd cc;
  stopping_started = λ o. absurd cc;
  stopped_ended = λ o. (k, (h.stopping_started e).1);
  crashed_unborn = λ o. absurd cc;
}

-- In every state that is reached: while the owner has not called `stop`, the thread has not left its loop, and
-- `isRunning_` is set if there is a thread; a `stop` that waits has a thread to wait for and has cleared the
-- flag; a `stop` that has come back has seen the thread leave its loop; and a `stop` fails on a null thread
-- only if no thread was ever started.
pub Reach-IsConsistent : {s : Service} → Reach s → IsConsistent s
unfolding idle_service
Reach-IsConsistent here = record {
  using_unended = λ o. cc;
  using_started = λ o n. absurd (n refl);
  stopping_started = λ o. absurd cc;
  stopped_ended = λ o. absurd cc;
  crashed_unborn = λ o. refl;
}
Reach-IsConsistent (next r step) = Step-IsConsistent step (Reach-IsConsistent r)
