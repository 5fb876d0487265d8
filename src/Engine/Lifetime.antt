-- ===== src/Engine/Lifetime.antt =====
-- Starting and stopping the engine: the thread of `runMatchingEngine` and a caller of
-- `stopMatchingEngine`, a step of either at a time.
use hft_sys.Common.{◌≡◌, ◌≢◌, Bool, true, false, arith}

-- Where the engine's thread stands.
pub data EnginePc : Type 0 where
  absent : EnginePc  -- `startMatchingEngine` has not been called
  entered : EnginePc  -- before `isRunning_.store(true)`
  testing : EnginePc  -- at the head of the `while`
  working : EnginePc  -- in the body: `pop`, and perhaps `handleClientRequest`
  leaving : EnginePc  -- behind the loop, before `isRunning_.store(false)`
  finished : EnginePc

-- Where a caller of `stopMatchingEngine` stands.
pub data StopPc : Type 0 where
  outside : StopPc
  requested : StopPc  -- `request_stop()` has set the stop token
  returned : StopPc  -- `join()` has come back

pub record Life : Type 0 where
  pub is_running : Bool
  pub stop_token : Bool
  pub engine : EnginePc
  pub stopper : StopPc

unfoldable pub constructed : Life
constructed = record { is_running = false; stop_token = false; engine = absent; stopper = outside }

pub data Step (l : Life) : Life → Type 0 where
  start : l.engine ≡ absent → Step l (record l { engine = entered })
  run : l.engine ≡ entered → Step l (record l { is_running = true; engine = testing })
  go_on : l.engine ≡ testing → l.is_running ≡ true → Step l (record l { engine = working })
  round : l.engine ≡ working → Step l (record l { engine = testing })
  leave : l.engine ≡ testing → l.is_running ≡ false → Step l (record l { engine = leaving })
  finish : l.engine ≡ leaving → Step l (record l { is_running = false; engine = finished })
  -- `joinable()` holds from the thread's creation until it is joined.
  request_stop :
      l.engine ≢ absent
      → l.stopper ≡ outside
      → Step l (record l { stop_token = true; stopper = requested })
  join : l.stopper ≡ requested → l.engine ≡ finished → Step l (record l { stopper = returned })

pub data Reach : Life → Type 0 where
  here : Reach constructed
  next : {l m : Life} → Reach l → Step l m → Reach m

-- While the loop turns, the flag that it tests is set.
abbrev Turning : EnginePc → Bool → Type 0
Turning absent b = Unit
Turning entered b = Unit
Turning testing b = b ≡ true
Turning working b = b ≡ true
Turning leaving b = ⊥
Turning finished b = ⊥

record Inv (l : Life) : Type 0 where
  turning : Turning l.engine l.is_running
  held : l.stopper ≢ returned

Step-Inv : {l m : Life} → Step l m → Inv l → Inv m
Step-Inv (start e) i = ground arith
Step-Inv (run e) i = ground arith
Step-Inv (go_on e h) i = ground arith
Step-Inv (round e) i = ground arith
Step-Inv (leave e h) i = ground arith
Step-Inv (finish e) i = ground arith
Step-Inv (request_stop h e) i = ground arith
Step-Inv (join e h) i = ground arith

Reach-Inv : {l : Life} → Reach l → Inv l
unfolding constructed
Reach-Inv here = record { turning = tt; held = λ e. cc }
Reach-Inv (next r s) = Step-Inv s (Reach-Inv r)

-- Once started, the engine's thread never ends, and a call of `stopMatchingEngine` on it never
-- returns: nothing clears `isRunning_` while the loop tests it, and the loop does not look at the stop
-- token that `request_stop` sets.
pub stop-never_returns :
    {l : Life} → Reach l → (l.stopper ≢ returned) × (l.engine ≢ leaving) × (l.engine ≢ finished)
stop-never_returns r =
    let i = Reach-Inv r in (i.held, λ e. ground (arith, i), λ e. ground (arith, i))
