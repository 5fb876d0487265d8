-- ===== src/Logger/Thread.antt =====
-- lib/logger.cpp: the logger's state, `flushQueue` in its thread, the calls of `log` in the other
-- threads and `~Logger`. Of `flushQueue` the test of `running_`, each round of the loop that fills the buffer and
-- the write are steps, between which calls and a stop may come.
use hft_sys.Common.{
  ℕ, suc, ltb, ◌&&◌, Bool, true, false, Option, none, some, List, [], ◌∷◌, if◌then◌else◌, Result,
  ok, ◌>>=◌,
}
use hft_sys.LfQueue
use hft_sys.LfQueue.{Queue}
use hft_sys.Text.{Text}
use hft_sys.Logger.{
  LogLevel, Any, LogElement, File, log_queue_size, set_log_file, write_to_file, log,
  append_to_buffer, batch,
}

-- Where `flushQueue` stands.
pub data LogPc : Type 0 where
  testing : LogPc  -- at the head of its outer loop
  filling : ℕ → Text → LogPc  -- in the inner loop, with `i` and `buffer`
  finished : LogPc  -- it has returned

pub record Logger : Type 0 where
  pub queue : Queue LogElement
  pub file : File
  pub running : Bool
  pub thread : LogPc

-- `Logger(logFilePath)`, where `opened` is what stands in the file, if it can be opened.
unfoldable pub new_logger : Option Text → Result Logger
unfolding LfQueue.new set_log_file
new_logger opened =
    set_log_file opened (record { written = []; failed = false; reports = 0 }) >>= λ f. ok (record {
      queue =
          LfQueue.new (record { level = LogLevel.debug; format_string = []; args = [] })
            log_queue_size;
      file = f;
      running = true;
      thread = testing;
    })

-- `getInstance`: the first call makes the logger, and a later one does not look at its path.
unfoldable pub get_instance : Option Text → Option Logger → Result Logger
unfolding new_logger
get_instance opened none = new_logger opened
get_instance opened (some l) = ok l

unfoldable pub is_empty : Text → Bool
is_empty [] = true
is_empty (_ ∷ _) = false

-- What happens around the logger.
pub data LogEvent : Type 0 where
  called : LogLevel → Text → List Any → LogEvent  -- a thread calls `log`
  turned : Text → Option ℕ → LogEvent  -- the logger's thread takes a step
  stopping : LogEvent  -- `~Logger` clears `running_`

-- A step of `flushQueue` from where it stands: its test of `running_`, a round of the loop that fills the buffer,
-- at the time `now`, or the end of that loop, with the write.
unfoldable pub turn_thread : LogPc → Text → Option ℕ → Logger → Result Logger
unfolding is_empty
turn_thread testing now room l =
    ok (record l { thread = if l.running then filling 0 [] else finished })
turn_thread (filling i buffer) now room l =
    let next = LfQueue.pop l.queue >>= (λ (popped, left). elim popped [
      | none ↦ ok (record l { queue = left; thread = filling (suc i) buffer })
      | some e ↦ append_to_buffer now e buffer >>= λ more.
          ok (record l { queue = left; thread = filling (suc i) more })
    ]) in
    if ltb i batch && ltb 0 (LfQueue.size l.queue)
    then next
    else ok (record l {
      file = if is_empty buffer then l.file else write_to_file room buffer l.file;
      thread = testing;
    })
turn_thread finished now room l = ok l

unfoldable pub take_log_event : LogEvent → Logger → Result Logger
unfolding turn_thread
take_log_event (called level format args) l =
    ok (record l { queue = log level format args l.queue })
take_log_event (turned now room) l = turn_thread l.thread now room l
take_log_event stopping l = ok (record l { running = false })

unfoldable pub run_logger : List LogEvent → Logger → Result Logger
unfolding take_log_event
run_logger [] l = ok l
run_logger (e ∷ events) l = take_log_event e l >>= run_logger events
