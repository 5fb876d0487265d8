-- ===== src/Logger/Journal.antt =====
-- The contract of the logger: a bounded journal of log calls.
use hft_sys.Common.{
  Option, ℕ, suc, ◌+◌, ◌^◌, ◌<◌, List, [], ◌∷◌, ◌++◌, length, Bool, false, ltb, if◌then◌else◌,
}
use hft_sys.LfQueue.Refine.{contents}
use hft_sys.Text.{Text, codes}
use hft_sys.Logger.{LogElement, File, level_name, write_to_file, batch}
use hft_sys.Logger.Format.{substitute, args_length}
use hft_sys.Logger.Thread.{
  Logger, LogPc, testing, filling, finished, LogEvent, called, turned, stopping, is_empty,
}

-- The text of a log call goes into a `size_t`.
abbrev pub Fits : LogElement → Type 0
Fits e = length e.format_string + args_length e.args < 2 ^ 64

-- The line of a log call.
abbrev pub line : Text → LogElement → Text
line now e =
    (codes "[" ++ now ++ codes "] [" ++ level_name e.level ++ codes "] ")
    ++ substitute e.format_string e.args
    ++ codes "\n"

-- The contract of the logger: what waits, oldest first, the file, whether the logger runs and where its thread
-- stands, with the text that it has put together.
pub record Journal : Type 0 where
  pub waiting : List LogElement
  pub file : File
  pub running : Bool
  pub thread : LogPc

-- The thread in its inner loop: it takes the line of the oldest call, or writes what it has.
unfoldable pub note_line : ℕ → Text → Text → Option ℕ → List LogElement → Journal → Journal
note_line i buffer now room [] j = record j {
  file = if is_empty buffer then j.file else write_to_file room buffer j.file;
  thread = testing;
}
note_line i buffer now room (e ∷ es) j = record j {
  waiting = es;
  thread = filling (suc i) (buffer ++ line now e);
}

unfoldable pub note_turn : LogPc → Text → Option ℕ → Journal → Journal
unfolding note_line
note_turn testing now room j = record j { thread = if j.running then filling 0 [] else finished }
note_turn (filling i buffer) now room j =
    note_line i buffer now room (if ltb i batch then j.waiting else []) j
note_turn finished now room j = j

-- A call waits, if there is room; a round of a running logger takes the lines of up to 100 calls.
unfoldable pub note : ℕ → LogEvent → Journal → Journal
unfolding note_turn
note capacity (called level format args) j =
    let e : LogElement = record { level = level; format_string = format; args = args } in
    record j {
      waiting = if ltb (length j.waiting) capacity then j.waiting ++ e ∷ [] else j.waiting;
    }
note capacity (turned now room) j = note_turn j.thread now room j
note capacity stopping j = record j { running = false }

unfoldable pub notes : ℕ → List LogEvent → Journal → Journal
notes capacity [] j = j
notes capacity (e ∷ events) j = notes capacity events (note capacity e j)

-- The journal that a logger stands for.
abbrev pub journal : Logger → Journal
journal l = record {
  waiting = contents l.queue;
  file = l.file;
  running = l.running;
  thread = l.thread;
}

-- What the calls of a row of events pass to `log` fits.
abbrev pub CallFits : LogEvent → Type 0
CallFits (called level format args) = length format + args_length args < 2 ^ 64
CallFits (turned now room) = Unit
CallFits stopping = Unit
