-- ===== src/Tests/Texts.antt =====
-- Texts: identifiers, the lines of the log and what the logger writes.
use hft_sys.Common.{
  ◌^◌, ◌-◌, Bool, ◌≡◌, refl, none, some, true, false, List, [], ◌∷◌, ◌++◌, ok, arith,
}
use hft_sys.Common.Int.{negsuc}
use hft_sys.LfQueue
use hft_sys.LfQueue.Refine.{IsValid, contents, new-IsValid}
use hft_sys.Text.{codes, to_string_ℤ}
use hft_sys.Exchange.Printing.{numeric_to_str}
use hft_sys.Exchange.Distinct.{Tells, numeric_to_str-Tells}
use hft_sys.Logger.{Any, info, debug, LogElement, any_to_string, format_message, format_loop}
use hft_sys.Logger.Format.{substitute, format_message-substitute}
use hft_sys.Logger.Thread.{Logger, LogPc, testing, LogEvent, called, turned, stopping, run_logger}
use hft_sys.Logger.Journal.{journal, notes}
use hft_sys.Logger.Written.{run_logger-notes}
use hft_sys.Logger.Stopped.{stopped-keeps}

-- The largest 32-bit number is the invalid one.
numeric_to_str-Tells_example : Tells (2 ^ 32 - 1) 7 (numeric_to_str (2 ^ 32 - 1) 7)
numeric_to_str-Tells_example = numeric_to_str-Tells (2 ^ 32 - 1) 7 (omega arith)

-- Braces in an argument are no placeholder, and a placeholder too many stays.
greeting :
    format_message (codes "a {} b {} {}") (Any.c_string (codes "{}") ∷ Any.int (negsuc 11) ∷ [])
    ≡ ok (codes "a {} b -12 {}")
unfolding format_message format_loop any_to_string to_string_ℤ
greeting = refl

-- A character is written behind the character 1.
letter : format_message (codes "{}") (Any.char b'x' ∷ []) ≡ ok (1 ∷ b'x' ∷ [])
unfolding format_message format_loop any_to_string
letter = refl

format_message-substitute_example :
    format_message (codes "{}, {}") (Any.string (codes "ok") ∷ [])
    ≡ ok (substitute (codes "{}, {}") (Any.string (codes "ok") ∷ []))
unfolding any_to_string
format_message-substitute_example =
    format_message-substitute (codes "{}, {}") (Any.string (codes "ok") ∷ []) (omega arith)

-- A logger with room for three calls.
abbrev small_logger : Bool → LogPc → Logger
small_logger running thread = record {
  queue = LfQueue.new (record { level = debug; format_string = []; args = [] }) 3;
  file = record { written = codes "before"; failed = false; reports = 0 };
  running = running;
  thread = thread;
}

abbrev busy : List LogEvent
busy =
    turned (codes "12:00:00") none
    ∷ called info (codes "bid") []
    ∷ turned (codes "12:00:00") none
    ∷ stopping
    ∷ called debug (codes "ask") []
    ∷ turned (codes "12:00:01") none
    ∷ turned (codes "12:00:01") (some 4)
    ∷ turned (codes "12:00:01") none
    ∷ []

run_logger-notes_example :
    (l' : Logger) × (run_logger busy (small_logger true testing) ≡ ok l')
    × IsValid l'.queue
    × (journal l' ≡ notes 3 busy (journal (small_logger true testing)))
unfolding LfQueue.new
run_logger-notes_example =
    run_logger-notes busy (small_logger true testing) (new-IsValid _ 3 (omega arith)) tt
      (tt, (omega arith, (tt, (tt, (omega arith, (tt, (tt, (tt, tt))))))))

stopped-keeps_example :
    (l' : Logger) × (run_logger busy (small_logger false testing) ≡ ok l')
    × (l'.file ≡ (small_logger false testing).file)
    × ((more : List LogElement) × (contents l'.queue
          ≡ contents (small_logger false testing).queue ++ more))
unfolding LfQueue.new
stopped-keeps_example =
    stopped-keeps busy (small_logger false testing) (new-IsValid _ 3 (omega arith)) tt
      (tt, (omega arith, (tt, (tt, (omega arith, (tt, (tt, (tt, tt)))))))) refl tt
