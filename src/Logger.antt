-- ===== src/Logger.antt =====
-- lib/logger.h and lib/logger.cpp: `utils::Logger`. A log call puts an element into the queue; the logger's
-- thread takes the elements out again, formats them and appends them to the file. Here are the
-- formatting, and the operations on the file and on the queue; Logger/Thread has the two sides together.
pub mod Format
pub mod Thread
pub mod Journal
pub mod Drained
pub mod Written
pub mod Stopped
use Prim.Native.String.{String}
use hft_sys.Common.{
  ℕ, zero, suc, ◌+◌, ◌-◌, ◌*◌, ◌%◌, ◌^◌, Bool, true, false, ◌&&◌, ◌||◌, not, List, [], ◌∷◌, ◌++◌,
  Option, none, some, ltb, ◌==◌, if◌then◌else◌, length, take, drop, add_size, Result, ok, fail,
  terminated, out_of_fuel, ◌>>=◌,
}
use hft_sys.Common.Int.{ℤ}
use hft_sys.LfQueue
use hft_sys.LfQueue.{Queue}
use hft_sys.Text.{Text, codes, to_string, to_string_ℤ}

pub data LogLevel : Type 0 where
  debug : LogLevel
  info : LogLevel
  warning : LogLevel
  error : LogLevel

-- A `std::any` by the type of its value. A floating number is given by its `std::to_string`, a value of a
-- type that the logger does not know by the name of the type. On Linux `Nanos` is `long`, so that
-- the branch of `anyToString` for it is never reached.
pub data Any : Type 0 where
  int : ℤ → Any
  size_t : ℕ → Any
  double : Text → Any
  long : ℤ → Any
  float : Text → Any
  char : ℕ → Any
  bool : Bool → Any
  string : Text → Any
  c_string : Text → Any
  other : Text → Any

pub record LogElement : Type 0 where
  pub level : LogLevel
  pub format_string : Text
  pub args : List Any

-- `LOG_QUEUE_SIZE`
abbrev pub log_queue_size : ℕ
log_queue_size = 8 * 1024 * 1024

-- `anyToString`. The braces of `std::string{1, c}` make a list of two characters, 1 and `c`.
unfoldable pub any_to_string : Any → Text
any_to_string (int n) = to_string_ℤ n
any_to_string (size_t n) = to_string n
any_to_string (double t) = t
any_to_string (long n) = to_string_ℤ n
any_to_string (float t) = t
any_to_string (char c) = 1 ∷ c ∷ []
any_to_string (bool b) = if b then codes "true" else codes "false"
any_to_string (string t) = t
any_to_string (c_string t) = t
any_to_string (other name) = codes "Unsupported type: " ++ name

-- `result[i] == '{' && i + 1 < result.size() && result[i + 1] == '}'`, on the text from `i` on.
abbrev pub is_placeholder : Text → Bool
is_placeholder [] = false
is_placeholder (c ∷ []) = false
is_placeholder (c ∷ d ∷ t) = (c == b'{') && (d == b'}')

-- `i += n - 1` and the `++i` of the loop.
abbrev pub skip : ℕ → ℕ → ℕ
skip i n = add_size (add_size i ((n + (2 ^ 64 - 1)) % 2 ^ 64)) 1

-- The loop of `formatMessage` from `i` on, with the arguments from `arg_index` on.
unfoldable pub format_loop : ℕ → ℕ → Text → List Any → Result Text
format_loop zero i result args = fail out_of_fuel
format_loop (suc fuel) i result [] =
    let rest = format_loop fuel (add_size i 1) result [] in
    if ltb i (length result) then rest else ok result
format_loop (suc fuel) i result (arg ∷ args) =
    let rest = format_loop fuel (add_size i 1) result (arg ∷ args) in
    let arg_str = any_to_string arg in
    let replaced =
      format_loop fuel (skip i (length arg_str)) (take i result ++ arg_str ++ drop (i + 2) result)
        args in
    if ltb i (length result)
    then if is_placeholder (drop i result) then replaced else rest
    else ok result

-- `formatMessage`
unfoldable pub format_message : Text → List Any → Result Text
format_message format args = format_loop (suc (length format)) 0 format args

-- The name that `appendToBuffer` writes for a level.
abbrev pub level_name : LogLevel → Text
level_name debug = codes "DEBUG"
level_name info = codes "INFO"
level_name warning = codes "WARNING"
level_name error = codes "ERROR"

-- `appendToBuffer` at the time `now`, the text of `getCurrentTimeStr()`.
unfoldable pub append_to_buffer : Text → LogElement → Text → Result Text
append_to_buffer now elem buffer = format_message elem.format_string elem.args >>= λ message. ok (
    buffer
    ++ (codes "[" ++ now ++ codes "] [" ++ level_name elem.level ++ codes "] ")
    ++ message
    ++ codes "\n")

-- The log file: what stands in it, and whether the stream has failed.
pub record File : Type 0 where
  pub written : Text
  pub failed : Bool
  pub reports : ℕ  -- the messages on `std::cerr`

-- `setLogFile`, where `opened` is what stands in the file, if it can be opened for appending.
unfoldable pub set_log_file : Option Text → File → Result File
set_log_file none f = fail terminated
set_log_file (some opened) f = ok (record f { written = opened; failed = false })

-- What a stream that has not failed does with a text, when the file takes at most `room` characters more, or
-- any number of them.
unfoldable pub write : Option ℕ → Text → File → File
write none buffer f = record f { written = f.written ++ buffer }
write (some room) buffer f =
    if ltb room (length buffer)
    then record f { written = f.written ++ take room buffer; failed = true }
    else record f { written = f.written ++ buffer }

-- `writeToFile`: a stream that has failed takes nothing any more. The exception that reports a failure is caught.
unfoldable pub write_to_file : Option ℕ → Text → File → File
unfolding write
write_to_file room buffer f =
    let after = if f.failed then f else write room buffer f in
    if after.failed then record after { reports = suc after.reports } else after

-- `log`: the answer of `push` is not looked at.
unfoldable pub log : LogLevel → Text → List Any → Queue LogElement → Queue LogElement
log level format args q =
    (LfQueue.push (record { level = level; format_string = format; args = args }) q).1

-- The most elements that go into one buffer.
abbrev pub batch : ℕ
batch = 100
