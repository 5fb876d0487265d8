-- ===== src/ThreadUtils.antt =====
-- lib/thread_utils.h: the thread that `createAndStartThread` starts, as a function of what it is given. What
-- `pthread_setaffinity_np` answers for a core, the id of the thread and the function that it invokes are arguments.
use hft_sys.Common.{
  ◌==◌, ◌++◌, Bool, true, false, ◌&&◌, not, if◌then◌else◌, Result, fail, terminated,
}
use hft_sys.Common.Int.{ℤ, pos, negsuc}
use hft_sys.Text.{Text, codes, to_string_ℤ}

-- What is written to `std::cout` and `std::cerr`.
pub record Streams : Type 0 where
  pub out : Text
  pub err : Text

-- `setThreadCoreAffinity` on Linux, where `set_affinity` is the answer for the set of this one core.
unfoldable pub set_thread_core_affinity : (ℤ → ℤ) → ℤ → Bool
set_thread_core_affinity set_affinity core = is_zero (set_affinity core)
  where
    is_zero : ℤ → Bool
    is_zero (pos n) = n == 0
    is_zero (negsuc n) = false

abbrev is_natural : ℤ → Bool
is_natural (pos n) = true
is_natural (negsuc n) = false

-- The line that is written about the affinity of a thread.
unfoldable pub affinity_line : Text → Text → Text → ℤ → Text
affinity_line start name id core =
    start ++ name ++ codes " " ++ id ++ codes " to " ++ to_string_ℤ core ++ codes "\n"

-- The function `f` of `createAndStartThread`, which the thread runs.
unfoldable pub run_thread :
    {A : Type 0}
    → (ℤ → ℤ)
    → ℤ
    → Text
    → Text
    → (Streams → Streams × Result A)
    → Streams
    → Streams × Result A
unfolding set_thread_core_affinity affinity_line
run_thread set_affinity core name id function s =
    if is_natural core && not (set_thread_core_affinity set_affinity core)
    then (
      record s {
        err = s.err ++ affinity_line (codes "Failed to set core affinity for ") name id core;
      },
      fail terminated,
    )
    else function
        (record s { out = s.out ++ affinity_line (codes "Set core affinity for ") name id core })
