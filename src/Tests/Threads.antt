-- ===== src/Tests/Threads.antt =====
-- Threads that start, with and without a core of their own.
use hft_sys.Common.{ℕ, ◌==◌, if◌then◌else◌, ◌≡◌, refl, [], Result, ok, fail, terminated}
use hft_sys.Common.Int.{ℤ, pos, negsuc}
use hft_sys.Text.{codes, to_string_ℤ}
use hft_sys.ThreadUtils.{Streams, set_thread_core_affinity, affinity_line, run_thread}

abbrev silent : Streams
silent = record { out = []; err = [] }

abbrev only_core_0 : ℤ → ℤ
only_core_0 (pos core) = if core == 0 then pos 0 else pos 22
only_core_0 (negsuc _) = pos 22

abbrev returns_seven : Streams → Streams × Result ℕ
returns_seven s = (s, ok 7)

-- A core that the system does not have ends the program.
refused_run : run_thread only_core_0 (pos 3) (codes "engine") (codes "1") returns_seven silent ≡ (
  record { out = []; err = codes "Failed to set core affinity for engine 1 to 3\n" },
  fail terminated,
)
unfolding run_thread set_thread_core_affinity affinity_line to_string_ℤ
refused_run = refl

-- Without a core no affinity is set, and the thread still tells that it was.
unbound_run :
    run_thread only_core_0 (negsuc 0) (codes "engine") (codes "1") returns_seven silent
    ≡ (record { out = codes "Set core affinity for engine 1 to -1\n"; err = [] }, ok 7)
unfolding run_thread affinity_line to_string_ℤ
unbound_run = refl
