-- ===== src/Tests/Lifetimes.antt =====
-- A gateway that is started, serves a round and is stopped in the next.
use hft_sys.Common.{refl, false}
use hft_sys.Gateway.Lifetime.{
  Service, serving, stopping, unborn, Step, start, enter, serve, again, clear, crash, Reach, here,
  next, idle_service, IsConsistent, Reach-IsConsistent, crashed,
}

abbrev caught_serving : Service
caught_serving = record { is_running = false; server = serving; owner = stopping }

caught_serving-Reach : Reach caught_serving
unfolding idle_service
caught_serving-Reach =
    next
      (next
        (next (next (next (next here (start refl refl)) (enter refl refl)) (serve refl))
          (again refl))
        (enter refl refl))
      (clear refl (λ e. cc) (λ e. cc))

Reach-IsConsistent_example : IsConsistent caught_serving
Reach-IsConsistent_example = Reach-IsConsistent caught_serving-Reach

-- The destructor of a gateway that was never started.
never_started : Step idle_service (record { is_running = false; server = unborn; owner = crashed })
unfolding idle_service
never_started = crash refl refl
