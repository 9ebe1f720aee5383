-- ===== src/Timer.antt =====
-- src/EnkiNet/Timer.hpp and Timer.cpp. A time is what the clock says, in nanoseconds, as a 64-bit pattern, and is an
-- argument, as is what std::chrono makes of a duration in seconds, which is a float.
use enki_net.Common.{ℕ, ◌+◌, ◌-◌, ◌%◌, ◌^◌}

pub record Timer : Type 0 where
  pub start_time : ℕ

-- The constructor restarts the timer.
unfoldable pub restart : ℕ → Timer
restart now = record { start_time = now }

unfoldable pub get_chrono_elapsed_time : ℕ → Timer → ℕ
get_chrono_elapsed_time now t = (now + (2 ^ 64 - t.start_time)) % 2 ^ 64

unfoldable pub get_elapsed_time : {F : Type 0} → (ℕ → F) → ℕ → Timer → F
unfolding get_chrono_elapsed_time
get_elapsed_time seconds now t = seconds (get_chrono_elapsed_time now t)
