-- ===== src/Timer/Laws.antt =====
-- The readings of the timer of src/StatTimer.h.
use clsocket.Base.{
  ℕ, pos, ◌+◌, ◌*◌, ◌/◌, ◌%◌, ◌^◌, ◌≤◌, ◌<◌, ◌+ℤ◌, ◌-ℤ◌, ◌*ℤ◌, ◌≡◌, arith, to_uint32,
}
use clsocket.Net.{Timeval}
use clsocket.Timer.{
  StatTimer, initialize, set_start_time, set_end_time, calc_total_usec, get_milli_seconds,
  get_micro_seconds, get_seconds,
}

-- A time of day, as `gettimeofday` gives it.
abbrev pub at_time : ℕ → ℕ → Timeval
at_time sec usec = record { tv_sec = pos sec; tv_usec = pos usec }

-- The timer of one operation: cleared, started at one reading and stopped at another.
abbrev pub timed : StatTimer → Timeval → Timeval → StatTimer
timed t from to = set_end_time to (set_start_time from (initialize t))

-- A timer that is cleared, started at one time of day and stopped d microseconds later reads d
-- modulo 2 ^ 32 microseconds.
pub get_micro_seconds-timed :
    (t : StatTimer) (s u s' u' d : ℕ)
    → s * 1000000 + u + d ≡ s' * 1000000 + u'
    → get_micro_seconds (timed t (at_time s u) (at_time s' u')) ≡ d % 2 ^ 32
unfolding get_micro_seconds calc_total_usec initialize set_start_time set_end_time to_uint32 ◌+ℤ◌
    ◌-ℤ◌ ◌*ℤ◌
get_micro_seconds-timed t s u s' u' d h = ground arith

-- The three readings of a timer agree: the milliseconds are the microseconds rounded down to
-- thousands, and the seconds are the milliseconds divided by 1000.
readings_agree :
    (t : StatTimer)
    → (get_milli_seconds t * 1000 ≤ get_micro_seconds t)
      × (get_micro_seconds t < get_milli_seconds t * 1000 + 1000)
      × (get_seconds t ≡ get_milli_seconds t / 1000)
unfolding get_milli_seconds get_micro_seconds get_seconds
readings_agree t = ground arith
