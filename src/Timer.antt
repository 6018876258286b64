-- ===== src/Timer.antt =====
-- `CStatTimer` of src/StatTimer.h. The clock is read by the caller, who hands the time in.
pub mod Laws
use clsocket.Base.{ℕ, ℤ, pos, ◌/◌, ◌+ℤ◌, ◌-ℤ◌, ◌*ℤ◌, to_uint32}
use clsocket.Net.{Timeval}

pub record StatTimer : Type 0 where
  pub start_time : Timeval
  pub end_time : Timeval

abbrev pub zero_time : Timeval
zero_time = record { tv_sec = pos 0; tv_usec = pos 0 }

abbrev pub milliseconds_conversion : ℕ
milliseconds_conversion = 1000

abbrev pub microseconds_conversion : ℕ
microseconds_conversion = 1000000

-- `Initialize`, on whatever the timer held before.
unfoldable pub initialize : StatTimer → StatTimer
initialize t = record t { start_time = zero_time; end_time = zero_time }

unfoldable pub set_start_time : Timeval → StatTimer → StatTimer
set_start_time now t = record t { start_time = now }

unfoldable pub set_end_time : Timeval → StatTimer → StatTimer
set_end_time now t = record t { end_time = now }

-- The difference is formed in the signed type of `tv_sec` and converted to `uint32` on return.
unfoldable pub calc_total_usec : StatTimer → ℕ
calc_total_usec t = to_uint32 (
    (t.end_time.tv_sec -ℤ t.start_time.tv_sec) *ℤ pos microseconds_conversion
    +ℤ (t.end_time.tv_usec -ℤ t.start_time.tv_usec))

unfoldable pub get_milli_seconds : StatTimer → ℕ
get_milli_seconds t = calc_total_usec t / milliseconds_conversion

unfoldable pub get_micro_seconds : StatTimer → ℕ
get_micro_seconds t = calc_total_usec t

unfoldable pub get_seconds : StatTimer → ℕ
get_seconds t = calc_total_usec t / microseconds_conversion

-- `GetCurrentTime`, given the reading.
unfoldable pub get_current_time : Timeval → ℕ
get_current_time now = to_uint32 (now.tv_sec *ℤ pos microseconds_conversion +ℤ now.tv_usec)
