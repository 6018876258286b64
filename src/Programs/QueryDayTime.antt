-- ===== src/Programs/QueryDayTime.antt =====
-- examples/QueryDayTime.cpp: ask a time server, and print its answer.
pub mod Answer
pub mod Connection
pub mod Main
use clsocket.Base.{ℕ, zero, suc, ℤ, pos, ◌==ℤ◌, Option, none, some, [], ◌∷◌}
use clsocket.Net.{CString, Bytes}
use clsocket.Socket.{Buffer, Op, pure, ◌>>=◌, ◌>>◌, branch}
use clsocket.Socket.Lifecycle.{initialize, close}
use clsocket.Socket.Receive.{Target, receive}
use clsocket.Socket.Send.{send}
use clsocket.Active.{open_to, destruct_active}
use clsocket.Programs.{copy_data, read_byte}

-- "time-C.timefreq.bldrdoc.gov"
abbrev pub time_server : CString
time_server =
    116 ∷ 105 ∷ 109 ∷ 101 ∷ 45 ∷ 67 ∷ 46 ∷ 116 ∷ 105 ∷ 109 ∷ 101 ∷ 102 ∷ 114 ∷ 101 ∷ 113 ∷ 46 ∷ 98
    ∷ 108 ∷ 100 ∷ 114 ∷ 100 ∷ 111 ∷ 99 ∷ 46 ∷ 103 ∷ 111 ∷ 118 ∷ []

-- A block as it reads, where the bytes that nothing has written are those that stood there.
unfoldable pub read_over : (ℕ → ℕ) → Buffer → Bytes
read_over old [] = []
read_over old (b ∷ block) = read_byte (old 0) b ∷ read_over (λ i. old (suc i)) block

-- What `printf` with `%s` prints of these bytes and the zero behind them.
unfoldable pub printed_part : Bytes → Bytes
printed_part [] = []
printed_part (zero ∷ rest) = []
printed_part (suc b ∷ rest) = suc b ∷ printed_part rest

-- Once there is a connection: what is printed of `time`, to which 49 bytes are copied, if it is. The
-- fiftieth byte of `time` stays 0.
unfoldable pub ask_time : ℕ → (ℕ → ℕ) → Op (Option Bytes)
unfolding copy_data printed_part read_over
ask_time fuel old = do
  sent ← send fuel (some (10 ∷ [])) 1
  branch (sent ==ℤ pos 0) (pure none) (do
    receive fuel (pos 49) Target.internal
    time ← copy_data 50 49
    let printed = printed_part (read_over old time)
    close
    pure (some printed))

-- `main`, on the object that it declares.
unfoldable pub query_day_time : ℕ → (ℕ → ℕ) → Op (Option Bytes)
unfolding ask_time
query_day_time fuel old = do
  initialize
  opened ← open_to (some time_server) 13
  printed ← branch opened (ask_time fuel old) (pure none)
  destruct_active
  pure printed
