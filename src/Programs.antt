-- ===== src/Programs.antt =====
-- What the programs of examples/ share: the state is that of the object declared in `main`, and the
-- object behind a pointer is run with `on`.
pub mod Steps
pub mod Chunk
pub mod Listening
pub mod Errno
pub mod Counts
pub mod Signals
pub mod Guests
pub mod EchoServer
pub mod RecvAsync
pub mod QueryDayTime
use clsocket.Base.{
  leb, ◌&&◌, if◌then◌else◌, take, length, ℕ, ◌-◌, ◌^◌, ℤ, pos, negsuc, Option, none, some, map,
}
use clsocket.Net.{Bytes}
use clsocket.Socket.{fault, returned, Buffer, Op, gets, ◌>>=◌}
use clsocket.Socket.Access.{get_data, get_bytes_received}
use clsocket.Socket.Send.{Pointer, send}

-- A byte of memory that nothing has written reads as `stale`, whatever that is.
abbrev pub read_byte : ℕ → Option ℕ → ℕ
read_byte stale none = stale
read_byte stale (some b) = b

abbrev pub read_block : ℕ → Option Buffer → Pointer
read_block stale none = none
read_block stale (some block) = some (map (read_byte stale) block)

-- The conversion of an `int32` to `size_t`.
abbrev pub to_size : ℤ → ℕ
to_size (pos n) = n
to_size (negsuc n) = 2 ^ 64 - 1 - n

-- `memcpy(target, socket.GetData(), n)`, where the target has so much room: the bytes copied.
unfoldable pub copy_data : ℕ → ℕ → Op Buffer
unfolding get_data
copy_data room n env s = elim (get_data s.sock) [
  | none ↦ fault
  | some block ↦ if leb n room && leb n (length block) then returned (take n block) s else fault
]

-- `pClient->Send(pClient->GetData(), pClient->GetBytesReceived())`.
unfoldable pub send_back : ℕ → ℕ → Op ℤ
unfolding get_data get_bytes_received
send_back fuel stale = do
  block ← gets get_data
  n ← gets get_bytes_received
  send fuel (read_block stale block) (to_size n)
