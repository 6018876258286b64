-- ===== src/Socket/Receive.antt =====
-- `Receive` of src/SimpleSocket.cpp, with the internal buffer that it manages.
pub mod Memory
pub mod Method
pub mod Interrupted
pub mod Datagram
use clsocket.Base.{
  ℕ, zero, suc, ◌+◌, ℤ, pos, negsuc, minus_one, ◌==ℤ◌, leb, Bool, true, false, not, ◌&&◌, Option,
  none, some, [], ◌∷◌, ◌++◌, map, take, drop, replicate, length, if◌then◌else◌,
}
use clsocket.Net.{Call, Bytes, Reply}
use clsocket.Error.{SocketError, is_interrupted}
use clsocket.Socket.{
  SocketType, SimpleSocket, Buffer, Op, returned, exhausted, fault, pure, ◌>>=◌, ◌>>◌, branch, when,
  gets, modify, call, set_socket_error, translate_socket_error, is_socket_valid, start_timer,
  end_timer,
}
use clsocket.Socket.Lifecycle.{free_buffer}

-- `pBuffer`: NULL, or the caller's memory.
pub data Target : Type 0 where
  internal caller : Target

-- Write bytes at an offset. What lies outside the block must not be written.
unfoldable pub write_at : ℤ → Bytes → Buffer → Option Buffer
write_at offset [] block = some block
write_at (pos i) (b ∷ bytes) block =
    if leb (i + length (b ∷ bytes)) (length block)
    then some (take i block ++ map some (b ∷ bytes) ++ drop (i + length (b ∷ bytes)) block)
    else none
write_at (negsuc i) (b ∷ bytes) block = none

-- The write by way of the object's pointer: null has no byte to write.
store_internal : Option Buffer → ℤ → Bytes → Op (Unit {0})
store_internal none offset [] = pure tt
store_internal none offset (b ∷ bytes) = λ env s. fault
store_internal (some block) offset bytes = λ env s. elim (write_at offset bytes block) [
  | none ↦ fault
  | some written ↦ returned tt (record s { sock = record s.sock { buffer = some written } })
]

unfoldable pub store : Target → ℤ → Bytes → Op (Unit {0})
unfolding store_internal
store Target.internal offset bytes = λ env s. store_internal s.buffer offset bytes env s
store Target.caller offset bytes = λ env s. elim (write_at offset bytes s.caller_buffer) [
  | none ↦ fault
  | some block ↦ returned tt (record s { caller_buffer = block })
]

-- `new uint8[nMaxBytes]`, which throws for a negative size.
unfoldable pub new_buffer : ℤ → Op (Unit {0})
new_buffer (pos n) = modify λ s. record s { buffer_size = pos n; buffer = some (replicate n none) }
new_buffer (negsuc n) = λ env s. fault

abbrev pub is_null {ℓ} : {A : Type ℓ} → Option A → Bool
is_null none = true
is_null (some a) = false

-- The internal buffer is dropped if it has another size, and allocated if there is none.
unfoldable pub prepare : Target → ℤ → Op (Unit {0})
unfolding free_buffer new_buffer
prepare Target.internal max_bytes = do
  buffer ← gets λ s. s.buffer
  size ← gets λ s. s.buffer_size
  when (not (is_null buffer) && not (max_bytes ==ℤ size)) free_buffer
  kept ← gets λ s. s.buffer
  when (is_null kept) (new_buffer max_bytes)
prepare Target.caller max_bytes = pure tt

-- One round of the TCP loop: it receives behind `m_nBytesReceived` bytes.
unfoldable pub recv_round : Target → ℤ → Op (Unit {0})
recv_round target max_bytes = do
  fd ← gets λ s. s.socket
  offset ← gets λ s. s.bytes_received
  flags ← gets λ s. s.flags
  r ← call (Call.recv fd offset max_bytes flags)
  store target offset r.bytes
  modify λ s. record s { bytes_received = r.ret }
  translate_socket_error

-- `while (GetSocketError() == SocketInterrupted)`, with the rounds that are left.
abbrev pub while_interrupted : Op (Unit {0}) → Op (Unit {0})
while_interrupted again = do e ← gets λ s. s.socket_errno; branch (is_interrupted e) again (pure tt)

unfoldable pub recv_loop : ℕ → Target → ℤ → Op (Unit {0})
recv_loop zero target max_bytes env s = exhausted s
recv_loop (suc fuel) target max_bytes env s =
    let again = recv_loop fuel target max_bytes in
    (recv_round target max_bytes >> while_interrupted again) env s

-- The sender's address goes to the multicast group or to the client's address.
abbrev pub note_sender : Reply → SimpleSocket → SimpleSocket
note_sender r s = elim r.addr [
  | none ↦ s
  | some from ↦
      if s.is_multicast
      then record s { multicast_group = from }
      else record s { client_sockaddr = from }
]

-- One round of the two UDP loops, which differ in where the sender's address goes.
unfoldable pub recvfrom_round : Target → ℤ → Op (Unit {0})
recvfrom_round target max_bytes = do
  fd ← gets λ s. s.socket
  r ← call (Call.recvfrom fd max_bytes)
  store target (pos 0) r.bytes
  modify (note_sender r)
  modify λ s. record s { bytes_received = r.ret }
  translate_socket_error

unfoldable pub recvfrom_loop : ℕ → Target → ℤ → Op (Unit {0})
recvfrom_loop zero target max_bytes env s = exhausted s
recvfrom_loop (suc fuel) target max_bytes env s =
    let again = recvfrom_loop fuel target max_bytes in
    (recvfrom_round target max_bytes >> while_interrupted again) env s

unfoldable pub receive_by_type : ℕ → SocketType → Target → ℤ → Op (Unit {0})
receive_by_type fuel SocketType.tcp target max_bytes = recv_loop fuel target max_bytes
receive_by_type fuel SocketType.udp target max_bytes = recvfrom_loop fuel target max_bytes
receive_by_type fuel _ target max_bytes = pure tt

-- After the switch: an error frees the internal buffer, also when the caller's was used.
unfoldable pub finish : Op ℤ
unfolding free_buffer
finish = do
  end_timer
  translate_socket_error
  n ← gets λ s. s.bytes_received
  when (n ==ℤ minus_one) free_buffer
  gets λ s. s.bytes_received

unfoldable pub receive : ℕ → ℤ → Target → Op ℤ
unfolding prepare receive_by_type finish
receive fuel max_bytes target = do
  modify λ s. record s { bytes_received = pos 0 }
  valid ← is_socket_valid
  branch valid
      (do
        prepare target max_bytes
        set_socket_error SocketError.success
        start_timer
        type ← gets λ s. s.socket_type
        receive_by_type fuel type target max_bytes
        finish)
      (gets λ s. s.bytes_received)
