-- ===== src/Socket/Send.antt =====
-- `Send`, its vector form, `Flush` and `Writev` of src/SimpleSocket.cpp.
pub mod Retry
pub mod Method
pub mod Flush
pub mod Vector
use clsocket.Base.{
  ℕ, zero, suc, ◌+◌, ℤ, pos, minus_one, ◌==ℤ◌, ◌+ℤ◌, ltb, leb, length, Bool, true, false, not, ◌&&◌,
  Option, none, some, List, [], ◌∷◌, take,
}
use clsocket.Net.{SockOpt, OptValue, OptLen, Call, Bytes}
use clsocket.Error.{SocketError, is_interrupted}
use clsocket.Socket.Lifecycle.{is_not_null}
use clsocket.Socket.{
  SocketType, Op, exhausted, pure, ◌>>=◌, ◌>>◌, branch, when, within, gets, modify, call,
  set_socket_error, translate_socket_error, is_socket_valid, start_timer, end_timer,
}

-- `do { m_nBytesSent = SEND(...); TranslateSocketError(); } while (... == SocketInterrupted);`
unfoldable pub send_loop : ℕ → Call → Op (Unit {0})
send_loop zero c env s = exhausted s
send_loop (suc fuel) c env s =
    let again = send_loop fuel c in
    (do
      r ← call c
      modify λ t. record t { bytes_sent = r.ret }
      translate_socket_error
      e ← gets λ t. t.socket_errno
      branch (is_interrupted e) again (pure tt))
      env s

-- A pointer to bytes; `none` is NULL.
abbrev pub Pointer : Type 0
Pointer = Option Bytes

abbrev pub pointed : Pointer → Bytes
pointed none = []
pointed (some bs) = bs

-- Whether so many bytes are at the pointer. A null pointer has none.
abbrev pub is_readable : Pointer → ℕ → Bool
is_readable buf n = leb n (length (pointed buf))

-- The body of a case of the switch: the guards, the timer and the loop, whose call reads the bytes.
unfoldable pub send_guarded : ℕ → Bool → Bool → Call → Op (Unit {0})
send_guarded fuel given there c = do
  valid ← is_socket_valid
  when (valid && given) (do within there; start_timer; send_loop fuel c; end_timer)

unfoldable pub send_by_type : ℕ → SocketType → Pointer → ℕ → Op (Unit {0})
unfolding send_guarded
send_by_type fuel SocketType.tcp buf n = do
  fd ← gets λ s. s.socket
  send_guarded fuel (ltb 0 n && is_not_null buf) (is_readable buf n)
      (Call.send fd (take n (pointed buf)))
send_by_type fuel SocketType.udp buf n = do
  fd ← gets λ s. s.socket
  server ← gets λ s. s.server_sockaddr
  send_guarded fuel (ltb 0 n && is_not_null buf) (is_readable buf n)
      (Call.sendto fd (take n (pointed buf)) server)
send_by_type fuel _ buf n = pure tt

unfoldable pub send : ℕ → Pointer → ℕ → Op ℤ
unfolding send_by_type
send fuel buf n = do
  set_socket_error SocketError.success
  modify λ s. record s { bytes_sent = pos 0 }
  type ← gets λ s. s.socket_type
  send_by_type fuel type buf n
  gets λ s. s.bytes_sent

-- The vector form: one writev(2), no loop. Each element is the bytes that it points to.
unfoldable pub send_vector : List Bytes → Op ℤ
send_vector vector = do
  set_socket_error SocketError.success
  modify λ s. record s { bytes_sent = pos 0 }
  fd ← gets λ s. s.socket
  r ← call (Call.writev fd vector)
  modify λ s. record s { bytes_sent = r.ret }
  when (r.ret ==ℤ minus_one) translate_socket_error
  gets λ s. s.bytes_sent

abbrev or_zero : Option ℤ → ℤ
or_zero none = pos 0
or_zero (some v) = v

-- `Send` is virtual: `Flush` and `Writev` call that of the object's own class.
abbrev pub SendMethod : Type 0
SendMethod = Pointer → ℕ → Op ℤ

-- The third argument of `GETSOCKOPT` here is `sizeof(int32)`, which the macro casts to a pointer.
unfoldable pub flush : SendMethod → Op Bool
flush send_method = do
  fd ← gets λ s. s.socket
  old ← call (Call.getsockopt fd SockOpt.tcp_nodelay (OptLen.cast_integer 4))
  branch (old.ret ==ℤ pos 0)
      (do
        set ← call (Call.setsockopt fd SockOpt.tcp_nodelay (OptValue.int_value (pos 1)))
        flushed ←
            branch (set.ret ==ℤ pos 0)
              (do
                n ← send_method (some (0 ∷ [])) 0
                translate_socket_error
                pure (not (n ==ℤ minus_one)))
              (pure false)
        call (Call.setsockopt fd SockOpt.tcp_nodelay (OptValue.int_value (or_zero old.value)))
        pure flushed)
      (pure false)

-- The loop of `Writev`: the bytes sent so far and the index at which it stops.
unfoldable pub writev_loop : SendMethod → List (Pointer × ℕ) → ℤ → ℕ → Op (ℤ × ℕ)
writev_loop send_method [] total i = pure (total, i)
writev_loop send_method ((base, len) ∷ vector) total i = do
  n ← send_method base len
  branch (n ==ℤ minus_one) (pure (total, i)) (writev_loop send_method vector (total +ℤ n) (i + 1))

unfoldable pub writev : SendMethod → List (Pointer × ℕ) → Op ℤ
unfolding writev_loop
writev send_method vector = do
  (total, i) ← writev_loop send_method vector (pos 0) 0
  branch (ltb 0 i) (flush send_method) (pure false)
  pure total
