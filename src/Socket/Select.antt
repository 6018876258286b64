-- ===== src/Socket/Select.antt =====
-- `Select` of src/SimpleSocket.cpp. The descriptor sets hold the socket alone; the reply to select(2)
-- says whether it is in the read and the write set afterwards.
pub mod Ready
use clsocket.Base.{
  ℤ, pos, negsuc, ◌==ℤ◌, ltb, ltb_ℤ, Bool, true, false, ◌||◌, Option, none, some, if◌then◌else◌,
}
use clsocket.Net.{Errno, Timeval, SockOpt, OptLen, Call, Env}
use clsocket.Error.{SocketError}
use clsocket.Socket.{
  Op, pure, ◌>>=◌, ◌>>◌, branch, within, gets, call, set_errno, set_socket_error,
  translate_socket_error,
}

unfoldable pub is_exit_success : Errno → Bool
is_exit_success Errno.exit_success = true
is_exit_success _ = false

-- `FD_SET` and `FD_ISSET` reach the bit of a handle in a set that has `FD_SETSIZE` of them.
abbrev pub is_settable : Env → ℤ → Bool
is_settable env (pos n) = ltb n env.fd_setsize
is_settable env (negsuc n) = false

abbrev pub set_descriptor : ℤ → Op (Unit {0})
set_descriptor fd env s = within (is_settable env fd) env s

-- A null pointer blocks; a time is given if one of the arguments is positive.
unfoldable pub select_timeout : ℤ → ℤ → Option Timeval
select_timeout sec usec =
    if ltb_ℤ (pos 0) sec || ltb_ℤ (pos 0) usec
    then some (record { tv_sec = sec; tv_usec = usec })
    else none

-- `SO_ERROR`: the pending error becomes errno.
unfoldable pub pending_error : Op Bool
unfolding is_exit_success
pending_error = do
  fd ← gets λ s. s.socket
  r ← call (Call.getsockopt fd SockOpt.so_error (OptLen.at_object 4))
  ready ←
      branch (r.ret ==ℤ pos 0) (do set_errno r.pending; pure (is_exit_success r.pending))
        (pure false)
  translate_socket_error
  pure ready

unfoldable pub select : ℤ → ℤ → Op Bool
unfolding select_timeout pending_error
select sec usec = do
  fd ← gets λ s. s.socket
  set_descriptor fd
  r ← call (Call.select fd (select_timeout sec usec))
  branch (r.ret ==ℤ pos 0) (do set_socket_error SocketError.timedout; pure false)
      (branch (r.readable || r.writable) pending_error (pure false))
