-- ===== src/Windows.antt =====
-- The parts of src/SimpleSocket.cpp and src/ActiveSocket.cpp that Windows compiles in place of those of
-- Linux. The rest of a method is the same. What `WSAGetLastError` gives is an argument; it may depend on
-- the calls made so far.
pub mod Modes
pub mod Names
use clsocket.Base.{ℕ, ℤ, pos, ◌==ℤ◌, ◌==◌, Bool, true, false, none, some, List}
use clsocket.Net.{Errno, Family, CString, Call}
use clsocket.Error.Windows.{WsaError, translate_wsa_error}
use clsocket.Socket.{
  Op, returned, pure, ◌>>=◌, ◌>>◌, branch, gets, modify, call, set_errno, is_socket_valid,
  socket_type_value, start_timer, end_timer,
}
use clsocket.Active.{zero_address, inaddr_none, htons, modify_server}

abbrev pub LastError : Type 0
LastError = List Call → WsaError

-- `TranslateSocketError`.
unfoldable pub translate_last_error : LastError → Op (Unit {0})
translate_last_error last_error env s =
    returned tt (record s {
      sock = record s.sock { socket_errno = translate_wsa_error (last_error s.trace) };
    })

-- `Initialize`: `WSAStartup(MAKEWORD(2, 0), ...)` comes first, and its result is not looked at.
unfoldable pub initialize_windows : LastError → Op Bool
unfolding translate_last_error socket_type_value
initialize_windows last_error = do
  set_errno Errno.exit_success
  call (Call.wsa_startup 2 0)
  start_timer
  domain ← gets λ s. s.socket_domain
  type ← gets λ s. s.socket_type
  r ← call (Call.socket domain (socket_type_value type) 0)
  modify λ s. record s { socket = r.ret }
  end_timer
  translate_last_error last_error
  is_socket_valid

unfoldable pub set_nonblocking_windows : LastError → Op Bool
unfolding translate_last_error
set_nonblocking_windows last_error = do
  fd ← gets λ s. s.socket
  r ← call (Call.ioctlsocket fd 1)
  branch (r.ret ==ℤ pos 0) (do modify λ s. record s { is_blocking = false }; pure true)
      (do translate_last_error last_error; pure false)

-- A failure is not translated here.
unfoldable pub set_blocking_windows : Op Bool
set_blocking_windows = do
  fd ← gets λ s. s.socket
  r ← call (Call.ioctlsocket fd 0)
  branch (r.ret ==ℤ pos 0) (do modify λ s. record s { is_blocking = true }; pure true) (pure false)

-- The part that the three `Connect` methods share.
unfoldable pub resolve_windows : LastError → CString → ℕ → Op Bool
unfolding translate_last_error
resolve_windows last_error name port = do
  modify_server λ _. record zero_address { sin_family = Family.af_inet }
  r ← call (Call.gethostbyname name)
  elim r.host [
    | none ↦ do translate_last_error last_error; pure false
    | some addr ↦ do
      modify_server λ a. record a { s_addr = addr }
      branch (addr == inaddr_none) (do translate_last_error last_error; pure false)
          (do p ← htons port; modify_server λ a. record a { sin_port = p }; pure true)
  ]
