-- ===== src/Active/Waiting.antt =====
-- `ConnectTCP` of src/ActiveSocket.cpp on every path behind the name: connected, refused, or waiting.
use clsocket.Base.{
  ℕ, pos, minus_one, ◌==ℤ◌, Bool, true, false, Bool-cases, inl, inr, not, ◌&&◌, ◌||◌, ◌≡◌, ◌≢◌,
  some, List, ◌∷◌, if◌then◌else◌, arith,
}
use clsocket.Net.{Errno, SockOpt, OptLen, Call, CString, Env}
use clsocket.Error.{SocketError, translate_errno, is_ewouldblock, is_einprogress}
use clsocket.Socket.{State, Ends, fault, or_else}
use clsocket.Socket.Select.{is_exit_success, is_settable, select_timeout, select}
use clsocket.Active.{inaddr_none, is_pending, connect_tcp}
use clsocket.Active.Connect.{host_trace, server_of, connect_trace}

module _ (env : Env) (s : State) (name : CString) (port addr : ℕ) where
  -- errno after connect(2), and the error that it makes.
  abbrev connect_errno : Errno
  connect_errno =
      or_else (env.reply (connect_trace env s name port addr)).errno
        (or_else (env.reply (host_trace env s name port)).errno s.errno)

  abbrev connect_error : SocketError
  connect_error = translate_errno connect_errno

  abbrev pub is_refused : Bool
  is_refused = (env.reply (connect_trace env s name port addr)).ret ==ℤ minus_one

  -- Whether the method waits for the connection with select(2), and its calls then.
  abbrev pub waits : Bool
  waits = is_refused && (not s.is_blocking && is_pending connect_error)

  abbrev pub waiting_trace : List Call
  waiting_trace =
      Call.select s.socket (select_timeout s.connect_timeout.tv_sec s.connect_timeout.tv_usec)
      ∷ connect_trace env s name port addr

  abbrev pub checked_trace : List Call
  checked_trace = Call.getsockopt s.socket SockOpt.so_error (OptLen.at_object 4) ∷ waiting_trace

  abbrev pub is_touched : Bool
  is_touched =
      let r = env.reply waiting_trace in not (r.ret ==ℤ pos 0) && (r.readable || r.writable)

  -- errno after the option has been read, and the error that the method ends with.
  abbrev checked_errno : Errno
  checked_errno =
      let o = env.reply checked_trace in
      if o.ret ==ℤ pos 0
      then o.pending
      else or_else o.errno (or_else (env.reply waiting_trace).errno connect_errno)

  abbrev final_error : SocketError
  final_error =
      if waits && ((env.reply waiting_trace).ret ==ℤ pos 0)
      then SocketError.timedout
      else translate_errno (if waits && is_touched then checked_errno else connect_errno)

  -- When the host resolves to an address other than INADDR_NONE, `connect_tcp` stores that address
  -- and the port in network order as the server's and calls connect(2) once. It is true if the call
  -- did not return -1. If it did, the object does not block and the error is would-block or in-
  -- progress, it calls select(2) with the time limit on record (with a handle that is not from 0 to
  -- below FD_SETSIZE it sets a bit outside the descriptor sets instead), and is true exactly if
  -- that did not return 0 and left the socket in a set, and SO_ERROR, which it reads only then,
  -- could be read and was 0; else it is false at once. The error at the end is timed out if
  -- select(2) returned 0, and otherwise the translation of errno, which is the pending error where
  -- that was read. The handle stays.
  pub connect_tcp_lem :
      (env.reply (host_trace env s name port)).host ≡ some addr
      → addr ≢ inaddr_none
      → let o = env.reply checked_trace in
        if waits && not (is_settable env s.socket)
        then (connect_tcp name port env s ≡ fault)
        else (Ends (connect_tcp name port env s) λ done u.
            (done ≡ (
              if waits
              then is_touched && (o.ret ==ℤ pos 0 && is_exit_success o.pending)
              else not is_refused))
            × (u.trace ≡ (
                if waits
                then (if is_touched then checked_trace else waiting_trace)
                else connect_trace env s name port addr))
            × (u.server_sockaddr ≡ server_of env s name port addr)
            × (u.socket ≡ s.socket)
            × (u.socket_errno ≡ final_error))
  unfolding connect_tcp select
  connect_tcp_lem e ne = elim (Bool-cases (is_settable env s.socket)) [
    | inl settable ↦ rw settable (ground arith)
    | inr out_of_range ↦ rw out_of_range (ground arith)
  ]

  -- A connection in progress is waited for, and made.
  pub connect_tcp_waited :
      s.is_blocking ≡ false
      → is_settable env s.socket ≡ true
      → (env.reply (host_trace env s name port)).host ≡ some addr
      → addr ≢ inaddr_none
      → (env.reply (connect_trace env s name port addr)).ret ≡ minus_one
      → (env.reply (connect_trace env s name port addr)).errno ≡ some Errno.einprogress
      → (env.reply waiting_trace).ret ≡ pos 1
      → (env.reply waiting_trace).writable ≡ true
      → (env.reply checked_trace).ret ≡ pos 0
      → (env.reply checked_trace).pending ≡ Errno.exit_success
      → Ends (connect_tcp name port env s) λ done u.
        (done ≡ true)
        × (u.trace ≡ checked_trace)
        × (u.socket ≡ s.socket)
        × (u.errno ≡ Errno.exit_success)
        × (u.socket_type ≡ s.socket_type)
        × (u.flags ≡ s.flags)
        × (u.buffer ≡ s.buffer)
  unfolding connect_tcp select is_exit_success translate_errno is_ewouldblock is_einprogress
  connect_tcp_waited nb settable e ne failed progress woken ready got fine = ground arith
