-- ===== src/Socket/Select/Ready.antt =====
-- When `Select` of src/SimpleSocket.cpp says that the socket is ready.
use clsocket.Socket.Steps.{>>-returned}
use clsocket.Base.{
  ℤ, pos, minus_one, ◌==ℤ◌, true, false, Bool-cases, inl, inr, not, ◌&&◌, ◌||◌, ◌≡◌, none, List,
  ◌∷◌, if◌then◌else◌, arith,
}
use clsocket.Net.{Errno, SockOpt, OptLen, Call, Env}
use clsocket.Error.{SocketError, translate_errno}
use clsocket.Socket.{
  returned, set_socket_error, ◌>>=◌, ◌>>◌, call, branch, pure, State, Ends, fault,
}
use clsocket.Socket.Select.{
  set_descriptor, pending_error, is_exit_success, is_settable, select_timeout, select,
}

module _ (env : Env) (s : State) (sec usec : ℤ) where
  abbrev pub select_trace : List Call
  select_trace = Call.select s.socket (select_timeout sec usec) ∷ s.trace

  abbrev pub error_trace : List Call
  error_trace = Call.getsockopt s.socket SockOpt.so_error (OptLen.at_object 4) ∷ select_trace

  -- With a handle that `FD_SET` can take, what follows it.
  pub select-settable :
      is_settable env s.socket ≡ true
      → select sec usec env s ≡ (
          (do
            r ← call (Call.select s.socket (select_timeout sec usec))
            branch
                (r.ret ==ℤ pos 0)
                (do set_socket_error SocketError.timedout; pure false)
                (branch (r.readable || r.writable) pending_error (pure false)))
            env s)
  unfolding select
  select-settable settable =
      let set : set_descriptor s.socket env s ≡ returned tt s = ground (arith, settable) in
      >>-returned env s s tt (set_descriptor s.socket)
        (do
          r ← call (Call.select s.socket (select_timeout sec usec))
          branch (r.ret ==ℤ pos 0) (do set_socket_error SocketError.timedout; pure false)
              (branch (r.readable || r.writable) pending_error (pure false)))
        set

  -- With a handle from 0 to below FD_SETSIZE, `select` is true exactly if select(2) did not return
  -- 0, left the socket in one of the sets, and SO_ERROR could be read and was 0; it reads SO_ERROR
  -- exactly if the first two hold, keeps the handle, and a return of 0 sets the error to timed out.
  -- With any other handle it sets a bit outside the descriptor sets.
  pub select_lem :
      let r = env.reply select_trace in
      let o = env.reply error_trace in
      let touched = not (r.ret ==ℤ pos 0) && (r.readable || r.writable) in
      if is_settable env s.socket
      then (Ends (select sec usec env s) λ ready s'.
          (ready ≡ (touched && (o.ret ==ℤ pos 0 && is_exit_success o.pending)))
          × (s'.trace ≡ (if touched then error_trace else select_trace))
          × (s'.socket ≡ s.socket)
          × (r.ret ≡ pos 0 → s'.socket_errno ≡ SocketError.timedout))
      else (select sec usec env s ≡ fault)
  unfolding select
  select_lem = elim (Bool-cases (is_settable env s.socket)) [
    | inl settable ↦ rw settable (ground arith)
    | inr out_of_range ↦ rw out_of_range (ground arith)
  ]

  -- When select(2) returns -1 and leaves the socket in the read set, and SO_ERROR is read as 0
  -- without touching errno, `select` is true and sets the error to success.
  select_failed_ready :
      let r = env.reply select_trace in
      let o = env.reply error_trace in
      is_settable env s.socket ≡ true
      → r.ret ≡ minus_one
      → r.readable ≡ true
      → o.ret ≡ pos 0
      → o.errno ≡ none
      → o.pending ≡ Errno.exit_success
      → Ends
          (select sec usec env s)
          λ ready s'. (ready ≡ true) × (s'.socket_errno ≡ SocketError.success)
  unfolding select is_exit_success translate_errno
  select_failed_ready settable failed kept got calm fine = ground arith
