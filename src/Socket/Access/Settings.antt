-- ===== src/Socket/Access/Settings.antt =====
-- What the setters of src/SimpleSocket.cpp store, and what their getters in src/SimpleSocket.h read.
use clsocket.Base.{ℤ, minus_one, ◌==ℤ◌, not, Bool, ◌≡◌, List, ◌∷◌, if◌then◌else◌, arith}
use clsocket.Net.{SockOpt, OptValue, Timeval, Call, Env}
use clsocket.Error.{SocketError, translate_errno}
use clsocket.Socket.{State, Ends, is_valid_handle, or_else}
use clsocket.Socket.Lifecycle.{set_connect_timeout}
use clsocket.Socket.Options.{set_receive_timeout, set_send_timeout}
use clsocket.Socket.Access.{
  get_connect_timeout_sec, get_connect_timeout_usec, get_receive_timeout_sec,
  get_receive_timeout_usec, get_send_timeout_sec, get_send_timeout_usec, set_receive_window_size,
  set_send_window_size,
}

module _ (env : Env) (s : State) where
  abbrev option_trace : SockOpt → OptValue → List Call
  option_trace opt v = Call.setsockopt s.socket opt v ∷ s.trace

  -- Whether the kernel took the option, and the error that is then on record.
  abbrev pub Answers : List Call → Bool → State → Type 0
  Answers cs done s' =
      let r = env.reply cs in
      (s'.trace ≡ cs)
      × (done ≡ not (r.ret ==ℤ minus_one))
      × (s'.socket_errno
          ≡ (if done then s.socket_errno else translate_errno (or_else r.errno s.errno)))

  -- `set_receive_timeout` and `set_send_timeout` make one setsockopt(2) with the time given, are
  -- true exactly if it did not return -1, set the error from errno exactly if it did, and the
  -- getters give the time that was asked for, even if the kernel refused it; so do those of the
  -- connect timeout, which calls nothing.
  timeouts_lem :
      (sec usec : ℤ)
      → let t : Timeval = record { tv_sec = sec; tv_usec = usec } in
        (Ends (set_receive_timeout sec usec env s) λ done s'.
          Answers (option_trace SockOpt.so_rcvtimeo (OptValue.time_value t)) done s'
          × (get_receive_timeout_sec s'.sock ≡ sec)
          × (get_receive_timeout_usec s'.sock ≡ usec))
        × (Ends (set_send_timeout sec usec env s) λ done s'.
            Answers (option_trace SockOpt.so_sndtimeo (OptValue.time_value t)) done s'
            × (get_send_timeout_sec s'.sock ≡ sec)
            × (get_send_timeout_usec s'.sock ≡ usec))
        × (get_connect_timeout_sec (set_connect_timeout sec usec s.sock) ≡ sec)
        × (get_connect_timeout_usec (set_connect_timeout sec usec s.sock) ≡ usec)
  unfolding set_receive_timeout set_send_timeout get_receive_timeout_sec get_receive_timeout_usec
      get_send_timeout_sec get_send_timeout_usec get_connect_timeout_sec get_connect_timeout_usec
      set_connect_timeout
  timeouts_lem sec usec = ground arith

  -- The error after a window size was set: the kernel's answer, or that there is no socket.
  abbrev pub window_error : List Call → SocketError
  window_error cs =
      if is_valid_handle s.sock
      then translate_errno (or_else (env.reply cs).errno s.errno)
      else SocketError.invalid_socket

  set_window_size_lem :
      (n : ℤ)
      → let rcv = option_trace SockOpt.so_rcvbuf (OptValue.int_value n) in
        let snd = option_trace SockOpt.so_sndbuf (OptValue.int_value n) in
        (Ends (set_receive_window_size n env s) λ set s'.
          (set ≡ n)
          × (s'.socket_errno ≡ window_error rcv)
          × (s'.trace ≡ (if is_valid_handle s.sock then rcv else s.trace)))
        × (Ends (set_send_window_size n env s) λ set s'.
            (set ≡ n)
            × (s'.socket_errno ≡ window_error snd)
            × (s'.trace ≡ (if is_valid_handle s.sock then snd else s.trace)))
  unfolding set_receive_window_size set_send_window_size
  set_window_size_lem n = ground arith
