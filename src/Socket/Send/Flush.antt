-- ===== src/Socket/Send/Flush.antt =====
-- What `Flush` of src/SimpleSocket.cpp does, call by call.
use clsocket.Base.{ℕ, ℤ, pos, ◌==ℤ◌, ◌&&◌, ◌≡◌, some, List, [], ◌∷◌, if◌then◌else◌, arith}
use clsocket.Net.{SockOpt, OptValue, OptLen, Call, Env}
use clsocket.Socket.{SocketType, State, Ends}
use clsocket.Socket.Send.{send, send_by_type, flush, or_zero}

module _ (env : Env) (s : State) where
  abbrev nodelay : ℤ → Call
  nodelay v = Call.setsockopt s.socket SockOpt.tcp_nodelay (OptValue.int_value v)

  abbrev get_trace : List Call
  get_trace = Call.getsockopt s.socket SockOpt.tcp_nodelay (OptLen.cast_integer 4) ∷ s.trace

  abbrev set_trace : List Call
  set_trace = nodelay (pos 1) ∷ get_trace

  send_empty :
      (t : SocketType) (fuel : ℕ) (u : State)
      → Ends (send_by_type fuel t (some (0 ∷ [])) 0 env u) λ n u'. u' ≡ u
  unfolding send_by_type
  send_empty SocketType.tcp fuel u = ground arith
  send_empty _ fuel u = ground arith

  -- `flush` reads TCP_NODELAY with a length argument that is an integer cast to a pointer; if that
  -- gives 0 it switches the option on, then writes back the value it read, and it makes no other
  -- call: nothing is sent. It is true exactly if reading and switching on gave 0.
  pub flush_lem :
      (fuel : ℕ)
      → let got = env.reply get_trace in
        let set = env.reply set_trace in
        Ends (flush (send fuel) env s) λ done s'.
          (done ≡ (got.ret ==ℤ pos 0 && set.ret ==ℤ pos 0))
          × (s'.trace
              ≡ (if got.ret ==ℤ pos 0 then nodelay (or_zero got.value) ∷ set_trace else get_trace))
  unfolding flush send
  flush_lem fuel = ground (arith, send_empty s.socket_type fuel)
