-- ===== src/Socket/Receive/Datagram.antt =====
-- `Receive` of a UDP socket into the caller's memory.
use clsocket.Base.{
  ℕ, suc, ◌≤◌, ℤ, pos, minus_one, ◌==ℤ◌, true, false, ◌≡◌, none, some, List, ◌∷◌, ◌++◌, map, drop,
  length, if◌then◌else◌, arith,
}
use clsocket.Net.{Call, Env, Bytes}
use clsocket.Timer.{initialize, set_start_time}
use clsocket.Error.{SocketError, translate_errno, is_interrupted}
use clsocket.Socket.{SocketType, State, Ends, returned, is_valid_handle, or_else}
use clsocket.Socket.Receive.{
  Target, store, prepare, recvfrom_round, recvfrom_loop, receive_by_type, finish, receive,
}
use clsocket.Socket.Receive.Memory.{write_at_start}

store_caller :
    (env : Env) (u : State) (bytes : Bytes)
    → length bytes ≤ length u.caller_buffer
    → store Target.caller (pos 0) bytes env u
      ≡ returned tt
          (record u { caller_buffer = map some bytes ++ drop (length bytes) u.caller_buffer })
unfolding store
store_caller env u bytes h = ground (arith, write_at_start bytes u.caller_buffer h)

-- The state in which the switch starts.
abbrev switching : Env → State → State
switching env s = record s {
  sock = record s.sock {
    bytes_received = pos 0;
    socket_errno = SocketError.success;
    timer = set_start_time (env.clock s.ticks) (initialize s.timer);
  };
  ticks = suc s.ticks;
}

module _ (env : Env) (fuel : ℕ) (max : ℤ) (s : State) where
  abbrev pub recvfrom_trace : List Call
  recvfrom_trace = Call.recvfrom s.socket max ∷ s.trace

  -- On a valid UDP socket, with memory of the caller's that has room for the bytes that come and no
  -- interruption, `receive` makes one recvfrom(2), returns its result, sets the error from errno,
  -- writes the bytes at the start of the memory and nothing behind them, stores the sender as the
  -- multicast group or the client as the object is for multicast or not, and frees the internal
  -- buffer exactly if the call failed; the handle, the type and the mode stay, and errno is the
  -- call's, or the one before.
  pub receive_datagram :
      s.socket_type ≡ SocketType.udp
      → is_valid_handle s.sock ≡ true
      → let r = env.reply recvfrom_trace in
        length r.bytes ≤ length s.caller_buffer
        → is_interrupted (translate_errno (or_else r.errno s.errno)) ≡ false
        → Ends (receive (suc fuel) max Target.caller env s) λ got s'.
          (got ≡ r.ret)
          × (s'.trace ≡ recvfrom_trace)
          × (s'.socket_errno ≡ translate_errno (or_else r.errno s.errno))
          × (s'.caller_buffer ≡ map some r.bytes ++ drop (length r.bytes) s.caller_buffer)
          × (s'.multicast_group
              ≡ (if s.is_multicast then or_else r.addr s.multicast_group else s.multicast_group))
          × (s'.client_sockaddr
              ≡ (if s.is_multicast then s.client_sockaddr else or_else r.addr s.client_sockaddr))
          × (s'.buffer ≡ (if r.ret ==ℤ minus_one then none else s.buffer))
          × (s'.socket ≡ s.socket)
          × (s'.socket_type ≡ s.socket_type)
          × (s'.is_multicast ≡ s.is_multicast)
          × (s'.errno ≡ or_else r.errno s.errno)
  unfolding receive receive_by_type recvfrom_loop recvfrom_round prepare finish
  receive_datagram udp valid fits calm =
      let c = Call.recvfrom s.socket max in
      let r = env.reply (c ∷ s.trace) in
      let t = switching env s in
      let u : State = record t { trace = c ∷ s.trace; errno = or_else r.errno s.errno } in
      ground (arith, store_caller env u r.bytes fits)
