-- ===== src/Passive/Sending.antt =====
-- `CPassiveSocket::Send` of src/PassiveSocket.cpp.
use clsocket.Base.{
  ℕ, ◌<◌, ◌≤◌, length, minus_one, ◌==ℤ◌, true, ◌≡◌, some, List, ◌∷◌, take, if◌then◌else◌, arith,
}
use clsocket.Net.{Call, Bytes, Env}
use clsocket.Error.{SocketError, translate_errno}
use clsocket.Socket.{SocketType, State, Ends, is_valid_handle, or_else}
use clsocket.Socket.Send.{Pointer, send}
use clsocket.Passive.{passive_send}

module _ (env : Env) (s : State) (fuel : ℕ) where
  -- On a TCP socket `passive_send` is `send`: the same result and the same final state.
  passive_send-tcp :
      (buf : Pointer) (n : ℕ)
      → s.socket_type ≡ SocketType.tcp
      → passive_send fuel buf n env s ≡ send fuel buf n env s
  unfolding passive_send send
  passive_send-tcp buf n tcp = ground arith

  abbrev pub to_client : Bytes → ℕ → List Call
  to_client bytes n = Call.sendto s.socket (take n bytes) s.client_sockaddr ∷ s.trace

  -- On a valid UDP socket, with a buffer that has the positive length given, `passive_send` makes one sendto(2)
  -- to the client's address and returns and stores its result; the error is success, or the
  -- translation of errno if the result is -1. The handle, the type, the mode, the client's address
  -- and the caller's memory stay.
  pub passive_send-udp :
      (bytes : Bytes) (n : ℕ)
      → s.socket_type ≡ SocketType.udp
      → is_valid_handle s.sock ≡ true
      → 0 < n
      → n ≤ length bytes
      → let r = env.reply (to_client bytes n) in
        Ends (passive_send fuel (some bytes) n env s) λ sent s'.
          (sent ≡ r.ret)
          × (s'.bytes_sent ≡ r.ret)
          × (s'.trace ≡ to_client bytes n)
          × (s'.socket_errno ≡ (
              if r.ret ==ℤ minus_one
              then translate_errno (or_else r.errno s.errno)
              else SocketError.success))
          × (s'.socket ≡ s.socket)
          × (s'.socket_type ≡ s.socket_type)
          × (s'.is_multicast ≡ s.is_multicast)
          × (s'.client_sockaddr ≡ s.client_sockaddr)
          × (s'.caller_buffer ≡ s.caller_buffer)
          × (s'.errno ≡ or_else r.errno s.errno)
  unfolding passive_send
  passive_send-udp bytes n udp valid h r = ground arith
