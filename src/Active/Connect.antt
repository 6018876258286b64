-- ===== src/Active/Connect.antt =====
-- What the `Connect` methods of src/ActiveSocket.cpp share, and where they differ.
use clsocket.Base.{
  ℕ, minus_one, ◌==ℤ◌, true, false, not, ◌≡◌, ◌≢◌, refl, none, some, List, ◌∷◌, arith,
}
use clsocket.Net.{Family, SockAddr, Call, CString, Env}
use clsocket.Error.{SocketError, translate_errno}
use clsocket.Socket.{State, Ends, or_else}
use clsocket.Active.{inaddr_none, connect_tcp, connect_udp, connect_raw}

module _ (env : Env) (s : State) (name : CString) (port : ℕ) where
  connect_raw-eq-udp : connect_raw name port env s ≡ connect_udp name port env s
  unfolding connect_raw connect_udp
  connect_raw-eq-udp = refl

  abbrev pub host_trace : List Call
  host_trace = Call.gethostbyname name ∷ s.trace

  -- The server's address, from the host's.
  abbrev pub server_of : ℕ → SockAddr
  server_of addr = record { sin_family = Family.af_inet; sin_port = env.htons port; s_addr = addr }

  -- The calls once connect(2) has been made.
  abbrev pub connect_trace : ℕ → List Call
  connect_trace addr = Call.connect s.socket (server_of addr) ∷ host_trace

  -- When the host resolves to an address other than INADDR_NONE, `connect_udp` calls connect(2)
  -- once with that address and the port in network order, which it stores as the server's, is true
  -- exactly if the call did not return -1, and sets the error from errno after the two calls.
  connect_udp_lem :
      (addr : ℕ)
      → (env.reply host_trace).host ≡ some addr
      → addr ≢ inaddr_none
      → let r = env.reply (connect_trace addr) in
        Ends (connect_udp name port env s) λ done s'.
          (done ≡ not (r.ret ==ℤ minus_one))
          × (s'.trace ≡ connect_trace addr)
          × (s'.server_sockaddr ≡ server_of addr)
          × (s'.socket_errno
              ≡ translate_errno (or_else r.errno (or_else (env.reply host_trace).errno s.errno)))
  unfolding connect_udp
  connect_udp_lem addr e ne = ground arith

  -- When gethostbyname(3) gives NULL and h_errno is HOST_NOT_FOUND, `connect_tcp` and `connect_udp`
  -- return false after that one call, with the error invalid address.
  connect_unresolved :
      (env.reply host_trace).host ≡ none
      → (env.reply host_trace).host_not_found ≡ true
      → (Ends (connect_tcp name port env s) λ done s'.
          (done ≡ false)
          × (s'.trace ≡ host_trace)
          × (s'.socket_errno ≡ SocketError.invalid_address))
        × (Ends (connect_udp name port env s) λ done s'.
            (done ≡ false)
            × (s'.trace ≡ host_trace)
            × (s'.socket_errno ≡ SocketError.invalid_address))
  unfolding connect_tcp connect_udp
  connect_unresolved e h = ground arith

  -- On an object marked as blocking `connect_tcp` and `connect_udp` have the same result and the
  -- same final state.
  connect_tcp-blocking :
      s.is_blocking ≡ true → connect_tcp name port env s ≡ connect_udp name port env s
  unfolding connect_tcp connect_udp
  connect_tcp-blocking h = ground arith
