-- ===== src/Passive/Accept.antt =====
-- `Accept` of src/PassiveSocket.cpp: the new object, and what a failure leaves behind.
use clsocket.Base.{ℕ, suc, minus_one, true, false, ◌≡◌, ◌≢◌, Option, none, some, List, ◌∷◌, arith}
use clsocket.Net.{Errno, Call, Env}
use clsocket.Error.{SocketError, translate_errno, is_success, is_interrupted}
use clsocket.Socket.{SocketType, SimpleSocket, State, Ends, returned, or_else}
use clsocket.Active.{construct_active, destruct_active}
use clsocket.Passive.{accept_round, accept_loop, accept}

module _ (env : Env) (s : State) (memory : SimpleSocket) where
  -- On a socket that is not TCP `accept` returns NULL, calls nothing, and changes nothing but the
  -- error, to protocol error.
  accept_not_tcp :
      (fuel : ℕ)
      → s.socket_type ≢ SocketType.tcp
      → accept fuel memory env s
        ≡ returned none
            (record s { sock = record s.sock { socket_errno = SocketError.protocol_error } })
  unfolding accept
  accept_not_tcp fuel h = ground arith

  abbrev pub accept_trace : List Call
  accept_trace = Call.accept s.socket ∷ s.trace

  -- A new object for the connection.
  abbrev pub Adopted : Option SimpleSocket → State → Type 0
  Adopted none s' = ⊥
  Adopted (some client) s' =
      let r = env.reply accept_trace in
      (client.socket ≡ r.ret)
      × (client.socket_type ≡ SocketType.tcp)
      × (client.is_blocking ≡ true)
      × (client.buffer ≡ none)
      × (client.flags ≡ 0)
      × (client.socket_errno ≡ SocketError.success)
      × (client.client_sockaddr ≡ or_else r.addr s.client_sockaddr)
      × (s'.client_sockaddr ≡ client.client_sockaddr)
      × (s'.socket ≡ s.socket)
      × (s'.socket_type ≡ s.socket_type)
      × (s'.socket_errno ≡ s.socket_errno)
      × (s'.trace ≡ Call.getsockname s.socket ∷ Call.getpeername s.socket ∷ accept_trace)
      × (s'.errno
          ≡ or_else
              (env.reply
                (Call.getsockname s.socket ∷ Call.getpeername s.socket ∷ accept_trace)).errno
              (or_else (env.reply (Call.getpeername s.socket ∷ accept_trace)).errno
                Errno.exit_success))

  -- On a TCP socket, when the first accept(2) succeeds without touching errno, `accept` returns a
  -- new blocking TCP object without a buffer that has the accepted handle, the error success and
  -- the peer's address, which the listening object stores too; it calls getpeername(2) and
  -- getsockname(2) on the listening handle, and leaves that handle, the type and the listening
  -- object's error as they were; the new object has no flags, and errno is what the last two calls
  -- leave of success.
  pub accept_connection :
      (fuel : ℕ)
      → s.socket_type ≡ SocketType.tcp
      → (env.reply accept_trace).ret ≢ minus_one
      → (env.reply accept_trace).errno ≡ none
      → Ends (accept (suc fuel) memory env s) Adopted
  unfolding accept accept_loop accept_round is_success is_interrupted translate_errno
      construct_active
  accept_connection fuel tcp ok calm = ground arith

  -- On a TCP socket, when the first accept(2) fails with an errno that translates to neither
  -- interrupted nor success and reports no address, `accept` returns NULL after that one call,
  -- closes nothing, keeps the handle, the type and the client's address, and sets the error to the
  -- translation.
  pub accept_failed :
      (fuel : ℕ) (e : Errno)
      → s.socket_type ≡ SocketType.tcp
      → (env.reply accept_trace).ret ≡ minus_one
      → (env.reply accept_trace).errno ≡ some e
      → (env.reply accept_trace).addr ≡ none
      → is_interrupted (translate_errno e) ≡ false
      → is_success (translate_errno e) ≡ false
      → Ends (accept (suc fuel) memory env s) λ client s'.
        (client ≡ none)
        × (s'.trace ≡ accept_trace)
        × (s'.socket ≡ s.socket)
        × (s'.socket_errno ≡ translate_errno e)
        × (s'.client_sockaddr ≡ s.client_sockaddr)
        × (s'.socket_type ≡ s.socket_type)
  unfolding accept accept_loop accept_round destruct_active construct_active
  accept_failed fuel e tcp failed why unnamed calm bad = ground arith
