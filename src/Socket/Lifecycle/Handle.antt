-- ===== src/Socket/Lifecycle/Handle.antt =====
-- What `Initialize` and `Close` of src/SimpleSocket.cpp do to the socket handle.
use clsocket.Base.{
  ℕ, minus_one, ◌==ℤ◌, true, false, not, ◌≡◌, Option, none, some, List, [], ◌∷◌, if◌then◌else◌,
  arith,
}
use clsocket.Net.{Errno, Family, Call, Env}
use clsocket.Error.{translate_errno}
use clsocket.Socket.{
  SocketType, socket_type_value, SimpleSocket, State, Ends, is_valid_handle, or_else,
}
use clsocket.Socket.Lifecycle.{construct, initialize, close}

-- The call of close(2) that `Close` makes on an open handle.
abbrev pub close_trace : State → List Call
close_trace s = Call.close s.socket ∷ s.trace

module _ (env : Env) (s : State) where
  -- On a valid handle `close` calls close(2) once, frees the buffer, succeeds exactly if the call
  -- did not return -1, resets the handle exactly then, and sets the error from errno after the
  -- call.
  pub close-open :
      is_valid_handle s.sock ≡ true
      → let r = env.reply (close_trace s) in
        Ends (close env s) λ done s'.
          (s'.trace ≡ close_trace s)
          × (s'.buffer ≡ none)
          × (done ≡ not (r.ret ==ℤ minus_one))
          × (s'.socket ≡ (if r.ret ==ℤ minus_one then s.socket else minus_one))
          × (s'.socket_errno ≡ translate_errno (or_else r.errno s.errno))
  unfolding close
  close-open h = ground arith

  -- On an invalid handle `close` returns false without a call, keeps the handle, frees the buffer,
  -- and sets the error from the errno that was there.
  close-closed :
      is_valid_handle s.sock ≡ false
      → Ends (close env s) λ done s'.
        (done ≡ false)
        × (s'.trace ≡ s.trace)
        × (s'.socket ≡ s.socket)
        × (s'.buffer ≡ none)
        × (s'.socket_errno ≡ translate_errno s.errno)
  unfolding close
  close-closed h = ground arith

  -- After a `close` that succeeded, another `close` returns false and calls nothing: no handle is
  -- closed twice.
  close_twice : Ends (close env s) λ done s'.
      done ≡ true → Ends (close env s') λ again s''. (again ≡ false) × (s''.trace ≡ s'.trace)
  unfolding close
  close_twice = ground arith

  -- The call of socket(2) that `Initialize` makes.
  abbrev pub socket_trace : List Call
  socket_trace = Call.socket s.socket_domain (socket_type_value s.socket_type) 0 ∷ s.trace

  -- `initialize` calls socket(2) once for the object's family and type, stores the handle it gives,
  -- is true exactly if that is not -1, and sets the error from errno, which it clears before the
  -- call.
  initialize_lem :
      let r = env.reply socket_trace in
      Ends (initialize env s) λ done s'.
        (s'.trace ≡ socket_trace)
        × (s'.socket ≡ r.ret)
        × (done ≡ is_valid_handle s'.sock)
        × (s'.socket_errno ≡ translate_errno (or_else r.errno Errno.exit_success))
  unfolding initialize
  initialize_lem = ground arith

-- A new object in a program that has made no call.
abbrev pub fresh : State → SimpleSocket → SocketType → State
fresh s memory t = record s { sock = construct memory t; trace = [] }

-- The third argument of the latest call, if it is a call of socket(2) for that family.
abbrev pub requested : List Call → Option (Family × ℕ)
requested (Call.socket domain type protocol ∷ cs) = some (domain, type)
requested _ = none

-- After construction `initialize` asks socket(2) for AF_INET and type 1 for TCP, AF_INET and 2 for
-- UDP, AF_INET6 and 3 for TCP over IPv6, AF_INET6 and 4 for UDP over IPv6: the last two differ in
-- their types from the first two.
initialize_requests :
    (env : Env) (s : State) (memory : SimpleSocket)
    → (Ends
        (initialize env (fresh s memory SocketType.tcp))
        λ done s'. requested s'.trace ≡ some (Family.af_inet, 1))
      × (Ends
          (initialize env (fresh s memory SocketType.udp))
          λ done s'. requested s'.trace ≡ some (Family.af_inet, 2))
      × (Ends
          (initialize env (fresh s memory SocketType.tcp6))
          λ done s'. requested s'.trace ≡ some (Family.af_inet6, 3))
      × (Ends
          (initialize env (fresh s memory SocketType.udp6))
          λ done s'. requested s'.trace ≡ some (Family.af_inet6, 4))
unfolding initialize construct socket_type_value
initialize_requests env s memory = ground arith
