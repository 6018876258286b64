-- ===== src/Examples/RetryCases.antt =====
-- Methods added up over several calls: `Writev`, `Accept` after signals, UDP reception, flags.
use clsocket.Base.{pos, ◌≡◌, refl, [], ◌∷◌, some, none, arith}
use clsocket.Net.{Errno, Call}
use clsocket.Error.{is_interrupted, is_success, translate_errno}
use clsocket.Socket.{Ends}
use clsocket.Passive.{accept}
use clsocket.Passive.Accept.{accept_failed}
use clsocket.Passive.Retry.{accept-Signalled, handle_of}
use clsocket.Examples.{connected, start, scripted, returning, failing}

-- Two signals, then a connection on descriptor 7.
abbrev listening : Call
listening = Call.accept (pos 5)

accept-Signalled_example :
    Ends
      (accept 3 connected
        (scripted (failing Errno.eintr ∷ failing Errno.eintr ∷ returning (pos 7) ∷ []))
        start)
      λ client s'.
        (handle_of client ≡ some (pos 7))
        × (s'.socket ≡ pos 5)
        × (s'.trace
            ≡ Call.getsockname (pos 5)
              ∷ Call.getpeername (pos 5)
              ∷ listening
              ∷ listening
              ∷ listening
              ∷ [])
accept-Signalled_example =
    accept-Signalled (scripted (failing Errno.eintr ∷ failing Errno.eintr ∷ returning (pos 7) ∷ []))
      start connected 3 2 refl (omega arith) (refl, refl, refl, (refl, refl, refl, tt))
      (ground arith) refl

accept_failed_example :
    Ends (accept 1 connected (scripted (failing Errno.econnreset ∷ [])) start) λ client s'.
      (client ≡ none)
      × (s'.trace ≡ listening ∷ [])
      × (s'.socket ≡ pos 5)
      × (s'.socket_errno ≡ translate_errno Errno.econnreset)
      × (s'.client_sockaddr ≡ start.client_sockaddr)
      × (s'.socket_type ≡ start.socket_type)
unfolding is_interrupted is_success translate_errno
accept_failed_example =
    accept_failed (scripted (failing Errno.econnreset ∷ [])) start connected 0 Errno.econnreset refl
      refl refl refl refl refl

-- The flags are 2050: O_NONBLOCK (2048) and O_RDWR (2).
