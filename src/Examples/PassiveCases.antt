-- ===== src/Examples/PassiveCases.antt =====
-- `CPassiveSocket` at concrete inputs.
use clsocket.Base.{pos, false, ◌≡◌, refl, some, none, [], ◌∷◌, arith}
use clsocket.Net.{Errno, CString, Env}
use clsocket.Socket.{State, Outcome, Ends, returned, exhausted, fault}
use clsocket.Socket.Lifecycle.{close}
use clsocket.Passive.{attempt_listen, listen, accept}
use clsocket.Passive.Listen.{attempt_listen_lem, listen_failed, listen_bad_address}
use clsocket.Passive.Accept.{accept_connection, Adopted}
use clsocket.Passive.FirstRead.{accept_and_read, Blamed, accept_and_read-Blamed}
use clsocket.Examples.{connected, start, scripted, quiet, returning, failing, hello}

abbrev bogus : CString
bogus = 120 ∷ []

listen_bad_address_example :
    listen (some bogus) 80 (pos 10) (scripted []) start
    ≡ listen none 80 (pos 10) (scripted []) start
listen_bad_address_example = listen_bad_address (scripted []) start 80 (pos 10) 120 [] refl refl

accept_connection_example :
    Ends
      (accept 1 connected (scripted (returning (pos 9) ∷ [])) start)
      (Adopted (scripted (returning (pos 9) ∷ [])) start connected)
accept_connection_example =
    accept_connection (scripted (returning (pos 9) ∷ [])) start connected 0 refl (λ e. cc) refl

-- bind(2) finds the address in use.
abbrev in_use : Env
in_use = scripted (quiet ∷ quiet ∷ failing Errno.eaddrinuse ∷ [])

abbrev state_after : {A : Type 0} → Outcome A → State
state_after (returned a s) = s
state_after (exhausted s) = s
state_after fault = start

abbrev refused_state : State
unfolding attempt_listen
refused_state = state_after (attempt_listen none 80 (pos 10) in_use start)

listen_failed_example : Ends (listen none 80 (pos 10) in_use start) λ done s'. done ≡ false
unfolding listen attempt_listen close
listen_failed_example = (listen_failed in_use start 80 (pos 10) none refused_state refl refl).0

attempt_listen_lem_example : Ends (attempt_listen none 80 (pos 10) in_use start) λ ok u. ok ≡ false
unfolding attempt_listen
attempt_listen_lem_example = (attempt_listen_lem in_use start 80 (pos 10) none).0

-- A connection on descriptor 7 brings five bytes; the listening socket has no peer.
abbrev greeted_listener : Env
greeted_listener = scripted (
    returning (pos 7)
    ∷ failing Errno.enotconn
    ∷ quiet
    ∷ record quiet { ret = pos 5; bytes = hello }
    ∷ [])

accept_and_read-Blamed_example :
    Ends
      (accept_and_read 1 8 connected greeted_listener start)
      λ out s'. Blamed greeted_listener 0 8 connected (pos 7) start out
accept_and_read-Blamed_example =
    accept_and_read-Blamed greeted_listener 0 8 connected (pos 7) start refl (record {
      accepted = refl;
      open_handle = λ e. cc;
      accepted_calmly = refl;
      has_no_peer = refl;
      named_calmly = refl;
      fits = omega arith;
      read_calmly = refl;
    })
