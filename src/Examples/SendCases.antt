-- ===== src/Examples/SendCases.antt =====
-- `Send`, `Flush` and the vector form at concrete inputs.
use clsocket.Base.{zero, suc, pos, ◌≡◌, List, refl, some, [], ◌∷◌, arith}
use clsocket.Net.{Errno, SockOpt, OptLen, Call, Reply}
use clsocket.Error.{translate_errno, is_interrupted}
use clsocket.Socket.{Ends}
use clsocket.Socket.Send.{send, send_loop, flush}
use clsocket.Socket.Send.Retry.{Spins, SuccessKeepsErrno, Accepts}
use clsocket.Socket.Send.Method.{send_ends, send_interrupted_stuck}
use clsocket.Socket.Send.Flush.{flush_lem}
use clsocket.Examples.{start, scripted, answering, quiet, returning, failing, hello}

abbrev hello_call : Call
hello_call = Call.send (pos 5) hello

-- Interrupted once with another value of errno to follow, then accepted in part.
send_ends_example :
    Ends
      (send 3 (some hello) 5 (scripted (failing Errno.eintr ∷ failing Errno.epipe ∷ [])) start)
      λ sent s'. s'.trace ≡ hello_call ∷ hello_call ∷ []
unfolding is_interrupted translate_errno send send_loop
send_ends_example =
    (send_ends (scripted (failing Errno.eintr ∷ failing Errno.epipe ∷ [])) hello_call 3 1 5 hello
      start refl refl (omega arith) (omega arith) (omega arith) (refl, refl)).0

-- The first call is interrupted, and every later one is accepted, with errno left alone.
abbrev eintr_once : List Call → Reply
eintr_once [] = quiet
eintr_once (c ∷ []) = failing Errno.eintr
eintr_once (c ∷ d ∷ cs) = returning (pos 5)

eintr_once-SuccessKeepsErrno : SuccessKeepsErrno (answering eintr_once)
eintr_once-SuccessKeepsErrno [] h = refl
eintr_once-SuccessKeepsErrno (c ∷ []) h = absurd (h refl)
eintr_once-SuccessKeepsErrno (c ∷ d ∷ cs) h = refl

eintr_once-Accepts : Accepts (answering eintr_once) hello_call (hello_call ∷ [])
eintr_once-Accepts zero = ground arith
eintr_once-Accepts (suc k) = ground arith

send_interrupted_stuck_example :
    Spins
      (hello_call ∷ hello_call ∷ hello_call ∷ [])
      (send 3 (some hello) 5 (answering eintr_once) start)
send_interrupted_stuck_example =
    send_interrupted_stuck (answering eintr_once) hello_call 2 5 hello start refl refl (omega arith)
      (omega arith) eintr_once-SuccessKeepsErrno refl eintr_once-Accepts

flush_lem_example :
    Ends
      (flush (send 1) (scripted (failing Errno.efault ∷ [])) start)
      λ done s'. s'.trace ≡ Call.getsockopt (pos 5) SockOpt.tcp_nodelay (OptLen.cast_integer 4) ∷ []
unfolding flush send
flush_lem_example = (flush_lem (scripted (failing Errno.efault ∷ [])) start 1).1
