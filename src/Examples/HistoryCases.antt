-- ===== src/Examples/HistoryCases.antt =====
-- A history at concrete calls: a socket is opened, receives, and is closed.
use clsocket.Base.{pos, refl, [], ◌∷◌}
use clsocket.Active.{destruct_active}
use clsocket.Passive.{destruct_passive}
use clsocket.Net.{Call, Env}
use clsocket.Error.{is_interrupted, translate_errno}
use clsocket.Socket.{Ends, SocketType, State, Outcome, returned, exhausted, fault}
use clsocket.Socket.Lifecycle.{initialize, close, construct}
use clsocket.Socket.Lifecycle.Handle.{fresh}
use clsocket.Socket.Receive.{Target, receive, recv_loop, recv_round, store, write_at}
use clsocket.History.{Method, run, here, step}
use clsocket.History.Invariant.{Gone, lifetime_lem}
use clsocket.Examples.{connected, start, scripted, quiet, returning, hello}

-- socket(2) gives 5, five bytes come, and close(2) succeeds.
abbrev kernel : Env
kernel = scripted (returning (pos 5) ∷ record quiet { ret = pos 5; bytes = hello } ∷ quiet ∷ [])

abbrev leaves : State → Outcome (Unit {0}) → State
leaves s (returned a t) = t
leaves s (exhausted t) = t
leaves s fault = s

abbrev opened_socket : State
opened_socket = leaves start (run Method.initialize kernel (fresh start connected SocketType.tcp))

abbrev greeted_socket : State
greeted_socket = leaves start (run (Method.receive 1 (pos 8) Target.internal) kernel opened_socket)

lifetime_lem_example :
    (Ends
      (destruct_active kernel greeted_socket)
      λ x u. Gone kernel (pos 5) (Call.close (pos 5)) greeted_socket u)
    × (Ends
        (destruct_passive kernel greeted_socket)
        λ x u. Gone kernel (pos 5) (Call.close (pos 5)) greeted_socket u)
unfolding run initialize close construct receive recv_loop recv_round store write_at is_interrupted
    translate_errno
lifetime_lem_example =
    lifetime_lem kernel (pos 5) start connected SocketType.tcp greeted_socket
      (step (Method.receive 1 (pos 8) Target.internal) (step Method.initialize here refl) refl)
