-- ===== src/Examples/LifecycleCases.antt =====
-- `Initialize`, `Close`, `Select`, the DSCP methods, the timer and the error texts at concrete inputs.
use clsocket.Base.{pos, minus_one, true, ◌≡◌, refl, none, some, [], ◌∷◌, arith}
use clsocket.Net.{Errno, Call, Env}
use clsocket.Timer.{get_micro_seconds}
use clsocket.Timer.Laws.{at_time, timed, get_micro_seconds-timed}
use clsocket.Socket.{SimpleSocket, Ends, returned}
use clsocket.Socket.Lifecycle.{close, copy_construct}
use clsocket.Socket.Lifecycle.Copy.{copy_construct_lem}
use clsocket.Socket.Lifecycle.Handle.{close-open}
use clsocket.Socket.Select.{select, is_exit_success}
use clsocket.Socket.Select.Ready.{select_lem}
use clsocket.Socket.Options.{set_socket_dscp, get_socket_dscp}
use clsocket.Socket.Options.Dscp.{set-get_socket_dscp, set_tos_trace, get_tos}
use clsocket.Examples.{connected, start, scripted, quiet}

close-open_example : Ends (close (scripted []) start) λ done s'. s'.trace ≡ Call.close (pos 5) ∷ []
unfolding close
close-open_example = (close-open (scripted []) start refl).0

-- select(2) fails with the socket still in both sets, and no error is pending.
abbrev select_fails : Env
select_fails =
    scripted (record quiet { ret = minus_one; errno = some Errno.eintr; readable = true } ∷ [])

select_lem_example : Ends (select (pos 1) (pos 0) select_fails start) λ ready s'. ready ≡ true
unfolding select is_exit_success
select_lem_example = (select_lem select_fails start (pos 1) (pos 0)).0

set-get_socket_dscp_example : Ends (set_socket_dscp (pos 10) (scripted []) start) λ done s'.
    (done ≡ true)
    × (s'.trace ≡ set_tos_trace (scripted []) start 10)
    × (Ends (get_socket_dscp (scripted []) s') λ y s''.
        (y ≡ pos 0)
        × (s''.trace ≡ get_tos (scripted []) start ∷ set_tos_trace (scripted []) start 10))
set-get_socket_dscp_example =
    set-get_socket_dscp (scripted []) start 10 (omega arith) refl (λ e. cc) refl

-- From 1.9 s to 3.2 s.
get_micro_seconds-timed_example :
    get_micro_seconds (timed start.timer (at_time 1 900000) (at_time 3 200000)) ≡ 1300000
get_micro_seconds-timed_example = get_micro_seconds-timed start.timer 1 900000 3 200000 1300000 refl

-- An object with a buffer of two bytes, copied as it is and after it is closed.
abbrev received : SimpleSocket
received = record connected { buffer = some (some 104 ∷ none ∷ []); buffer_size = pos 2 }

copy_construct_lem_example :
    copy_construct connected received (scripted []) start
    ≡ returned
        (record connected { buffer = some (some 104 ∷ none ∷ []); buffer_size = pos 2 })
        start
copy_construct_lem_example = copy_construct_lem (scripted []) start connected received refl
