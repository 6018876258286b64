-- ===== src/Examples/ActiveCases.antt =====
-- `CActiveSocket` at concrete inputs.
use clsocket.Base.{pos, true, false, ◌≡◌, refl, some, [], ◌∷◌, arith}
use clsocket.Net.{Errno, CString, Env}
use clsocket.Error.{is_ewouldblock, is_einprogress, translate_errno}
use clsocket.Socket.{State, Ends}
use clsocket.Active.{connect_tcp}
use clsocket.Active.Waiting.{connect_tcp_lem}
use clsocket.Socket.Select.{is_exit_success, select, select_timeout}
use clsocket.Examples.{connected, failing, running, scripted, quiet}

abbrev host : CString
host = 97 ∷ 98 ∷ []

-- The name resolves, the connection is in progress, and select(2) says that it is made.
abbrev patient : Env
patient = scripted (
    record quiet { host = some 0x7f00_0001 }
    ∷ failing Errno.einprogress
    ∷ record quiet { ret = pos 1; writable = true }
    ∷ [])

abbrev nonblocking : State
nonblocking = running (record connected { is_blocking = false })

connect_tcp_lem_example : Ends (connect_tcp host 80 patient nonblocking) λ done s'. done ≡ true
unfolding connect_tcp select is_exit_success select_timeout is_ewouldblock is_einprogress
    translate_errno
connect_tcp_lem_example =
    (connect_tcp_lem patient nonblocking host 80 0x7f00_0001 refl (omega arith)).0
