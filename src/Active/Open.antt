-- ===== src/Active/Open.antt =====
-- `Open` of src/ActiveSocket.cpp: its guards, its result, and the types that it does not serve.
use clsocket.Base.{
  ℕ, ◌==◌, true, false, not, ◌≡◌, ◌≢◌, refl, Option, none, some, if◌then◌else◌, arith, Bool,
}
use clsocket.Net.{CString, Env}
use clsocket.Error.{SocketError}
use clsocket.Socket.{SocketType, SimpleSocket, State, Outcome, Ends, returned, is_valid_handle}
use clsocket.Socket.Select.{is_settable, select}
use clsocket.Active.{resolve, open_to, connect_by_type, connect_tcp, connect_udp}

-- No way of connecting touches the handle, and with one that `FD_SET` can take each of them returns.
resolve-socket :
    (env : Env) (s : State) (text : CString) (port : ℕ)
    → Ends (resolve text port env s) λ done s'. s'.socket ≡ s.socket
unfolding resolve
resolve-socket env s text port = ground arith

connect_tcp-socket :
    (env : Env) (s : State) (text : CString) (port : ℕ)
    → is_settable env s.socket ≡ true
    → Ends (connect_tcp text port env s) λ done s'. s'.socket ≡ s.socket
unfolding connect_tcp select
connect_tcp-socket env s text port settable = ground (arith, settable)

connect_udp-socket :
    (env : Env) (s : State) (text : CString) (port : ℕ)
    → Ends (connect_udp text port env s) λ done s'. s'.socket ≡ s.socket
unfolding connect_udp
connect_udp-socket env s text port = ground (arith, resolve-socket env s text port)

pub connect_by_type-socket :
    (env : Env) (s : State) (t : SocketType) (text : CString) (port : ℕ)
    → is_settable env s.socket ≡ true
    → Ends (connect_by_type t text port env s) λ done s'. s'.socket ≡ s.socket
unfolding connect_by_type
connect_by_type-socket env s SocketType.tcp text port settable =
    connect_tcp-socket env s text port settable
connect_by_type-socket env s SocketType.udp text port settable = connect_udp-socket env s text port
connect_by_type-socket env s _ text port settable = refl

-- The error of the first guard that fails, in the order of the source.
abbrev pub guard_error : SimpleSocket → Option CString → ℕ → Option SocketError
guard_error s name port =
    if not (is_valid_handle s) then some SocketError.invalid_socket else (elim name [
      | none ↦ some SocketError.invalid_address
      | some text ↦ if port == 0 then some SocketError.invalid_port else none
    ])

-- A call that only sets the error.
abbrev pub rejected : SocketError → State → Outcome Bool
rejected e s = returned false (record s { sock = record s.sock { socket_errno = e } })

module _ (env : Env) (s : State) (port : ℕ) where
  -- `open_to` on an invalid handle, without a host, or with port 0 returns false without a call of
  -- the kernel and changes nothing but the error, to that of the first of these guards that fails.
  open_to_guards :
      (name : Option CString) (e : SocketError)
      → guard_error s.sock name port ≡ some e
      → open_to name port env s ≡ rejected e s
  unfolding open_to
  open_to_guards none e h = ground arith
  open_to_guards (some text) e h = ground arith

  -- On a valid handle, with a host and a port other than 0, `open_to` of a socket that is neither
  -- TCP nor UDP returns false and changes nothing, the error included.
  open_to_unserved :
      (text : CString)
      → is_valid_handle s.sock ≡ true
      → port ≢ 0
      → s.socket_type ≢ SocketType.tcp
      → s.socket_type ≢ SocketType.udp
      → open_to (some text) port env s ≡ returned false s
  unfolding open_to connect_by_type
  open_to_unserved text valid p not_tcp not_udp = ground arith

  -- With a handle that `FD_SET` can take `open_to` returns, and if it returns true the error is success and the handle is the one
  -- it had.
  open_to_success :
      (name : Option CString)
      → is_settable env s.socket ≡ true
      → Ends
          (open_to name port env s)
          λ done s'. done ≡ true → (s'.socket_errno ≡ SocketError.success) × (s'.socket ≡ s.socket)
  unfolding open_to
  open_to_success none settable = ground arith
  open_to_success (some text) settable =
      ground (arith, connect_by_type-socket env s s.socket_type text port settable)
