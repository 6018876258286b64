-- ===== src/Active.antt =====
-- `CActiveSocket` of src/ActiveSocket.h and src/ActiveSocket.cpp. The member `m_pHE` and h_errno are
-- read only where gethostbyname(3) has just set them, so they are the reply to that call.
pub mod Connect
pub mod Waiting
pub mod Open
pub mod Ports
use clsocket.Base.{
  ℕ, minus_one, ◌==ℤ◌, ◌==◌, Bool, true, false, not, ◌&&◌, ◌||◌, Option, none, some,
}
use clsocket.Net.{Family, SockAddr, Call, CString}
use clsocket.Error.{SocketError, is_ewouldblock, is_einprogress}
use clsocket.Socket.{
  SocketType, SimpleSocket, Op, returned, pure, ◌>>=◌, ◌>>◌, branch, when, gets, modify, call,
  set_socket_error, translate_socket_error, is_socket_valid, start_timer, end_timer,
}
use clsocket.Socket.Lifecycle.{construct, close, destruct}
use clsocket.Socket.Select.{select}

-- `CActiveSocket(nType)`.
unfoldable pub construct_active : SimpleSocket → SocketType → SimpleSocket
unfolding construct
construct_active memory t = construct memory t

-- `~CActiveSocket`: `Close`, then the destructor of the base class.
unfoldable pub destruct_active : Op (Unit {0})
unfolding close destruct
destruct_active = do close; destruct

-- What `memset` leaves.
abbrev pub zero_address : SockAddr
zero_address = record { sin_family = Family.af_unspec; sin_port = 0; s_addr = 0 }

abbrev pub htons : ℕ → Op ℕ
htons port env s = returned (env.htons port) s

abbrev pub modify_server : (SockAddr → SockAddr) → Op (Unit {0})
modify_server f = modify λ s. record s { server_sockaddr = f s.server_sockaddr }

-- INADDR_NONE, and `(int32)s_addr == -1`.
abbrev pub inaddr_none : ℕ
inaddr_none = 0xffff_ffff

-- The part that the three `Connect` methods share, up to the port: whether they go on. The reply to
-- gethostbyname(3) has the first address of the host, or `none` for NULL.
unfoldable pub resolve : CString → ℕ → Op Bool
resolve name port = do
  modify_server λ _. record zero_address { sin_family = Family.af_inet }
  r ← call (Call.gethostbyname name)
  elim r.host [
    | none ↦ do when r.host_not_found (set_socket_error SocketError.invalid_address); pure false
    | some addr ↦ do
      modify_server λ a. record a { s_addr = addr }
      branch (addr == inaddr_none) (do translate_socket_error; pure false)
          (do p ← htons port; modify_server λ a. record a { sin_port = p }; pure true)
  ]

-- connect(2) to the server's address: whether it succeeded.
unfoldable pub call_connect : Op Bool
call_connect = do
  fd ← gets λ s. s.socket
  server ← gets λ s. s.server_sockaddr
  r ← call (Call.connect fd server)
  pure (not (r.ret ==ℤ minus_one))

abbrev pub is_pending : SocketError → Bool
is_pending e = is_ewouldblock e || is_einprogress e

-- After connect(2) failed: a non-blocking socket waits for the connection.
unfoldable pub await_connection : Op Bool
await_connection = do
  blocking ← gets λ s. s.is_blocking
  e ← gets λ s. s.socket_errno
  limit ← gets λ s. s.connect_timeout
  branch (not blocking && is_pending e) (select limit.tv_sec limit.tv_usec) (pure false)

unfoldable pub connect_tcp : CString → ℕ → Op Bool
unfolding resolve call_connect await_connection
connect_tcp name port = do
  resolved ← resolve name port
  branch resolved
      (do
        start_timer
        connected ← call_connect
        translate_socket_error
        done ← branch connected (pure true) await_connection
        end_timer
        pure done)
      (pure false)

unfoldable pub connect_udp : CString → ℕ → Op Bool
unfolding resolve call_connect
connect_udp name port = do
  resolved ← resolve name port
  branch resolved
      (do start_timer; connected ← call_connect; translate_socket_error; end_timer; pure connected)
      (pure false)

-- The same body once more in the source, which nothing calls.
unfoldable pub connect_raw : CString → ℕ → Op Bool
unfolding resolve call_connect
connect_raw name port = do
  resolved ← resolve name port
  branch resolved
      (do start_timer; connected ← call_connect; translate_socket_error; end_timer; pure connected)
      (pure false)

unfoldable pub connect_by_type : SocketType → CString → ℕ → Op Bool
connect_by_type SocketType.tcp name port = connect_tcp name port
connect_by_type SocketType.udp name port = connect_udp name port
connect_by_type _ name port = pure false

abbrev pub or_zero_address : Option SockAddr → SockAddr
or_zero_address none = zero_address
or_zero_address (some a) = a

-- After a connection: the two addresses as the kernel has them.
unfoldable pub note_addresses : Op (Unit {0})
note_addresses = do
  fd ← gets λ s. s.socket
  peer ← call (Call.getpeername fd)
  modify λ s. record s { server_sockaddr = or_zero_address peer.addr }
  own ← call (Call.getsockname fd)
  modify λ s. record s { client_sockaddr = or_zero_address own.addr }
  set_socket_error SocketError.success

-- `Open`; `none` is NULL.
unfoldable pub open_to : Option CString → ℕ → Op Bool
unfolding connect_by_type note_addresses
open_to none port = do
  valid ← is_socket_valid
  branch valid (do set_socket_error SocketError.invalid_address; pure false)
      (do set_socket_error SocketError.invalid_socket; pure false)
open_to (some name) port = do
  valid ← is_socket_valid
  branch valid
      (branch (port == 0) (do set_socket_error SocketError.invalid_port; pure false)
        (do
          type ← gets λ s. s.socket_type
          connected ← connect_by_type type name port
          when connected note_addresses
          pure connected))
      (do set_socket_error SocketError.invalid_socket; pure false)
