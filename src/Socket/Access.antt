-- ===== src/Socket/Access.antt =====
-- The inline methods of src/SimpleSocket.h: what they read, and what they hand on.
pub mod Settings
use clsocket.Base.{ℕ, ℤ, pos, Bool, not, Option}
use Prim.Native.String.{String}
use clsocket.Net.{SockOpt, CString, Env}
use clsocket.Error.{SocketError, describe_error}
use clsocket.Timer.{get_milli_seconds, get_micro_seconds}
use clsocket.Socket.{SocketType, SimpleSocket, Buffer, Op, modify}
use clsocket.Socket.Select.{select}
use clsocket.Socket.Options.{get_window_size, set_window_size}

unfoldable pub is_nonblocking : SimpleSocket → Bool
is_nonblocking s = not s.is_blocking

-- The pointer to the internal buffer; `none` is NULL.
unfoldable pub get_data : SimpleSocket → Option Buffer
get_data s = s.buffer

unfoldable pub get_bytes_received : SimpleSocket → ℤ
get_bytes_received s = s.bytes_received

unfoldable pub get_bytes_sent : SimpleSocket → ℤ
get_bytes_sent s = s.bytes_sent

unfoldable pub get_connect_timeout_sec : SimpleSocket → ℤ
get_connect_timeout_sec s = s.connect_timeout.tv_sec

unfoldable pub get_connect_timeout_usec : SimpleSocket → ℤ
get_connect_timeout_usec s = s.connect_timeout.tv_usec

unfoldable pub get_receive_timeout_sec : SimpleSocket → ℤ
get_receive_timeout_sec s = s.recv_timeout.tv_sec

unfoldable pub get_receive_timeout_usec : SimpleSocket → ℤ
get_receive_timeout_usec s = s.recv_timeout.tv_usec

unfoldable pub get_send_timeout_sec : SimpleSocket → ℤ
get_send_timeout_sec s = s.send_timeout.tv_sec

unfoldable pub get_send_timeout_usec : SimpleSocket → ℤ
get_send_timeout_usec s = s.send_timeout.tv_usec

unfoldable pub get_multicast : SimpleSocket → Bool
get_multicast s = s.is_multicast

unfoldable pub get_socket_error : SimpleSocket → SocketError
get_socket_error s = s.socket_errno

-- `DescribeError()`, of the last error.
unfoldable pub describe_last_error : SimpleSocket → String
unfolding describe_error
describe_last_error s = describe_error s.socket_errno

unfoldable pub get_total_time_ms : SimpleSocket → ℕ
unfolding get_milli_seconds
get_total_time_ms s = get_milli_seconds s.timer

unfoldable pub get_total_time_usec : SimpleSocket → ℕ
unfolding get_micro_seconds
get_total_time_usec s = get_micro_seconds s.timer

unfoldable pub get_socket_descriptor : SimpleSocket → ℤ
get_socket_descriptor s = s.socket

unfoldable pub get_socket_type : SimpleSocket → SocketType
get_socket_type s = s.socket_type

unfoldable pub get_client_addr : Env → SimpleSocket → CString
get_client_addr env s = env.inet_ntoa s.client_sockaddr.s_addr

-- The port as it stands in the address, in network order.
unfoldable pub get_client_port : SimpleSocket → ℕ
get_client_port s = s.client_sockaddr.sin_port

unfoldable pub get_server_addr : Env → SimpleSocket → CString
get_server_addr env s = env.inet_ntoa s.server_sockaddr.s_addr

unfoldable pub get_server_port : Env → SimpleSocket → ℕ
get_server_port env s = env.ntohs s.server_sockaddr.sin_port

unfoldable pub set_socket_handle : ℤ → Op (Unit {0})
set_socket_handle h = modify λ s. record s { socket = h }

-- `Select()`, without a time limit.
unfoldable pub select_always : Op Bool
unfolding select
select_always = select (pos 0) (pos 0)

unfoldable pub get_receive_window_size : Op ℤ
unfolding get_window_size
get_receive_window_size = get_window_size SockOpt.so_rcvbuf

unfoldable pub get_send_window_size : Op ℤ
unfolding get_window_size
get_send_window_size = get_window_size SockOpt.so_sndbuf

unfoldable pub set_receive_window_size : ℤ → Op ℤ
unfolding set_window_size
set_receive_window_size n = set_window_size SockOpt.so_rcvbuf n

unfoldable pub set_send_window_size : ℤ → Op ℤ
unfolding set_window_size
set_send_window_size n = set_window_size SockOpt.so_sndbuf n
