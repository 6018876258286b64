-- ===== src/Error.antt =====
-- Error codes: `CSocketError` of src/SimpleSocket.h, `TranslateSocketError` and `DescribeError` of
-- src/SimpleSocket.cpp.
pub mod Laws
pub mod Windows
use Prim.Native.String.{String}
use clsocket.Base.{Bool, true, false}
use clsocket.Net.{Errno}

pub data SocketError : Type 0 where
  generic_error success invalid_socket invalid_address invalid_port : SocketError
  connection_refused timedout ewouldblock notconnected einprogress interrupted : SocketError
  connection_aborted protocol_error firewall_error invalid_socket_buffer : SocketError
  connection_reset address_in_use invalid_pointer eunknown : SocketError

-- The switch on errno for Linux and Darwin.
unfoldable pub translate_errno : Errno → SocketError
translate_errno Errno.exit_success = success
translate_errno Errno.enotconn = notconnected
translate_errno Errno.enotsock = invalid_socket
translate_errno Errno.ebadf = invalid_socket
translate_errno Errno.eacces = invalid_socket
translate_errno Errno.eafnosupport = invalid_socket
translate_errno Errno.emfile = invalid_socket
translate_errno Errno.enfile = invalid_socket
translate_errno Errno.enobufs = invalid_socket
translate_errno Errno.enomem = invalid_socket
translate_errno Errno.eprotonosupport = invalid_socket
translate_errno Errno.epipe = invalid_socket
translate_errno Errno.eopnotsupp = invalid_socket
translate_errno Errno.econnrefused = connection_refused
translate_errno Errno.etimedout = timedout
translate_errno Errno.einprogress = einprogress
translate_errno Errno.ewouldblock = ewouldblock
translate_errno Errno.eintr = interrupted
translate_errno Errno.econnaborted = connection_aborted
translate_errno Errno.einval = protocol_error
translate_errno Errno.eproto = protocol_error
translate_errno Errno.eperm = firewall_error
translate_errno Errno.efault = invalid_socket_buffer
translate_errno Errno.econnreset = connection_reset
translate_errno Errno.enoprotoopt = connection_reset
translate_errno Errno.eaddrinuse = address_in_use
translate_errno (Errno.other n) = eunknown

unfoldable pub describe_error : SocketError → String
describe_error generic_error = "Generic socket error translates to error below."
describe_error success = "No socket error."
describe_error invalid_socket = "Invalid socket handle."
describe_error invalid_address = "Invalid destination address specified."
describe_error invalid_port = "Invalid destination port specified."
describe_error connection_refused = "No server is listening at remote address."
describe_error timedout = "Timed out while attempting operation."
describe_error ewouldblock = "Operation would block if socket were blocking."
describe_error notconnected = "Currently not connected."
describe_error einprogress =
    "Socket is non-blocking and the connection cannot be completed immediately"
describe_error interrupted =
    "Call was interrupted by a signal that was caught before a valid connection arrived."
describe_error connection_aborted = "The connection has been aborted."
describe_error protocol_error = "Invalid protocol for operation."
describe_error firewall_error = "Firewall rules forbid connection."
describe_error invalid_socket_buffer =
    "The receive buffer point outside the process's address space."
describe_error connection_reset = "Connection was forcibly closed by the remote host."
describe_error address_in_use = "Address already in use."
describe_error invalid_pointer = "Pointer type supplied as argument is invalid."
describe_error eunknown = "Unknown error"

-- The comparisons of an error with a constant that the source makes.
unfoldable pub is_success : SocketError → Bool
is_success success = true
is_success _ = false

unfoldable pub is_interrupted : SocketError → Bool
is_interrupted interrupted = true
is_interrupted _ = false

unfoldable pub is_ewouldblock : SocketError → Bool
is_ewouldblock ewouldblock = true
is_ewouldblock _ = false

unfoldable pub is_einprogress : SocketError → Bool
is_einprogress einprogress = true
is_einprogress _ = false
