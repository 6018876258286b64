-- ===== src/Error/Windows.antt =====
-- The error table of `TranslateSocketError` of src/SimpleSocket.cpp as Windows compiles it.
pub mod Agreement
use clsocket.Base.{ℕ}
use clsocket.Error.{SocketError}

-- What `WSAGetLastError` gives, by the names of the source.
pub data WsaError : Type 0 where
  no_error wsaebadf wsaenotconn wsaeintr wsaeacces wsaeafnosupport wsaeinval wsaemfile : WsaError
  wsaenobufs wsaeprotonosupport wsaeconnrefused wsaetimedout wsaeinprogress : WsaError
  wsaeconnaborted wsaewouldblock wsaenotsock wsaeconnreset wsano_data wsaeaddrinuse : WsaError
  wsaefault : WsaError
  other : ℕ → WsaError

unfoldable pub translate_wsa_error : WsaError → SocketError
translate_wsa_error no_error = SocketError.success
translate_wsa_error wsaebadf = SocketError.notconnected
translate_wsa_error wsaenotconn = SocketError.notconnected
translate_wsa_error wsaeintr = SocketError.interrupted
translate_wsa_error wsaeacces = SocketError.invalid_socket
translate_wsa_error wsaeafnosupport = SocketError.invalid_socket
translate_wsa_error wsaeinval = SocketError.invalid_socket
translate_wsa_error wsaemfile = SocketError.invalid_socket
translate_wsa_error wsaenobufs = SocketError.invalid_socket
translate_wsa_error wsaeprotonosupport = SocketError.invalid_socket
translate_wsa_error wsaeconnrefused = SocketError.connection_refused
translate_wsa_error wsaetimedout = SocketError.timedout
translate_wsa_error wsaeinprogress = SocketError.einprogress
translate_wsa_error wsaeconnaborted = SocketError.connection_aborted
translate_wsa_error wsaewouldblock = SocketError.ewouldblock
translate_wsa_error wsaenotsock = SocketError.invalid_socket
translate_wsa_error wsaeconnreset = SocketError.connection_reset
translate_wsa_error wsano_data = SocketError.invalid_address
translate_wsa_error wsaeaddrinuse = SocketError.address_in_use
translate_wsa_error wsaefault = SocketError.invalid_pointer
translate_wsa_error (other n) = SocketError.eunknown
