-- ===== src/Error/Windows/Agreement.antt =====
-- The two error tables of `TranslateSocketError` of src/SimpleSocket.cpp, side by side.
use clsocket.Base.{◌≡◌, ◌≢◌, refl, Option, none, some, arith}
use clsocket.Net.{Errno}
use clsocket.Error.{translate_errno}
use clsocket.Error.Windows.{WsaError, translate_wsa_error}

-- The value of errno that has the same name, if there is one.
abbrev namesake : WsaError → Option Errno
namesake WsaError.no_error = some Errno.exit_success
namesake WsaError.wsaebadf = some Errno.ebadf
namesake WsaError.wsaenotconn = some Errno.enotconn
namesake WsaError.wsaeintr = some Errno.eintr
namesake WsaError.wsaeacces = some Errno.eacces
namesake WsaError.wsaeafnosupport = some Errno.eafnosupport
namesake WsaError.wsaeinval = some Errno.einval
namesake WsaError.wsaemfile = some Errno.emfile
namesake WsaError.wsaenobufs = some Errno.enobufs
namesake WsaError.wsaeprotonosupport = some Errno.eprotonosupport
namesake WsaError.wsaeconnrefused = some Errno.econnrefused
namesake WsaError.wsaetimedout = some Errno.etimedout
namesake WsaError.wsaeinprogress = some Errno.einprogress
namesake WsaError.wsaeconnaborted = some Errno.econnaborted
namesake WsaError.wsaewouldblock = some Errno.ewouldblock
namesake WsaError.wsaenotsock = some Errno.enotsock
namesake WsaError.wsaeconnreset = some Errno.econnreset
namesake WsaError.wsano_data = none
namesake WsaError.wsaeaddrinuse = some Errno.eaddrinuse
namesake WsaError.wsaefault = some Errno.efault
namesake (WsaError.other n) = some (Errno.other n)

translate_wsa_error-Agrees :
    (w : WsaError) (e : Errno)
    → namesake w ≡ some e
    → w ≢ WsaError.wsaebadf
    → w ≢ WsaError.wsaeinval
    → w ≢ WsaError.wsaefault
    → translate_wsa_error w ≡ translate_errno e
unfolding translate_wsa_error translate_errno
translate_wsa_error-Agrees WsaError.wsaebadf e h a b c = absurd (a refl)
translate_wsa_error-Agrees WsaError.wsaeinval e h a b c = absurd (b refl)
translate_wsa_error-Agrees WsaError.wsaefault e h a b c = absurd (c refl)
translate_wsa_error-Agrees w e h a b c = ground arith
