-- ===== src/Error/Laws.antt =====
-- The translation of errno and the texts of the errors of src/SimpleSocket.cpp.
use Prim.Native.String.{String}
use text.Mathlib.Text.{◌==◌ as str_eq}
use clsocket.Base.{◌≡◌, refl, sym, ap, ◌∙◌, true, List, [], ◌∷◌, if◌then◌else◌}
use clsocket.Net.{Errno}
use clsocket.Error.{SocketError, translate_errno, describe_error, is_interrupted}

abbrev all_errors : List SocketError
all_errors =
    SocketError.generic_error ∷ SocketError.success ∷ SocketError.invalid_socket
    ∷ SocketError.invalid_address ∷ SocketError.invalid_port ∷ SocketError.connection_refused
    ∷ SocketError.timedout ∷ SocketError.ewouldblock ∷ SocketError.notconnected
    ∷ SocketError.einprogress ∷ SocketError.interrupted ∷ SocketError.connection_aborted
    ∷ SocketError.protocol_error ∷ SocketError.firewall_error ∷ SocketError.invalid_socket_buffer
    ∷ SocketError.connection_reset ∷ SocketError.address_in_use ∷ SocketError.invalid_pointer ∷ []

-- The error whose description a text is.
find_described : List SocketError → String → SocketError
find_described [] t = SocketError.eunknown
find_described (e ∷ es) t = if str_eq (describe_error e) t then e else find_described es t

find_described-describe_error : (e : SocketError) → find_described all_errors (describe_error e) ≡ e
unfolding find_described describe_error
find_described-describe_error SocketError.success = refl
find_described-describe_error _ = refl

-- No two error codes have the same description.
describe_error-injective : (a b : SocketError) → describe_error a ≡ describe_error b → a ≡ b
describe_error-injective a b h =
    sym (find_described-describe_error a)
    ∙ ap (find_described all_errors) h
    ∙ find_described-describe_error b

interrupted_only_eintr : (e : Errno) → is_interrupted (translate_errno e) ≡ true → e ≡ Errno.eintr
unfolding is_interrupted translate_errno
interrupted_only_eintr Errno.eintr h = refl
interrupted_only_eintr _ h = cc
