-- ===== src/Socket/Lifecycle.antt =====
-- Construction, `Initialize`, `Close` and `Shutdown` of src/SimpleSocket.cpp.
pub mod Handle
pub mod Copy
use clsocket.Base.{
  ℕ, zero, suc, ℤ, pos, negsuc, minus_one, ◌==ℤ◌, leb, Bool, true, false, Option, none, some, [],
  take, length, if◌then◌else◌,
}
use clsocket.Net.{Errno, Family, ShutdownMode, Call}
use clsocket.Error.{SocketError}
use clsocket.Timer.{zero_time}
use clsocket.Socket.{
  SocketType, socket_type_value, SimpleSocket, Buffer, Op, returned, fault, pure, ◌>>=◌, ◌>>◌,
  branch, when, gets, modify, call, set_errno, translate_socket_error, is_socket_valid, start_timer,
  end_timer,
}

-- `SetConnectTimeout`.
unfoldable pub set_connect_timeout : ℤ → ℤ → SimpleSocket → SimpleSocket
set_connect_timeout sec usec s = record s {
  connect_timeout = record { tv_sec = sec; tv_usec = usec };
}

abbrev with_type : Family → SocketType → SimpleSocket → SimpleSocket
with_type f t s = record s { socket_domain = f; socket_type = t }

-- The switch of the constructor, as compiled for Linux.
unfoldable pub choose_type : SocketType → SimpleSocket → SimpleSocket
choose_type SocketType.tcp s = with_type Family.af_inet SocketType.tcp s
choose_type SocketType.tcp6 s = with_type Family.af_inet6 SocketType.tcp6 s
choose_type SocketType.udp s = with_type Family.af_inet SocketType.udp s
choose_type SocketType.udp6 s = with_type Family.af_inet6 SocketType.udp6 s
choose_type SocketType.raw s = with_type Family.af_packet SocketType.raw s
choose_type SocketType.invalid s = record s { socket_type = SocketType.invalid }

-- The constructor. What it leaves uninitialised (the addresses, the timer) is what the memory held.
unfoldable pub construct : SimpleSocket → SocketType → SimpleSocket
unfolding set_connect_timeout choose_type
construct memory t = choose_type t (
    set_connect_timeout (pos 1) (pos 0) (record memory {
      socket = minus_one;
      socket_errno = SocketError.invalid_socket;
      buffer = none;
      buffer_size = pos 0;
      socket_domain = Family.af_inet;
      socket_type = SocketType.invalid;
      bytes_received = minus_one;
      bytes_sent = minus_one;
      flags = 0;
      is_blocking = true;
      is_multicast = false;
      recv_timeout = zero_time;
      send_timeout = zero_time;
      linger = record { l_onoff = 0; l_linger = 0 };
    }))

unfoldable pub initialize : Op Bool
initialize = do
  set_errno Errno.exit_success
  start_timer
  domain ← gets λ s. s.socket_domain
  type ← gets λ s. s.socket_type
  r ← call (Call.socket domain (socket_type_value type) 0)
  modify λ s. record s { socket = r.ret }
  end_timer
  translate_socket_error
  is_socket_valid

abbrev pub is_not_null {ℓ} : {A : Type ℓ} → Option A → Bool
is_not_null none = false
is_not_null (some a) = true

-- `delete [] m_pBuffer; m_pBuffer = NULL;`, which does nothing to a null pointer.
unfoldable pub free_buffer : Op (Unit {0})
free_buffer = modify λ s. record s { buffer = none }

unfoldable pub close : Op Bool
unfolding free_buffer
close = do
  free_buffer
  valid ← is_socket_valid
  closed ←
      branch valid
        (do
          fd ← gets λ s. s.socket
          r ← call (Call.close fd)
          branch (r.ret ==ℤ minus_one) (pure false)
              (do modify λ s. record s { socket = minus_one }; pure true))
        (pure false)
  translate_socket_error
  pure closed

-- `~CSimpleSocket`.
unfoldable pub destruct : Op (Unit {0})
unfolding free_buffer
destruct = do buffer ← gets λ s. s.buffer; when (is_not_null buffer) free_buffer

unfoldable pub shutdown : ShutdownMode → Op Bool
shutdown how = do
  fd ← gets λ s. s.socket
  r ← call (Call.shutdown fd how)
  translate_socket_error
  pure (r.ret ==ℤ pos 0)

-- `memcpy` of this many bytes; a null pointer has none.
abbrev read_block : ℕ → Option Buffer → Option Buffer
read_block zero source = some []
read_block (suc n) none = none
read_block (suc n) (some block) =
    if leb (suc n) (length block) then some (take (suc n) block) else none

-- `new uint8[size]`, filled from the other object's buffer. A negative size throws.
unfoldable pub copied_buffer : Option Buffer → ℤ → Option Buffer
copied_buffer source (pos n) = read_block n source
copied_buffer source (negsuc n) = none

-- The copy constructor, in fresh memory: it sets no member but the buffer and its size.
unfoldable pub copy_construct : SimpleSocket → SimpleSocket → Op SimpleSocket
unfolding copied_buffer
copy_construct memory other env s = elim (copied_buffer other.buffer other.buffer_size) [
  | none ↦ fault
  | some block ↦ returned (record memory { buffer = some block; buffer_size = other.buffer_size }) s
]

-- `operator=`: the buffer is replaced if the sizes differ, and nothing else is assigned.
unfoldable pub assign : SimpleSocket → Op (Unit {0})
unfolding copied_buffer
assign other env s =
    if s.buffer_size ==ℤ other.buffer_size
    then returned tt s
    else (elim (copied_buffer other.buffer other.buffer_size) [
      | none ↦ fault
      | some block ↦ returned tt (record s {
        sock = record s.sock { buffer = some block; buffer_size = other.buffer_size };
      })
    ])
