-- ===== src/Socket/Options.antt =====
-- The methods of src/SimpleSocket.cpp and src/SimpleSocket.h that set and read socket options.
pub mod Dscp
pub mod Bits
pub mod Blocking
use Prim.Native.Nat.{bit_and, bit_or}
use clsocket.Base.{
  ℕ, suc, ◌-◌, ◌/◌, ◌^◌, ℤ, pos, negsuc, minus_one, ◌==ℤ◌, ◌*ℤ◌, to_uint32, as_int32, ltb, Bool,
  true, false, Option, none, some, if◌then◌else◌,
}
use clsocket.Net.{Timeval, SockOpt, OptValue, OptLen, Call, CString}
use clsocket.Error.{SocketError}
use clsocket.Socket.{
  SocketType, Op, returned, pure, ◌>>=◌, ◌>>◌, branch, when, gets, modify, call, set_socket_error,
  translate_socket_error, is_socket_valid,
}

-- Hand an option to the kernel.
unfoldable pub set_option : SockOpt → OptValue → Op ℤ
set_option opt v = do fd ← gets λ s. s.socket; r ← call (Call.setsockopt fd opt v); pure r.ret

-- `inet_addr`, a conversion of the C library.
abbrev pub inet_addr : CString → Op ℕ
inet_addr text env s = returned (env.inet_addr text) s

-- `BindInterface`; `none` is NULL.
unfoldable pub bind_interface : Option CString → Op Bool
unfolding set_option
bind_interface interface = do
  multicast ← gets λ s. s.is_multicast
  branch multicast
      (elim interface [
        | none ↦ pure false
        | some text ↦ do
          addr ← inet_addr text
          ret ← set_option SockOpt.ip_multicast_if (OptValue.int_value (pos addr))
          pure (ret ==ℤ pos 0)
      ])
      (do set_socket_error SocketError.protocol_error; pure false)

abbrev pub is_udp : SocketType → Bool
is_udp SocketType.udp = true
is_udp _ = false

unfoldable pub set_multicast : Bool → ℕ → Op Bool
unfolding set_option
set_multicast enable ttl = do
  type ← gets λ s. s.socket_type
  branch (is_udp type)
      (do
        modify λ s. record s { is_multicast = enable }
        ret ← set_option SockOpt.ip_multicast_ttl (OptValue.int_value (pos ttl))
        branch (ret ==ℤ minus_one) (do translate_socket_error; pure false) (pure true))
      (do set_socket_error SocketError.protocol_error; pure false)

-- `<<= 4` and `*= 4` keep 32 bits; `/= 4` rounds towards zero and `>>= 4` downwards.
unfoldable pub shift_left_4 : ℤ → ℤ
unfolding as_int32
shift_left_4 x = as_int32 (to_uint32 (x *ℤ pos 16))

unfoldable pub divide_4 : ℤ → ℤ
divide_4 (pos n) = pos (n / 4)
divide_4 (negsuc n) = if ltb (suc n) 4 then pos 0 else negsuc (suc n / 4 - 1)

unfoldable pub times_4 : ℤ → ℤ
unfolding as_int32
times_4 x = as_int32 (to_uint32 (x *ℤ pos 4))

unfoldable pub shift_right_4 : ℤ → ℤ
shift_right_4 (pos n) = pos (n / 16)
shift_right_4 (negsuc n) = negsuc (n / 16)

unfoldable pub set_socket_dscp : ℤ → Op Bool
unfolding set_option
set_socket_dscp dscp = do
  valid ← is_socket_valid
  branch valid
      (do
        ret ← set_option SockOpt.ip_tos (OptValue.int_value (divide_4 (shift_left_4 dscp)))
        branch (ret ==ℤ minus_one) (do translate_socket_error; pure false) (pure true))
      (pure true)

abbrev or_value : Option ℤ → ℤ → ℤ
or_value none old = old
or_value (some v) old = v

-- The length handed to getsockopt(2) is 0.
unfoldable pub get_socket_dscp : Op ℤ
get_socket_dscp = do
  valid ← is_socket_valid
  branch valid
      (do
        fd ← gets λ s. s.socket
        r ← call (Call.getsockopt fd SockOpt.ip_tos (OptLen.at_object 0))
        when (r.ret ==ℤ minus_one) translate_socket_error
        pure (shift_right_4 (times_4 (or_value r.value (pos 0)))))
      (pure (pos 0))

unfoldable pub get_window_size : SockOpt → Op ℤ
get_window_size opt = do
  valid ← is_socket_valid
  branch valid
      (do
        fd ← gets λ s. s.socket
        r ← call (Call.getsockopt fd opt (OptLen.at_object 4))
        translate_socket_error
        pure (or_value r.value (pos 0)))
      (do set_socket_error SocketError.invalid_socket; pure (pos 0))

unfoldable pub set_window_size : SockOpt → ℤ → Op ℤ
unfolding set_option
set_window_size opt size = do
  valid ← is_socket_valid
  branch valid (do set_option opt (OptValue.int_value size); translate_socket_error; pure size)
      (do set_socket_error SocketError.invalid_socket; pure size)

-- `DisableNagleAlgoritm` and `EnableNagleAlgoritm` hand over 1 and 0.
unfoldable pub set_nodelay : ℤ → Op Bool
unfolding set_option
set_nodelay v = do
  ret ← set_option SockOpt.tcp_nodelay (OptValue.int_value v)
  translate_socket_error
  pure (ret ==ℤ pos 0)

unfoldable pub disable_nagle_algoritm : Op Bool
unfolding set_nodelay
disable_nagle_algoritm = set_nodelay (pos 1)

unfoldable pub enable_nagle_algoritm : Op Bool
unfolding set_nodelay
enable_nagle_algoritm = set_nodelay (pos 0)

unfoldable pub set_receive_timeout : ℤ → ℤ → Op Bool
unfolding set_option
set_receive_timeout sec usec = do
  let t : Timeval = record { tv_sec = sec; tv_usec = usec }
  modify λ s. record s { recv_timeout = t }
  ret ← set_option SockOpt.so_rcvtimeo (OptValue.time_value t)
  branch (ret ==ℤ minus_one) (do translate_socket_error; pure false) (pure true)

unfoldable pub set_send_timeout : ℤ → ℤ → Op Bool
unfolding set_option
set_send_timeout sec usec = do
  let t : Timeval = record { tv_sec = sec; tv_usec = usec }
  modify λ s. record s { send_timeout = t }
  ret ← set_option SockOpt.so_sndtimeo (OptValue.time_value t)
  branch (ret ==ℤ minus_one) (do translate_socket_error; pure false) (pure true)

abbrev pub iptos_lowdelay : ℕ
iptos_lowdelay = 0x10

unfoldable pub set_option_reuse_addr : Op Bool
unfolding set_option
set_option_reuse_addr = do
  ret ← set_option SockOpt.so_reuseaddr (OptValue.int_value (pos iptos_lowdelay))
  translate_socket_error
  pure (ret ==ℤ pos 0)

unfoldable pub set_option_linger : Bool → ℕ → Op Bool
unfolding set_option
set_option_linger enable time = do
  let on = if enable then 1 else 0
  modify λ s. record s { linger = record { l_onoff = on; l_linger = time } }
  ret ← set_option SockOpt.so_linger (OptValue.linger_value on time)
  translate_socket_error
  pure (ret ==ℤ pos 0)

-- `nCurFlags &= (~O_NONBLOCK)`: the bits that the mask shares are taken away.
unfoldable pub clear_bits : ℕ → ℕ → ℕ
clear_bits flags mask = flags - bit_and flags mask

abbrev fcntl_flags : (ℕ → ℕ → ℕ) → Bool → Op Bool
fcntl_flags change blocking env s =
    (do
      fd ← gets λ t. t.socket
      r ← call (Call.get_flags fd)
      elim r.ret [
        | negsuc n ↦ do translate_socket_error; pure false
        | pos cur ↦ do
          w ← call (Call.set_flags fd (change cur env.o_nonblock))
          branch (w.ret ==ℤ pos 0) (do modify λ t. record t { is_blocking = blocking }; pure true)
              (do translate_socket_error; pure false)
      ])
      env s

unfoldable pub set_nonblocking : Op Bool
set_nonblocking = fcntl_flags bit_or false

unfoldable pub set_blocking : Op Bool
unfolding clear_bits
set_blocking = fcntl_flags clear_bits true
