-- ===== src/Passive.antt =====
-- `CPassiveSocket` of src/PassiveSocket.h and src/PassiveSocket.cpp. The member `m_stMulticastRequest`
-- is read only where it has just been written, so it is the value that `BindMulticast` hands over.
pub mod Listen
pub mod Multicast
pub mod Accept
pub mod Retry
pub mod FirstRead
pub mod Sending
pub mod Converse
use clsocket.Base.{
  ℕ, zero, suc, ℤ, pos, minus_one, ◌==ℤ◌, ◌==◌, ltb, Bool, true, false, not, ◌&&◌, Option, none,
  some, [], ◌∷◌, take, if◌then◌else◌,
}
use clsocket.Net.{Errno, Family, SockAddr, SockOpt, OptValue, Call, Reply, CString}
use clsocket.Error.{SocketError, is_success, is_interrupted, translate_errno}
use clsocket.Socket.{
  within, SocketType, SimpleSocket, Op, returned, exhausted, pure, ◌>>=◌, ◌>>◌, branch, when, gets,
  modify, call, set_errno, set_socket_error, translate_socket_error, is_socket_valid, start_timer,
  end_timer, on,
}
use clsocket.Socket.Lifecycle.{construct, close, destruct, is_not_null}
use clsocket.Socket.Options.{set_option, inet_addr, iptos_lowdelay}
use clsocket.Socket.Send.{is_readable, Pointer, pointed, send}
use clsocket.Active.{construct_active, destruct_active, htons, inaddr_none, or_zero_address}

-- `CPassiveSocket(nType)`.
unfoldable pub construct_passive : SimpleSocket → SocketType → SimpleSocket
unfolding construct
construct_passive memory t = construct memory t

-- `~CPassiveSocket`.
unfoldable pub destruct_passive : Op (Unit {0})
unfolding close destruct
destruct_passive = do close; destruct

abbrev pub inaddr_any : ℕ
inaddr_any = 0

abbrev htonl : ℕ → Op ℕ
htonl n env s = returned (env.htonl n) s

-- The address to bind: the interface's, any if none is given, and 0 (from `memset`) if the text is no
-- address.
unfoldable pub local_address : Option CString → Op ℕ
local_address none = htonl inaddr_any
local_address (some []) = htonl inaddr_any
local_address (some (c ∷ text)) = do
  addr ← inet_addr (c ∷ text)
  pure (if addr == inaddr_none then 0 else addr)

-- bind(2): its return value.
unfoldable pub call_bind : SockAddr → Op ℤ
call_bind addr = do fd ← gets λ s. s.socket; r ← call (Call.bind fd addr); pure r.ret

abbrev pub address_on : ℕ → ℕ → SockAddr
address_on port addr = record { sin_family = Family.af_inet; sin_port = port; s_addr = addr }

unfoldable pub bind_multicast : Option CString → CString → ℕ → Op Bool
unfolding local_address call_bind set_option
bind_multicast interface group port = do
  p ← htons port
  addr ← local_address interface
  modify λ s. record s { multicast_group = address_on p addr }
  ret ← call_bind (address_on p addr)
  joined ←
      branch (ret ==ℤ pos 0)
        (do
          multiaddr ← inet_addr group
          set ← set_option SockOpt.ip_add_membership (OptValue.membership_value multiaddr addr)
          end_timer
          pure (set ==ℤ pos 0))
        (pure false)
  start_timer
  translate_socket_error
  branch joined (pure true) (do close; pure false)

abbrev pub is_tcp : SocketType → Bool
is_tcp SocketType.tcp = true
is_tcp _ = false

-- listen(2), which only a TCP socket needs.
unfoldable pub call_listen : ℤ → Op Bool
call_listen backlog = do
  type ← gets λ s. s.socket_type
  branch (is_tcp type)
      (do
        fd ← gets λ s. s.socket
        r ← call (Call.listen fd backlog)
        pure (not (r.ret ==ℤ minus_one)))
      (pure true)

-- After a failure the socket is closed, and the error that was found is put back.
unfoldable pub close_keeping_error : Op (Unit {0})
close_keeping_error = do e ← gets λ s. s.socket_errno; close; set_socket_error e

-- `Listen` up to its last test: whether the socket is bound and, for TCP, listens.
unfoldable pub attempt_listen : Option CString → ℕ → ℤ → Op Bool
unfolding local_address call_bind call_listen set_option
attempt_listen addr port backlog = do
  set_option SockOpt.so_reuseaddr (OptValue.int_value (pos iptos_lowdelay))
  set_option SockOpt.tcp_ip_tos (OptValue.int_value (pos iptos_lowdelay))
  p ← htons port
  a ← local_address addr
  modify λ s. record s { server_sockaddr = address_on p a }
  start_timer
  ret ← call_bind (address_on p a)
  listening ← branch (ret ==ℤ minus_one) (pure false) (call_listen backlog)
  end_timer
  translate_socket_error
  pure listening

unfoldable pub listen : Option CString → ℕ → ℤ → Op Bool
unfolding close_keeping_error
listen addr port backlog = do
  listening ← attempt_listen addr port backlog
  branch listening (pure true) (do close_keeping_error; pure false)

abbrev note_client : Reply → SimpleSocket → SimpleSocket
note_client r s = elim r.addr [ none ↦ s | some from ↦ record s { client_sockaddr = from } ]

-- What accept(2) gave goes into the new object. The peer's address that getpeername(2) writes is
-- overwritten by the one that accept(2) reported.
unfoldable pub adopt : SimpleSocket → ℤ → Op (SimpleSocket × SocketError)
adopt client handle env s =
    let e = translate_errno s.errno in
    (do
      fd ← gets λ t. t.socket
      call (Call.getpeername fd)
      from ← gets λ t. t.client_sockaddr
      own ← call (Call.getsockname fd)
      pure (
        record client {
          socket = handle;
          socket_errno = e;
          client_sockaddr = from;
          server_sockaddr = or_zero_address own.addr;
        },
        e,
      ))
      env s

-- One round of the loop: the new object, and the error that decides.
unfoldable pub accept_round : SimpleSocket → Op (SimpleSocket × SocketError)
unfolding adopt
accept_round client = do
  set_errno Errno.exit_success
  fd ← gets λ s. s.socket
  r ← call (Call.accept fd)
  modify (note_client r)
  branch (r.ret ==ℤ minus_one)
      (do translate_socket_error; e ← gets λ s. s.socket_errno; pure (client, e))
      (adopt client r.ret)

unfoldable pub accept_loop : ℕ → SimpleSocket → Op (SimpleSocket × SocketError)
accept_loop zero client env s = exhausted s
accept_loop (suc fuel) client env s =
    let again = accept_loop fuel in
    (do
      (client', e) ← accept_round client
      branch (is_interrupted e) (again client') (pure (client', e)))
      env s

-- `Accept`: `none` is NULL. The new object stands in fresh memory; `delete` runs its destructor.
unfoldable pub accept : ℕ → SimpleSocket → Op (Option SimpleSocket)
unfolding construct_active destruct_active
accept fuel memory = do
  type ← gets λ s. s.socket_type
  branch (is_tcp type)
      (do
        start_timer
        (client, e) ← accept_loop fuel (construct_active memory SocketType.tcp)
        end_timer
        branch (is_success e) (pure (some client)) (do on client destruct_active; pure none))
      (do set_socket_error SocketError.protocol_error; pure none)

-- The UDP case of `Send`: one sendto(2) to the client's address, no loop.
unfoldable pub send_to_client : Pointer → ℕ → Op (Unit {0})
send_to_client buf n = do
  valid ← is_socket_valid
  when (valid && (ltb 0 n && is_not_null buf)) (do
    within (is_readable buf n)
    start_timer
    fd ← gets λ s. s.socket
    client ← gets λ s. s.client_sockaddr
    r ← call (Call.sendto fd (take n (pointed buf)) client)
    modify λ s. record s { bytes_sent = r.ret }
    end_timer
    when (r.ret ==ℤ minus_one) translate_socket_error)

unfoldable pub passive_send_by_type : ℕ → SocketType → Pointer → ℕ → Op (Unit {0})
unfolding send_to_client
passive_send_by_type fuel SocketType.udp buf n = send_to_client buf n
passive_send_by_type fuel SocketType.tcp buf n = do send fuel buf n; pure tt
passive_send_by_type fuel _ buf n = set_socket_error SocketError.protocol_error

unfoldable pub passive_send : ℕ → Pointer → ℕ → Op ℤ
unfolding passive_send_by_type
passive_send fuel buf n = do
  set_socket_error SocketError.success
  modify λ s. record s { bytes_sent = pos 0 }
  type ← gets λ s. s.socket_type
  passive_send_by_type fuel type buf n
  gets λ s. s.bytes_sent
