-- ===== src/Passive/Listen.antt =====
-- `Listen` of src/PassiveSocket.cpp: what it does when it fails, and the address that it binds.
use clsocket.Base.{
  pos, not, List, [], ℕ, ℤ, minus_one, ◌==ℤ◌, true, false, ◌≡◌, Option, none, some, ◌∷◌,
  if◌then◌else◌, arith,
}
use clsocket.Net.{SockAddr, SockOpt, OptValue, Call, CString, Env}
use clsocket.Socket.{State, Ends, returned, is_valid_handle}
use clsocket.Socket.Lifecycle.{close}
use clsocket.Socket.Lifecycle.Handle.{close_trace}
use clsocket.Active.{inaddr_none}
use clsocket.Socket.Options.{iptos_lowdelay}
use clsocket.Passive.Multicast.{bound_address}
use clsocket.Passive.{is_tcp, address_on, inaddr_any, attempt_listen, listen}

module _ (env : Env) (s : State) (port : ℕ) (backlog : ℤ) where
  abbrev pub setup_trace : List Call
  setup_trace =
      Call.setsockopt s.socket SockOpt.tcp_ip_tos (OptValue.int_value (pos iptos_lowdelay))
      ∷ Call.setsockopt s.socket SockOpt.so_reuseaddr (OptValue.int_value (pos iptos_lowdelay))
      ∷ s.trace

  -- The address to listen on, and the calls once bind(2) and listen(2) have been made.
  abbrev pub listen_address : Option CString → SockAddr
  listen_address addr = address_on (env.htons port) (bound_address env addr)

  abbrev pub bound_trace : Option CString → List Call
  bound_trace addr = Call.bind s.socket (listen_address addr) ∷ setup_trace

  abbrev pub listening_trace : Option CString → List Call
  listening_trace addr = Call.listen s.socket backlog ∷ bound_trace addr

  -- `attempt_listen` sets two options, binds the address made from its arguments, which it stores,
  -- and calls listen(2) exactly if bind(2) did not fail and the socket is TCP; its result is the
  -- outcome of the last of these calls, and the handle stays.
  pub attempt_listen_lem :
      (addr : Option CString)
      → let b = env.reply (bound_trace addr) in
        let l = env.reply (listening_trace addr) in
        Ends (attempt_listen addr port backlog env s) λ ok u.
          (ok ≡ (
            if b.ret ==ℤ minus_one
            then false
            else (if is_tcp s.socket_type then not (l.ret ==ℤ minus_one) else true)))
          × (u.trace ≡ (
              if b.ret ==ℤ minus_one
              then bound_trace addr
              else (if is_tcp s.socket_type then listening_trace addr else bound_trace addr)))
          × (u.server_sockaddr ≡ listen_address addr)
          × (u.socket ≡ s.socket)
  unfolding attempt_listen
  attempt_listen_lem none = ground arith
  attempt_listen_lem (some []) = ground arith
  attempt_listen_lem (some (c ∷ text)) = ground arith

  -- When `attempt_listen` gives false in a state with a valid handle, `listen` returns false, has
  -- called close(2) once on that handle, has no buffer, keeps the error that the attempt found, and
  -- has an invalid handle unless close(2) failed.
  pub listen_failed :
      (addr : Option CString) (u : State)
      → attempt_listen addr port backlog env s ≡ returned false u
      → is_valid_handle u.sock ≡ true
      → let r = env.reply (close_trace u) in
        Ends (listen addr port backlog env s) λ done s'.
          (done ≡ false)
          × (s'.trace ≡ close_trace u)
          × (s'.socket_errno ≡ u.socket_errno)
          × (s'.socket ≡ (if r.ret ==ℤ minus_one then u.socket else minus_one))
          × (s'.buffer ≡ none)
  unfolding listen close
  listen_failed addr u e valid = ground arith

  -- When inet_addr(3) gives INADDR_NONE for a text and htonl(3) keeps 0, `listen` with that text
  -- has the same result and the same final state as `listen` without an address.
  pub listen_bad_address :
      (c : ℕ) (text : CString)
      → env.inet_addr (c ∷ text) ≡ inaddr_none
      → env.htonl inaddr_any ≡ 0
      → listen (some (c ∷ text)) port backlog env s ≡ listen none port backlog env s
  unfolding listen attempt_listen
  listen_bad_address c text bad any = ground arith
