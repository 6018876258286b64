-- ===== src/Programs/RecvAsync/Connection.antt =====
-- `main` of examples/RecvAsync.cpp up to its connection: the handle, the mode, and `Open`.
use Prim.Native.Nat.{bit_or}
use clsocket.Base.{
  Bool, ℕ, ℤ, pos, minus_one, true, false, ◌≡◌, ◌≢◌, refl, sym, subst, ◌∙◌, none, some, List, ◌∷◌,
  arith,
}
use clsocket.Net.{Errno, SockOpt, OptLen, Call, Env}
use clsocket.Error.{is_interrupted, translate_errno}
use clsocket.Socket.{SocketType, State, Ends, pure, when, is_valid_handle, ◌>>◌}
use clsocket.Socket.Steps.{Ends-map, Ends->>=}
use clsocket.Socket.Lifecycle.{initialize}
use clsocket.Socket.Lifecycle.Handle.{socket_trace}
use clsocket.Socket.Options.{set_nonblocking}
use clsocket.Socket.Select.{is_settable, select_timeout}
use clsocket.Active.{inaddr_none, connect_tcp, connect_by_type, note_addresses, open_to}
use clsocket.Active.Connect.{server_of}
use clsocket.Active.Waiting.{connect_tcp_waited}
use clsocket.Programs.EchoServer.{loopback}
use clsocket.Programs.RecvAsync.Polling.{IsPolling}

module _ (env : Env) (s : State) (fd : ℤ) (cur : ℕ) where
  -- The calls of `main` up to the connection, each after those before it.
  abbrev pub nonblocking_trace : List Call
  nonblocking_trace =
      Call.set_flags fd (bit_or cur env.o_nonblock) ∷ Call.get_flags fd ∷ socket_trace env s

  abbrev pub named_trace : List Call
  named_trace = Call.gethostbyname loopback ∷ nonblocking_trace

  abbrev pub connecting_trace : ℕ → List Call
  connecting_trace addr = Call.connect fd (server_of env s loopback 6789 addr) ∷ named_trace

  abbrev pub awaited_trace : ℕ → List Call
  awaited_trace addr =
      Call.select fd (select_timeout s.connect_timeout.tv_sec s.connect_timeout.tv_usec)
      ∷ connecting_trace addr

  abbrev pub checked_trace : ℕ → List Call
  checked_trace addr = Call.getsockopt fd SockOpt.so_error (OptLen.at_object 4) ∷ awaited_trace addr

  abbrev pub peer_trace : ℕ → List Call
  peer_trace addr = Call.getpeername fd ∷ checked_trace addr

  abbrev pub connected_trace : ℕ → List Call
  connected_trace addr = Call.getsockname fd ∷ peer_trace addr

  -- The kernel gives a handle, makes it non-blocking, and connects it while the program waits.
  pub record Connecting (addr : ℕ) : Type 0 where
    pub created : (env.reply (socket_trace env s)).ret ≡ fd
    pub is_open : fd ≢ minus_one
    pub settable : is_settable env fd ≡ true
    pub flags_read : (env.reply (Call.get_flags fd ∷ socket_trace env s)).ret ≡ pos cur
    pub flags_written : (env.reply nonblocking_trace).ret ≡ pos 0
    pub resolved : (env.reply named_trace).host ≡ some addr
    pub is_address : addr ≢ inaddr_none
    pub in_progress : (env.reply (connecting_trace addr)).ret ≡ minus_one
    pub progress_errno : (env.reply (connecting_trace addr)).errno ≡ some Errno.einprogress
    pub ready : (env.reply (awaited_trace addr)).ret ≡ pos 1
    pub is_writable : (env.reply (awaited_trace addr)).writable ≡ true
    pub option_read : (env.reply (checked_trace addr)).ret ≡ pos 0
    pub no_error : (env.reply (checked_trace addr)).pending ≡ Errno.exit_success
    pub peer_calmly : (env.reply (peer_trace addr)).errno ≡ none
    pub own_calmly : (env.reply (connected_trace addr)).errno ≡ none

  -- The object before it is connected.
  abbrev pub Blank : List Call → State → Type 0
  Blank cs u =
      (u.socket ≡ fd)
      × (u.trace ≡ cs)
      × (u.socket_type ≡ SocketType.tcp)
      × (u.flags ≡ 0)
      × (u.buffer ≡ none)
      × (u.connect_timeout ≡ s.connect_timeout)

  module _ (addr fuel : ℕ) (x : Connecting addr) where
    pub initialize-Blank :
        s.socket_type ≡ SocketType.tcp
        → s.flags ≡ 0
        → s.buffer ≡ none
        → Ends (initialize env s) λ done u. Blank (socket_trace env s) u
    unfolding initialize
    initialize-Blank tcp flags empty = ground (arith, x.created)

    pub set_nonblocking-Blank :
        (u : State)
        → Blank (socket_trace env s) u
        → Ends (set_nonblocking env u) λ done v. Blank nonblocking_trace v × (v.is_blocking ≡ false)
    unfolding set_nonblocking
    set_nonblocking-Blank u p = ground (arith, p, x.flags_read, x.flags_written)

    -- Connected, with no error pending.
    abbrev Checked : Bool → State → Type 0
    Checked done v =
        (done ≡ true)
        × (v.trace ≡ checked_trace addr)
        × (v.socket ≡ fd)
        × (v.errno ≡ Errno.exit_success)
        × (v.socket_type ≡ SocketType.tcp)
        × (v.flags ≡ 0)
        × (v.buffer ≡ none)

    connect_tcp-Connecting :
        (u : State)
        → Blank nonblocking_trace u
        → u.is_blocking ≡ false
        → Ends (connect_tcp loopback 6789 env u) Checked
    connect_tcp-Connecting u p nonblocking =
        Ends-map (connect_tcp loopback 6789 env u)
          (connect_tcp_waited env u loopback 6789 addr nonblocking (rw (p.0) x.settable)
            (rw (p.1) x.resolved) x.is_address (rw (p.0, p.1) x.in_progress)
            (rw (p.0, p.1) x.progress_errno) (rw (p.0, p.1, p.5) x.ready)
            (rw (p.0, p.1, p.5) x.is_writable) (rw (p.0, p.1, p.5) x.option_read)
            (rw (p.0, p.1, p.5) x.no_error))
          λ done v q.
            (q.0, q.1 ∙ rw (p.0, p.1, p.5) refl, q.2 ∙ p.0, q.3, q.4 ∙ p.2, q.5 ∙ p.3, q.6 ∙ p.4)

    -- `Open` succeeds, and leaves an object that can be sent and polled.
    abbrev pub Opened : State → Type 0
    Opened v = IsPolling env fuel v × (v.socket ≡ fd) × (v.trace ≡ connected_trace addr)

    note_addresses-Opened :
        (v : State)
        → v.trace ≡ checked_trace addr
        → v.socket ≡ fd
        → v.errno ≡ Errno.exit_success
        → v.socket_type ≡ SocketType.tcp
        → v.flags ≡ 0
        → v.buffer ≡ none
        → Ends (note_addresses env v) λ z w. Opened w
    unfolding note_addresses is_interrupted translate_errno
    note_addresses-Opened v trace socket calm tcp flags empty =
        ground
          (arith, trace, socket, calm, tcp, flags, empty, x.is_open, x.peer_calmly, x.own_calmly)

    connect-Checked :
        (u : State)
        → Blank nonblocking_trace u
        → u.is_blocking ≡ false
        → Ends (connect_by_type u.socket_type loopback 6789 env u) Checked
    unfolding connect_by_type
    connect-Checked u p nonblocking =
        subst (λ t. Ends (connect_by_type t loopback 6789 env u) Checked) (sym p.2)
          (connect_tcp-Connecting u p nonblocking)

    pub open_to-Opened :
        (u : State)
        → Blank nonblocking_trace u
        → u.is_blocking ≡ false
        → Ends (open_to (some loopback) 6789 env u) λ done v. (done ≡ true) × Opened v
    unfolding open_to
    open_to-Opened u p nonblocking =
        let valid : is_valid_handle u.sock ≡ true = ground (arith, p.0, x.is_open) in
        let Q : Bool → State → Type 0 = λ done v. (done ≡ true) × Opened v in
        rw valid (
          Ends->>= Checked Q env u (connect_by_type u.socket_type loopback 6789)
            (λ connected. do when connected note_addresses; pure connected)
            (connect-Checked u p nonblocking)
            λ done v q. rw q.0 (
              Ends->>= (λ z w. Opened w) Q env v note_addresses (λ z. pure true)
                (note_addresses-Opened v q.1 q.2 q.3 q.4 q.5 q.6) λ z w o. (refl, o)))
