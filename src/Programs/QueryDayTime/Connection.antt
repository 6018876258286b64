-- ===== src/Programs/QueryDayTime/Connection.antt =====
-- `main` of examples/QueryDayTime.cpp up to its connection: the handle, and `Open`.
use clsocket.Base.{
  Bool, ℕ, ℤ, pos, minus_one, true, ◌≤◌, ◌≡◌, ◌≢◌, refl, sym, subst, some, List, [], ◌∷◌, length,
  arith,
}
use clsocket.Net.{Errno, Call, Env}
use clsocket.Socket.{SocketType, State, Ends, or_else, pure, when, is_valid_handle, ◌>>◌}
use clsocket.Socket.Steps.{Ends->>=}
use clsocket.Socket.Lifecycle.{initialize}
use clsocket.Socket.Lifecycle.Handle.{socket_trace}
use clsocket.Active.{inaddr_none, connect_by_type, connect_tcp, note_addresses, open_to}
use clsocket.Active.Connect.{server_of}
use clsocket.Programs.Chunk.{IsCalm}
use clsocket.Programs.QueryDayTime.{time_server}

module _ (env : Env) (s : State) (fd : ℤ) (addr : ℕ) where
  -- The calls of `main`, each after those before it.
  abbrev pub named_trace : List Call
  named_trace = Call.gethostbyname time_server ∷ socket_trace env s

  abbrev pub connecting_trace : List Call
  connecting_trace = Call.connect fd (server_of env s time_server 13 addr) ∷ named_trace

  abbrev pub peer_trace : List Call
  peer_trace = Call.getpeername fd ∷ connecting_trace

  abbrev pub opened_trace : List Call
  opened_trace = Call.getsockname fd ∷ peer_trace

  abbrev pub request_trace : List Call
  request_trace = Call.send fd (10 ∷ []) ∷ opened_trace

  abbrev pub answer_trace : List Call
  answer_trace = Call.recv fd (pos 0) (pos 49) s.flags ∷ request_trace

  abbrev pub closed_trace : List Call
  closed_trace = Call.close fd ∷ answer_trace

  -- errno after connect(2), and once the connection is open.
  abbrev connected_errno : Errno
  connected_errno = or_else (env.reply connecting_trace).errno (
      or_else (env.reply named_trace).errno
        (or_else (env.reply (socket_trace env s)).errno Errno.exit_success))

  abbrev pub opened_errno : Errno
  opened_errno =
      or_else (env.reply opened_trace).errno (or_else (env.reply peer_trace).errno connected_errno)

  -- The server is there and takes the request, and no call for it is interrupted.
  pub record Serves : Type 0 where
    pub created : (env.reply (socket_trace env s)).ret ≡ fd
    pub is_open : fd ≢ minus_one
    pub resolved : (env.reply named_trace).host ≡ some addr
    pub is_address : addr ≢ inaddr_none
    pub connects : (env.reply connecting_trace).ret ≢ minus_one
    pub leaves : (env.reply request_trace).ret ≢ pos 0
    pub leaves_calmly : IsCalm (or_else (env.reply request_trace).errno opened_errno)
    pub fits : length (env.reply answer_trace).bytes ≤ 49
    pub comes_calmly : IsCalm (
        or_else
          (env.reply answer_trace).errno
          (or_else (env.reply request_trace).errno opened_errno))

  -- The object on the way to its connection.
  abbrev pub Stands : List Call → Errno → State → Type 0
  Stands cs e u =
      (u.socket ≡ fd)
      × (u.trace ≡ cs)
      × (u.socket_type ≡ SocketType.tcp)
      × (u.flags ≡ s.flags)
      × (u.buffer ≡ s.buffer)
      × (u.buffer_size ≡ s.buffer_size)
      × (u.errno ≡ e)

  abbrev pub Created : State → Type 0
  Created =
      Stands (socket_trace env s)
        (or_else (env.reply (socket_trace env s)).errno Errno.exit_success)

  module _ (fuel : ℕ) (x : Serves) where
    pub initialize-Created :
        s.socket_type ≡ SocketType.tcp → Ends (initialize env s) λ done u. Created u
    unfolding initialize
    initialize-Created tcp = ground (arith, x.created)

    -- Connected, before the addresses are read.
    abbrev Connected : Bool → State → Type 0
    Connected done v = (done ≡ true) × Stands connecting_trace connected_errno v

    connect_tcp-Connected :
        (u : State) → Created u → Ends (connect_tcp time_server 13 env u) Connected
    unfolding connect_tcp
    connect_tcp-Connected u p = ground (arith, p, x.resolved, x.is_address, x.connects)

    note_addresses-Stands :
        (v : State)
        → Connected true v
        → Ends (note_addresses env v) λ z w. Stands opened_trace opened_errno w
    unfolding note_addresses
    note_addresses-Stands v q = ground (arith, q)

    connect-Connected :
        (u : State)
        → Created u
        → Ends (connect_by_type u.socket_type time_server 13 env u) Connected
    unfolding connect_by_type
    connect-Connected u p =
        subst (λ t. Ends (connect_by_type t time_server 13 env u) Connected) (sym p.2)
          (connect_tcp-Connected u p)

    -- `Open` succeeds.
    pub open_to-Stands :
        (u : State)
        → Created u
        → Ends
            (open_to (some time_server) 13 env u)
            λ done v. (done ≡ true) × Stands opened_trace opened_errno v
    unfolding open_to
    open_to-Stands u p =
        let valid : is_valid_handle u.sock ≡ true = ground (arith, p.0, x.is_open) in
        let Q : Bool → State → Type 0 =
          λ done v. (done ≡ true) × Stands opened_trace opened_errno v in
        rw valid (
          Ends->>= Connected Q env u (connect_by_type u.socket_type time_server 13)
            (λ connected. do when connected note_addresses; pure connected) (connect-Connected u p)
            λ done v q. rw q.0 (
              Ends->>= (λ z w. Stands opened_trace opened_errno w) Q env v note_addresses
                (λ z. pure true) (note_addresses-Stands v (refl, q.1)) λ z w o. (refl, o)))
