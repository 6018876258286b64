-- ===== src/Programs/Listening.antt =====
-- How the servers of examples/ come to listen: `Initialize` and `Listen`.
use clsocket.Base.{ℕ, ℤ, pos, minus_one, ◌≡◌, ◌≢◌, some, List, true, arith}
use clsocket.Net.{Call, CString, Env}
use clsocket.Socket.{SocketType, State, Ends}
use clsocket.Socket.Lifecycle.{initialize}
use clsocket.Socket.Lifecycle.Handle.{socket_trace}
use clsocket.Passive.{attempt_listen, listen}
use clsocket.Passive.Listen.{bound_trace, listening_trace}

-- The state once socket(2) has given a handle, as far as the calls go.
abbrev pub with_handle : Env → State → ℤ → State
with_handle env s fd = record s { sock = record s.sock { socket = fd }; trace = socket_trace env s }

-- The kernel gives a handle, binds it and listens on it.
pub record Listens (env : Env) (s : State) (fd : ℤ) (addr : CString) (port : ℕ) : Type 0 where
  pub created : (env.reply (socket_trace env s)).ret ≡ fd
  pub is_open : fd ≢ minus_one
  pub bound :
      (env.reply (bound_trace env (with_handle env s fd) port (pos 30000) (some addr))).ret
      ≢ minus_one
  pub listening :
      (env.reply (listening_trace env (with_handle env s fd) port (pos 30000) (some addr))).ret
      ≢ minus_one

abbrev pub ready_trace : Env → State → ℤ → CString → ℕ → List Call
ready_trace env s fd addr port =
    listening_trace env (with_handle env s fd) port (pos 30000) (some addr)

module _ (env : Env) (s : State) (fd : ℤ) (addr : CString) (port : ℕ) where
  abbrev pub Initialized : State → Type 0
  Initialized u =
      (u.trace ≡ socket_trace env s) × (u.socket ≡ fd) × (u.socket_type ≡ SocketType.tcp)

  pub initialize-Initialized :
      Listens env s fd addr port
      → s.socket_type ≡ SocketType.tcp
      → Ends (initialize env s) λ done u. Initialized u
  unfolding initialize
  initialize-Initialized x tcp = ground (arith, x.created)

  abbrev pub Ready : State → Type 0
  Ready t =
      (t.trace ≡ ready_trace env s fd addr port)
      × (t.socket ≡ fd)
      × (t.socket_type ≡ SocketType.tcp)

  pub listen-Ready :
      (u : State)
      → Listens env s fd addr port
      → Initialized u
      → Ends (listen (some addr) port (pos 30000) env u) λ ok t. (ok ≡ true) × Ready t
  unfolding listen attempt_listen
  listen-Ready u x p = ground (arith, p, x.bound, x.listening)
