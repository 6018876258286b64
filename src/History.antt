-- ===== src/History.antt =====
-- Runs of the public methods of the three classes on one object, in any order.
pub mod Outcomes
pub mod Calm
pub mod Moves
pub mod Answers
pub mod Opening
pub mod Buffers
pub mod Owning
pub mod Writes
pub mod Reading
pub mod Running
pub mod Invariant
pub mod World
use clsocket.Base.{ℕ, ℤ, Bool, Option, List, ◌≡◌}
use clsocket.Net.{ShutdownMode, SockOpt, CString, Bytes, Env}
use clsocket.Socket.{
  SimpleSocket, State, Op, Outcome, returned, exhausted, fault, pure, ◌>>=◌, ◌>>◌,
}
use clsocket.Socket.Lifecycle
use clsocket.Socket.Send
use clsocket.Socket.Receive
use clsocket.Socket.SendFile
use clsocket.Socket.Select
use clsocket.Socket.Options
use clsocket.Active
use clsocket.Passive

-- What holds of the state that a method leaves, if it returns, where a fault has a reason.
abbrev pub Unless : {A : Type 0} → Type 0 → Outcome A → (State → Type 0) → Type 0
Unless reason (returned a s) P = P s
Unless reason (exhausted s) P = Unit {0}
Unless reason fault P = reason

-- The same, of a method that may make a fault, and of one that keeps within its memory.
abbrev pub After : {A : Type 0} → Outcome A → (State → Type 0) → Type 0
After o P = Unless (Unit {0}) o P

abbrev pub Lands : {A : Type 0} → Outcome A → (State → Type 0) → Type 0
Lands o P = Unless ⊥ o P

-- A call of a public method that may change the state, with its arguments. The methods with loops
-- carry the rounds that they may run, and `Accept` the memory of its new object.
pub data Method : Type 0 where
  initialize : Method
  close : Method
  flush : ℕ → Method
  shutdown : ShutdownMode → Method
  select : ℤ → ℤ → Method
  send : ℕ → Send.Pointer → ℕ → Method
  passive_send : ℕ → Send.Pointer → ℕ → Method
  send_vector : List Bytes → Method
  writev : ℕ → List (Send.Pointer × ℕ) → Method
  receive : ℕ → ℤ → Receive.Target → Method
  send_file : ℕ → ℤ → ℤ → ℤ → ℤ → Method
  bind_interface : Option CString → Method
  set_multicast : Bool → ℕ → Method
  set_socket_dscp : ℤ → Method
  get_socket_dscp : Method
  get_window_size : SockOpt → Method
  set_window_size : SockOpt → ℤ → Method
  disable_nagle_algoritm : Method
  enable_nagle_algoritm : Method
  set_receive_timeout : ℤ → ℤ → Method
  set_send_timeout : ℤ → ℤ → Method
  set_option_reuse_addr : Method
  set_option_linger : Bool → ℕ → Method
  set_nonblocking : Method
  set_blocking : Method
  open_to : Option CString → ℕ → Method
  listen : Option CString → ℕ → ℤ → Method
  bind_multicast : Option CString → CString → ℕ → Method
  accept : ℕ → SimpleSocket → Method

abbrev ignore : {A : Type 0} → Op A → Op (Unit {0})
ignore m = m >> pure tt

unfoldable pub run : Method → Op (Unit {0})
run initialize = ignore Lifecycle.initialize
run close = ignore Lifecycle.close
run (flush fuel) = ignore (Send.flush (Send.send fuel))
run (shutdown how) = ignore (Lifecycle.shutdown how)
run (select sec usec) = ignore (Select.select sec usec)
run (send fuel buf n) = ignore (Send.send fuel buf n)
run (passive_send fuel buf n) = ignore (Passive.passive_send fuel buf n)
run (send_vector vector) = ignore (Send.send_vector vector)
run (writev fuel vector) = ignore (Send.writev (Send.send fuel) vector)
run (receive fuel max_bytes target) = ignore (Receive.receive fuel max_bytes target)
run (send_file fuel out_fd in_fd offset count) =
    ignore (SendFile.send_file fuel out_fd in_fd offset count)
run (bind_interface interface) = ignore (Options.bind_interface interface)
run (set_multicast enable ttl) = ignore (Options.set_multicast enable ttl)
run (set_socket_dscp dscp) = ignore (Options.set_socket_dscp dscp)
run get_socket_dscp = ignore Options.get_socket_dscp
run (get_window_size opt) = ignore (Options.get_window_size opt)
run (set_window_size opt size) = ignore (Options.set_window_size opt size)
run disable_nagle_algoritm = ignore Options.disable_nagle_algoritm
run enable_nagle_algoritm = ignore Options.enable_nagle_algoritm
run (set_receive_timeout sec usec) = ignore (Options.set_receive_timeout sec usec)
run (set_send_timeout sec usec) = ignore (Options.set_send_timeout sec usec)
run set_option_reuse_addr = ignore Options.set_option_reuse_addr
run (set_option_linger enable time) = ignore (Options.set_option_linger enable time)
run set_nonblocking = ignore Options.set_nonblocking
run set_blocking = ignore Options.set_blocking
run (open_to addr port) = ignore (Active.open_to addr port)
run (listen addr port backlog) = ignore (Passive.listen addr port backlog)
run (bind_multicast interface group port) = ignore (Passive.bind_multicast interface group port)
run (accept fuel memory) = ignore (Passive.accept fuel memory)

-- The states that calls of methods lead to, each of which returned.
pub data Reaches (env : Env) (s : State) : State → Type 0 where
  here : Reaches env s s
  step :
      {t u : State} (m : Method) → Reaches env s t → run m env t ≡ returned tt u → Reaches env s u
