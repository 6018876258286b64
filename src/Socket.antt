-- ===== src/Socket.antt =====
-- `CSimpleSocket` of src/SimpleSocket.h and src/SimpleSocket.cpp: its data members, and the monad in
-- which its methods run. A method runs on one object; beside the object the state holds errno,
-- the memory that the caller passed to `Receive`, and the system calls made so far.
pub mod Steps
pub mod Lifecycle
pub mod Send
pub mod Receive
pub mod Options
pub mod SendFile
pub mod Select
pub mod Access
use clsocket.Base.{
  true, false, ℕ, suc, ℤ, minus_one, ◌==ℤ◌, Bool, not, Option, none, some, List, ◌∷◌, if◌then◌else◌,
}
use clsocket.Net.{Errno, Family, Timeval, SockAddr, Call, Reply, Env, Bytes}
use clsocket.Error.{SocketError, translate_errno}
use clsocket.Timer.{StatTimer, initialize, set_start_time, set_end_time}

pub data SocketType : Type 0 where
  invalid tcp udp tcp6 udp6 raw : SocketType

-- The values of the enumerators, which `Initialize` hands to socket(2).
unfoldable pub socket_type_value : SocketType → ℕ
socket_type_value invalid = 0
socket_type_value tcp = 1
socket_type_value udp = 2
socket_type_value tcp6 = 3
socket_type_value udp6 = 4
socket_type_value raw = 5

-- A block of memory; `none` is a byte that nothing has written yet.
abbrev pub Buffer : Type 0
Buffer = List (Option ℕ)

pub record Linger : Type 0 where
  pub l_onoff : ℕ
  pub l_linger : ℕ

-- The data members, but for the three descriptor sets: `Select` fills them from the handle before it
-- reads them, and nothing else uses them.
pub record SimpleSocket : Type 0 where
  pub socket : ℤ
  pub socket_errno : SocketError
  pub buffer : Option Buffer
  pub buffer_size : ℤ
  pub socket_domain : Family
  pub socket_type : SocketType
  pub bytes_received : ℤ
  pub bytes_sent : ℤ
  pub flags : ℕ
  pub is_blocking : Bool
  pub is_multicast : Bool
  pub connect_timeout : Timeval
  pub recv_timeout : Timeval
  pub send_timeout : Timeval
  pub server_sockaddr : SockAddr
  pub client_sockaddr : SockAddr
  pub multicast_group : SockAddr
  pub linger : Linger
  pub timer : StatTimer

pub record State : Type 0 where
  pub sock : SimpleSocket
  pub open sock use *
  pub errno : Errno
  pub caller_buffer : Buffer
  pub trace : List Call
  pub ticks : ℕ

-- How a method ends: it returns, a loop of it has used up its fuel (in the state that it had then),
-- or it has read or written outside a block, or asked for one of negative size.
pub data Outcome (A : Type 0) : Type 0 where
  returned : A → State → Outcome A
  exhausted : State → Outcome A
  fault : Outcome A

abbrev pub Op : Type 0 → Type 0
Op A = Env → State → Outcome A

abbrev pub pure : {A : Type 0} → A → Op A
pure a env s = returned a s

infixl 5 ◌>>=◌ ◌>>◌
abbrev pub ◌>>=◌ : {A B : Type 0} → Op A → (A → Op B) → Op B
◌>>=◌ m f env s = elim (m env s) [
  | returned a s' ↦ f a env s'
  | exhausted s' ↦ exhausted s'
  | fault ↦ fault
]

abbrev pub ◌>>◌ : {A B : Type 0} → Op A → Op B → Op B
m >> k = m >>= λ _. k

-- Memory that a method reads or writes must be there.
abbrev pub within : Bool → Op (Unit {0})
within true env s = returned tt s
within false env s = fault

-- A branch that waits for its test.
abbrev pub branch : {A : Type 0} → Bool → Op A → Op A → Op A
branch b m k env s = if b then m env s else k env s

abbrev pub when : Bool → Op (Unit {0}) → Op (Unit {0})
when b m = branch b m (pure tt)

abbrev pub gets : {A : Type 0} → (SimpleSocket → A) → Op A
gets f env s = returned (f s.sock) s

abbrev pub modify : (SimpleSocket → SimpleSocket) → Op (Unit {0})
modify f env s = returned tt (record s { sock = f s.sock })

abbrev pub or_else {ℓ} : {A : Type ℓ} → Option A → A → A
or_else none a = a
or_else (some b) a = b

-- Make a system call: it joins the trace, and errno changes if the reply says so.
abbrev pub call : Call → Op Reply
call c env s =
    let r = env.reply (c ∷ s.trace) in
    returned r (record s { trace = c ∷ s.trace; errno = or_else r.errno s.errno })

abbrev pub set_errno : Errno → Op (Unit {0})
set_errno e env s = returned tt (record s { errno = e })

abbrev pub set_socket_error : SocketError → Op (Unit {0})
set_socket_error e = modify λ s. record s { socket_errno = e }

abbrev pub translate_socket_error : Op (Unit {0})
translate_socket_error env s =
    returned tt (record s { sock = record s.sock { socket_errno = translate_errno s.errno } })

abbrev pub is_valid_handle : SimpleSocket → Bool
is_valid_handle s = not (s.socket ==ℤ minus_one)

-- `IsSocketValid`.
abbrev pub is_socket_valid : Op Bool
is_socket_valid = gets is_valid_handle

abbrev pub read_clock : Op Timeval
read_clock env s = returned (env.clock s.ticks) (record s { ticks = suc s.ticks })

-- `m_timer.Initialize(); m_timer.SetStartTime();`
abbrev pub start_timer : Op (Unit {0})
start_timer = do
  now ← read_clock
  modify λ s. record s { timer = set_start_time now (initialize s.timer) }

-- `m_timer.SetEndTime();`
abbrev pub end_timer : Op (Unit {0})
end_timer = do now ← read_clock; modify λ s. record s { timer = set_end_time now s.timer }

-- Run a method of another object: its state comes back with the result.
abbrev pub on : {A : Type 0} → SimpleSocket → Op A → Op (A × SimpleSocket)
on other m env s = elim (m env (record s { sock = other })) [
  | returned a s' ↦ returned (a, s'.sock) (record s' { sock = s.sock })
  | exhausted s' ↦ exhausted s'
  | fault ↦ fault
]

-- What holds of a method that must return: of its result and of the state that it leaves.
abbrev pub Ends : {A : Type 0} → Outcome A → (A → State → Type 0) → Type 0
Ends (returned a s) P = P a s
Ends (exhausted s) P = ⊥
Ends fault P = ⊥
