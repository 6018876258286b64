-- ===== src/Passive/Retry.antt =====
-- The loop of `Accept` of src/PassiveSocket.cpp.
use clsocket.Base.{ℕ, ℤ, ◌<◌, zero, suc, minus_one, ◌≡◌, ◌≢◌, Option, none, some, List, ◌∷◌, arith}
use clsocket.Net.{Errno, Call, Env}
use clsocket.Error.{SocketError, translate_errno, is_success, is_interrupted}
use clsocket.Timer.{initialize, set_start_time}
use clsocket.Socket.{SocketType, SimpleSocket, State, Ends}
use clsocket.Active.{construct_active}
use clsocket.Passive.{accept_round, accept_loop, accept}

-- The calls after `k` more rounds.
abbrev pub waited : Call → ℕ → List Call → List Call
waited c zero cs = cs
waited c (suc k) cs = waited c k (c ∷ cs)

-- The next `k` calls are interrupted by a signal.
abbrev pub Signalled : Env → Call → ℕ → List Call → Type 0
Signalled env c zero cs = Unit {0}
Signalled env c (suc k) cs =
    ((env.reply (c ∷ cs)).ret ≡ minus_one)
    × ((env.reply (c ∷ cs)).errno ≡ some Errno.eintr)
    × ((env.reply (c ∷ cs)).addr ≡ none)
    × Signalled env c k (c ∷ cs)

abbrev again : State → State
again s = record s {
  sock = record s.sock { socket_errno = SocketError.interrupted };
  trace = Call.accept s.socket ∷ s.trace;
  errno = Errno.eintr;
}

accept_loop-again :
    (env : Env) (client : SimpleSocket) (fuel : ℕ) (s : State)
    → let r = env.reply (Call.accept s.socket ∷ s.trace) in
      r.ret ≡ minus_one
      → r.errno ≡ some Errno.eintr
      → r.addr ≡ none
      → accept_loop (suc fuel) client env s ≡ accept_loop fuel client env (again s)
unfolding accept_loop accept_round translate_errno is_interrupted
accept_loop-again env client fuel s failed eintr unnamed = ground arith

-- What the loop gives in the end.
abbrev Connected : Env → List Call → State → SimpleSocket × SocketError → State → Type 0
Connected env cs s (adopted, e) s' =
    (e ≡ SocketError.success)
    × (adopted.socket ≡ (env.reply (Call.accept s.socket ∷ cs)).ret)
    × (s'.socket ≡ s.socket)
    × (s'.trace ≡ Call.getsockname s.socket ∷ Call.getpeername s.socket ∷ Call.accept s.socket ∷ cs)

accept_loop-Connected :
    (env : Env) (client : SimpleSocket) (fuel : ℕ) (s : State)
    → (env.reply (Call.accept s.socket ∷ s.trace)).ret ≢ minus_one
    → (env.reply (Call.accept s.socket ∷ s.trace)).errno ≡ none
    → Ends (accept_loop (suc fuel) client env s) (Connected env s.trace s)
unfolding accept_loop accept_round translate_errno is_interrupted
accept_loop-Connected env client fuel s ok calm = ground arith

accept_loop-waited :
    (env : Env) (client : SimpleSocket) (fuel k : ℕ) (s : State)
    → k < fuel
    → let c = Call.accept s.socket in
      let cs = waited c k s.trace in
      Signalled env c k s.trace
      → (env.reply (c ∷ cs)).ret ≢ minus_one
      → (env.reply (c ∷ cs)).errno ≡ none
      → Ends (accept_loop fuel client env s) (Connected env cs s)
accept_loop-waited env client zero k s h i ok calm = absurd (omega arith)
accept_loop-waited env client (suc fuel) zero s h i ok calm =
    accept_loop-Connected env client fuel s ok calm
accept_loop-waited env client (suc fuel) (suc k) s h i ok calm =
    rw (accept_loop-again env client fuel s i.0 i.1 i.2)
      (accept_loop-waited env client fuel k (again s) (omega arith) i.3 ok calm)

abbrev pub handle_of : Option SimpleSocket → Option ℤ
handle_of none = none
handle_of (some client) = some client.socket

-- On a TCP socket, when the next k calls of accept(2) fail with EINTR and the one after them
-- succeeds without touching errno, `accept` ends with more than k rounds of fuel: it gives an
-- object with the handle of the last call, after exactly k + 1 calls of accept(2) and one each of
-- getpeername(2) and getsockname(2), and keeps its own handle.
pub accept-Signalled :
    (env : Env) (s : State) (memory : SimpleSocket) (fuel k : ℕ)
    → s.socket_type ≡ SocketType.tcp
    → k < fuel
    → let c = Call.accept s.socket in
      let cs = waited c k s.trace in
      Signalled env c k s.trace
      → (env.reply (c ∷ cs)).ret ≢ minus_one
      → (env.reply (c ∷ cs)).errno ≡ none
      → Ends (accept fuel memory env s) λ client s'.
        (handle_of client ≡ some (env.reply (c ∷ cs)).ret)
        × (s'.socket ≡ s.socket)
        × (s'.trace ≡ Call.getsockname s.socket ∷ Call.getpeername s.socket ∷ c ∷ cs)
unfolding accept is_success
accept-Signalled env s memory fuel k tcp h i ok calm =
    let t : State = record s {
      sock = record s.sock { timer = set_start_time (env.clock s.ticks) (initialize s.timer) };
      ticks = suc s.ticks;
    } in
    let client = construct_active memory SocketType.tcp in
    ground (arith, tcp, accept_loop-waited env client fuel k t h i ok calm)
