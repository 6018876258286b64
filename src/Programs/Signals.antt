-- ===== src/Programs/Signals.antt =====
-- What `Accept` leaves to the servers of examples/, whatever fails, if no signal interrupts a read.
use clsocket.Base.{
  ℕ, zero, suc, ℤ, true, ◌≡◌, Option, none, some, List, ◌∷◌, inl, inr, Bool-cases, arith,
}
use clsocket.Net.{Errno, Call, Env}
use clsocket.Timer.{set_start_time, initialize as initialize_timer}
use clsocket.Error.{SocketError, is_interrupted, is_success, translate_errno}
use clsocket.Socket.{
  SocketType, SimpleSocket, State, Outcome, returned, exhausted, fault, or_else, branch, pure, on,
  end_timer, ◌>>◌,
}
use clsocket.Active.{construct_active, destruct_active}
use clsocket.Passive.{is_tcp, accept_round, accept_loop, accept}
use clsocket.History.Outcomes.{Yields, Yields->>=}
use clsocket.History.Owning.{Kept, Pending, Given, accept-Given}
use clsocket.Programs.Chunk.{IsCalm}

-- No signal interrupts recv(2) or the two calls that name addresses.
pub record Unsignalled (env : Env) : Type 0 where
  pub recv_calmly :
      (fd offset max : ℤ) (flags : ℕ) (cs : List Call) (e : Errno)
      → IsCalm e
      → IsCalm (or_else (env.reply (Call.recv fd offset max flags ∷ cs)).errno e)
  pub getpeername_calmly :
      (fd : ℤ) (cs : List Call) (e : Errno)
      → IsCalm e
      → IsCalm (or_else (env.reply (Call.getpeername fd ∷ cs)).errno e)
  pub getsockname_calmly :
      (fd : ℤ) (cs : List Call) (e : Errno)
      → IsCalm e
      → IsCalm (or_else (env.reply (Call.getsockname fd ∷ cs)).errno e)

module _ (env : Env) (calm : Unsignalled env) where
  -- An object that `Accept` is going to return leaves no interruption.
  abbrev Settled : SimpleSocket × SocketError → State → Type 0
  Settled a t = is_success a.1 ≡ true → IsCalm t.errno

  success-IsCalm : (e : Errno) → is_success (translate_errno e) ≡ true → IsCalm e
  unfolding is_success is_interrupted translate_errno
  success-IsCalm e h = ground arith

  accept_round-Settled :
      (client : SimpleSocket) (s : State) → Yields (accept_round client env s) Settled
  unfolding accept_round
  accept_round-Settled client s =
      let cs = Call.accept s.socket ∷ s.trace in
      let e = or_else (env.reply cs).errno Errno.exit_success in
      let ds = Call.getpeername s.socket ∷ cs in
      ground (
        arith,
        success-IsCalm e,
        calm.getpeername_calmly s.socket cs e,
        calm.getsockname_calmly s.socket ds (or_else (env.reply ds).errno e),
      )

  accept_loop-Settled :
      (fuel : ℕ) (client : SimpleSocket) (s : State)
      → Yields (accept_loop fuel client env s) Settled
  unfolding accept_loop
  accept_loop-Settled zero client s = tt
  accept_loop-Settled (suc fuel) client s =
      Yields->>= Settled Settled env s (accept_round client)
        (λ a. branch (is_interrupted a.1) (accept_loop fuel a.0) (pure (a.0, a.1)))
        (accept_round-Settled client s) λ a t h. ground (arith, h, accept_loop-Settled fuel a.0 t)

  abbrev Calmly : Option SimpleSocket → State → Type 0
  Calmly none t = Unit {0}
  Calmly (some client) t = IsCalm t.errno

  settle-Calmly :
      (a : SimpleSocket × SocketError) (t : State)
      → Settled a t
      → Yields
          ((do
            end_timer
            branch (is_success a.1) (pure (some a.0)) (do on a.0 destruct_active; pure none))
            env t)
          Calmly
  unfolding destruct_active
  settle-Calmly a t h = ground (arith, h)

  accept-Calmly :
      (fuel : ℕ) (memory : SimpleSocket) (s : State) → Yields (accept fuel memory env s) Calmly
  unfolding accept
  accept-Calmly fuel memory s =
      let client = construct_active memory SocketType.tcp in
      let t : State = record s {
        sock = record s.sock {
          timer = set_start_time (env.clock s.ticks) (initialize_timer s.timer);
        };
        ticks = suc s.ticks;
      } in
      elim (Bool-cases (is_tcp s.socket_type)) [
        | inl tcp ↦ rw tcp (
            Yields->>= Settled Calmly env t (accept_loop fuel client)
              (λ a. do
                end_timer
                branch (is_success a.1) (pure (some a.0)) (do on a.0 destruct_active; pure none))
              (accept_loop-Settled fuel client t) settle-Calmly)
        | inr other ↦ rw other tt
      ]

module _ (env : Env) (calm : Unsignalled env) (watched : ℤ) (rest : ℕ) where
  -- What `Accept` leaves: its new object is ready to receive.
  abbrev pub Guest : Option SimpleSocket → State → Type 0
  Guest none t = Kept env watched rest t
  Guest (some client) t = Pending env watched rest client t × IsCalm t.errno

  both_given :
      (o : Outcome (Option SimpleSocket))
      → Given env watched rest o
      → Yields o (Calmly env calm)
      → Yields o Guest
  both_given (returned none t) h k = h
  both_given (returned (some client) t) h k = (h, k)
  both_given (exhausted t) h k = tt
  both_given fault h k = absurd h

  pub accept-Guest :
      (fuel : ℕ) (memory : SimpleSocket) (s : State)
      → Kept env watched rest s
      → Yields (accept fuel memory env s) Guest
  accept-Guest fuel memory s k =
      both_given (accept fuel memory env s) (accept-Given env watched rest fuel memory s k)
        (accept-Calmly env calm fuel memory s)
