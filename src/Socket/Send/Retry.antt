-- ===== src/Socket/Send/Retry.antt =====
-- The retry loop of `Send`: how often it calls the kernel, when it ends and when it does not.
use clsocket.Base.{
  ℕ, zero, suc, ◌<◌, minus_one, Bool, true, false, ◌≡◌, ◌≢◌, refl, ◌∙◌, ap, none, some, List, ◌∷◌,
  ◌++◌, replicate, arith,
}
use clsocket.Net.{Errno, Call, Env}
use clsocket.Error.{translate_errno, is_interrupted}
use clsocket.Socket.{State, Op, ◌>>◌, Outcome, ◌>>◌, returned, exhausted, fault, or_else}
use clsocket.Socket.Send.{send_loop}

-- errno after a call, and the state after one round of the loop.
abbrev pub errno_after : Env → List Call → Errno → Errno
errno_after env cs e = or_else (env.reply cs).errno e

abbrev pub after_round : Env → Call → State → State
after_round env c s = record s {
  sock = record s.sock {
    bytes_sent = (env.reply (c ∷ s.trace)).ret;
    socket_errno = translate_errno (errno_after env (c ∷ s.trace) s.errno);
  };
  trace = c ∷ s.trace;
  errno = errno_after env (c ∷ s.trace) s.errno;
}

abbrev pub is_round_interrupted : Env → Call → State → Bool
is_round_interrupted env c s =
    is_interrupted (translate_errno (errno_after env (c ∷ s.trace) s.errno))

-- The first `k` rounds are interrupted, and the next one is not.
abbrev pub Interrupts : Env → Call → ℕ → State → Type 0
Interrupts env c zero s = is_round_interrupted env c s ≡ false
Interrupts env c (suc k) s =
    (is_round_interrupted env c s ≡ true) × Interrupts env c k (after_round env c s)

-- The state after `k` rounds.
abbrev pub rounds : Env → Call → ℕ → State → State
rounds env c zero s = s
rounds env c (suc k) s = rounds env c k (after_round env c s)

pub send_loop_ends :
    (env : Env) (c : Call) (fuel k : ℕ) (s : State)
    → k < fuel
    → Interrupts env c k s
    → send_loop fuel c env s ≡ returned tt (rounds env c (suc k) s)
unfolding send_loop
send_loop_ends env c zero k s h i = absurd (omega arith)
send_loop_ends env c (suc fuel) zero s h i = rw i
send_loop_ends env c (suc fuel) (suc k) s h i =
    rw i.0 (send_loop_ends env c fuel k (after_round env c s) (omega arith) i.1)

-- A call that succeeds leaves errno as it was.
abbrev pub SuccessKeepsErrno : Env → Type 0
SuccessKeepsErrno env =
    (cs : List Call) → (env.reply cs).ret ≢ minus_one → (env.reply cs).errno ≡ none

-- After these calls the kernel accepts this one, however often it is made.
abbrev pub Accepts : Env → Call → List Call → Type 0
Accepts env c cs = (k : ℕ) → (env.reply (c ∷ replicate k c ++ cs)).ret ≢ minus_one

-- The fuel is gone after these calls, and errno still says that a call was interrupted.
abbrev pub Spins : {A : Type 0} → List Call → Outcome A → Type 0
Spins cs (exhausted s') = (s'.trace ≡ cs) × (s'.errno ≡ Errno.eintr)
Spins cs (returned a s') = ⊥
Spins cs fault = ⊥

-- A loop that spins lets nothing after it run.
pub Spins->> :
    {A B : Type 0} (cs : List Call) (env : Env) (s : State) (m : Op A) (k : Op B)
    → Spins cs (m env s)
    → Spins cs ((m >> k) env s)
Spins->> {A} {B} cs env s m k h = go (m env s) h
  where
    go :
        (o : Outcome A)
        → Spins cs o
        → Spins cs
            (elim o [ returned a s' ↦ k env s' | exhausted s' ↦ exhausted s' | fault ↦ fault ])
    go (returned a s') h' = absurd h'
    go (exhausted s') h' = h'
    go fault h' = absurd h'

replicate-snoc :
    (n : ℕ) (c : Call) (cs : List Call) → replicate n c ++ c ∷ cs ≡ replicate (suc n) c ++ cs
replicate-snoc zero c cs = refl
replicate-snoc (suc n) c cs = ap (◌∷◌ c) (replicate-snoc n c cs)

Accepts-next : (env : Env) (c : Call) (cs : List Call) → Accepts env c cs → Accepts env c (c ∷ cs)
Accepts-next env c cs h k = rw (replicate-snoc k c cs) (h (suc k))

pub send_loop_stuck :
    (env : Env) (c : Call) (fuel : ℕ) (s : State)
    → SuccessKeepsErrno env
    → Accepts env c s.trace
    → s.errno ≡ Errno.eintr
    → Spins (replicate fuel c ++ s.trace) (send_loop fuel c env s)
unfolding send_loop translate_errno is_interrupted
send_loop_stuck env c zero s keeps accepts e = (refl, e)
send_loop_stuck env c (suc fuel) s keeps accepts e =
    let kept = keeps (c ∷ s.trace) (accepts 0) in
    let rest =
      send_loop_stuck env c fuel (after_round env c s) keeps (Accepts-next env c s.trace accepts)
        (rw kept e) in
    rw (kept, e, ← replicate-snoc fuel c s.trace) (rw (kept, e) at rest)

pub send_loop_interrupted :
    (env : Env) (c : Call) (fuel : ℕ) (s : State)
    → SuccessKeepsErrno env
    → (env.reply (c ∷ s.trace)).errno ≡ some Errno.eintr
    → Accepts env c (c ∷ s.trace)
    → Spins (replicate (suc fuel) c ++ s.trace) (send_loop (suc fuel) c env s)
unfolding send_loop translate_errno is_interrupted
send_loop_interrupted env c fuel s keeps eintr accepts =
    let rest = send_loop_stuck env c fuel (after_round env c s) keeps accepts (rw eintr refl) in
    rw (eintr, ← replicate-snoc fuel c s.trace) (rw eintr at rest)

pub rounds_lem :
    (env : Env) (c : Call) (k : ℕ) (s : State)
    → ((rounds env c k s).trace ≡ replicate k c ++ s.trace)
      × ((rounds env c (suc k) s).bytes_sent ≡ (env.reply (replicate (suc k) c ++ s.trace)).ret)
      × ((rounds env c (suc k) s).errno
          ≡ or_else (env.reply (replicate (suc k) c ++ s.trace)).errno (rounds env c k s).errno)
rounds_lem env c zero s = (refl, refl, refl)
rounds_lem env c (suc k) s =
    let ih = rounds_lem env c k (after_round env c s) in
    let e = replicate-snoc k c s.trace in
    let last = (rounds env c k (after_round env c s)).errno in
    (
      ih.0 ∙ e,
      ih.1 ∙ ap (λ cs. (env.reply (c ∷ cs)).ret) e,
      ih.2 ∙ ap (λ cs. or_else (env.reply (c ∷ cs)).errno last) e,
    )

-- What the rounds leave alone.
abbrev pub Unsent : State → State → Type 0
Unsent s s' =
    (s'.socket ≡ s.socket)
    × (s'.socket_type ≡ s.socket_type)
    × (s'.flags ≡ s.flags)
    × (s'.buffer ≡ s.buffer)
    × (s'.buffer_size ≡ s.buffer_size)

pub rounds-Unsent : (env : Env) (c : Call) (k : ℕ) (s : State) → Unsent s (rounds env c k s)
rounds-Unsent env c zero s = (refl, refl, refl, refl, refl)
rounds-Unsent env c (suc k) s = rounds-Unsent env c k (after_round env c s)
