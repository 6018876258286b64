-- ===== src/Programs/QueryDayTime/Answer.antt =====
-- What examples/QueryDayTime.cpp prints of the answer of the server, and what it copies without one.
use clsocket.Base.{
  take-length, ℕ, suc, ◌≤◌, ℤ, pos, minus_one, ◌==ℤ◌, ◌≡◌, ◌≢◌, refl, subst, ◌∙◌, if◌then◌else◌,
  Option, none, some, List, [], ◌∷◌, length, true, false, Option-cases, inl, inr, arith,
}
use clsocket.Net.{Call, Bytes, Env}
use clsocket.Socket.{
  SocketType, State, Buffer, Outcome, fault, Ends, Op, ◌>>=◌, ◌>>◌, pure, branch, or_else,
  is_valid_handle,
}
use clsocket.Socket.Lifecycle.{close}
use clsocket.Socket.Steps.{Ends-map, after->>=}
use clsocket.Socket.Receive.{Target, receive}
use clsocket.Socket.Receive.Method.{Holds, recv_trace, receive_once}
use clsocket.Socket.Receive.Memory.{IsSized}
use clsocket.Socket.Send.Retry.{Unsent}
use clsocket.Socket.Send.{send}
use clsocket.Socket.Send.Method.{send_ends}
use clsocket.Socket.Access.{get_data}
use clsocket.Programs.{copy_data}
use clsocket.Programs.Chunk.{IsCalm}
use clsocket.Programs.QueryDayTime.{read_over, printed_part, ask_time}

-- The request, and the call that waits for the answer.
abbrev pub requested : State → List Call
requested s = Call.send s.socket (10 ∷ []) ∷ s.trace

abbrev pub awaited : State → List Call
awaited s = Call.recv s.socket (pos 0) (pos 49) s.flags ∷ requested s

abbrev pub answered : State → List Call
answered s = Call.close s.socket ∷ awaited s

-- A connection on which no call is interrupted, and the request leaves.
pub record Asks (env : Env) (s : State) : Type 0 where
  pub open_handle : is_valid_handle s.sock ≡ true
  pub is_tcp : s.socket_type ≡ SocketType.tcp
  pub is_sized : IsSized s.sock
  pub leaves : (env.reply (requested s)).ret ≢ pos 0
  pub leaves_calmly : IsCalm (or_else (env.reply (requested s)).errno s.errno)
  pub fits : length (env.reply (awaited s)).bytes ≤ 49
  pub comes_calmly :
      IsCalm
        (or_else (env.reply (awaited s)).errno (or_else (env.reply (requested s)).errno s.errno))

-- What is printed comes from a block of 49 bytes with the answer at its start.
abbrev pub Prints : (ℕ → ℕ) → Bytes → Option Bytes → Type 0
Prints old answer printed =
    (block : Buffer) × Holds answer 49 (some block)
    × (printed ≡ some (printed_part (read_over old block)))

module _ (env : Env) (fuel : ℕ) (old : ℕ → ℕ) (s : State) where
  -- After the answer, or its failure.
  abbrev After : State → Type 0
  After u =
      let r = env.reply (awaited s) in
      (u.trace ≡ awaited s)
      × (u.socket ≡ s.socket)
      × (if r.ret ==ℤ minus_one then u.buffer ≡ none else Holds r.bytes 49 u.buffer)

  abbrev rest : Op (Option Bytes)
  rest = do
    time ← copy_data 50 49
    let printed = printed_part (read_over old time)
    close
    pure (some printed)

  -- Before the answer.
  abbrev Requested : ℤ → State → Type 0
  Requested sent t =
      (t.trace ≡ requested s)
      × (sent ≡ (env.reply (requested s)).ret)
      × Unsent s t
      × (t.errno ≡ or_else (env.reply (requested s)).errno s.errno)

  send-Requested : Asks env s → Ends (send (suc fuel) (some (10 ∷ [])) 1 env s) Requested
  send-Requested x =
      Ends-map (send (suc fuel) (some (10 ∷ [])) 1 env s)
        (send_ends env (Call.send s.socket (10 ∷ [])) (suc fuel) 0 1 (10 ∷ []) s (rw x.is_tcp refl)
          x.open_handle (omega arith) (omega arith) (omega arith) x.leaves_calmly)
        λ sent t p. (p.0, p.1, p.3, p.4)

  receive-After :
      (sent : ℤ) (t : State)
      → Asks env s
      → Requested sent t
      → Ends (receive (suc fuel) (pos 49) Target.internal env t) λ got u. After u
  receive-After sent t x p =
      let same : recv_trace 49 t ≡ awaited s = rw (p.2.0, p.2.2, p.0) refl in
      let sized : IsSized t.sock = rw (p.2.3, p.2.4) x.is_sized in
      Ends-map (receive (suc fuel) (pos 49) Target.internal env t)
        (receive_once env fuel 49 t sized (rw p.2.0 x.open_handle) (p.2.1 ∙ x.is_tcp)
          (rw same x.fits) (rw (same, p.3) x.comes_calmly))
        λ got u q. (
          q.1 ∙ same,
          q.5 ∙ p.2.0,
          subst
              (λ cs.
                if (env.reply cs).ret ==ℤ minus_one
                then u.buffer ≡ none
                else Holds (env.reply cs).bytes 49 u.buffer)
              same q.4,
        )

  ask_time-After :
      (R : Outcome (Option Bytes) → Type 0)
      → Asks env s
      → ((u : State) → After u → R (rest env u))
      → R (ask_time (suc fuel) old env s)
  unfolding ask_time
  ask_time-After R x k =
      after->>= Requested R env s (send (suc fuel) (some (10 ∷ [])) 1)
        (λ sent.
          branch (sent ==ℤ pos 0) (pure none)
            (do receive (suc fuel) (pos 49) Target.internal; rest))
        (send-Requested x)
        λ sent t p.
          let left : (sent ==ℤ pos 0) ≡ false = ground (arith, p.1, x.leaves) in
          rw left (
            after->>= (λ got u. After u) R env t (receive (suc fuel) (pos 49) Target.internal)
              (λ got. rest) (receive-After sent t x p) λ got u. k u)

  rest-fault : (u : State) → u.buffer ≡ none → rest env u ≡ fault
  unfolding copy_data get_data
  rest-fault u e = rw e refl

  -- A block of 49 bytes is printed, and the connection closed.
  abbrev Printed : Outcome (Option Bytes) → Type 0
  Printed o = Ends o λ printed s'.
      Prints old (env.reply (awaited s)).bytes printed
      × (s'.trace ≡ answered s)
      × (s'.socket ≡ (if (env.reply (answered s)).ret ==ℤ minus_one then s.socket else minus_one))

  rest-Printed :
      (u : State) (block : Buffer)
      → Asks env s
      → u.trace ≡ awaited s
      → u.socket ≡ s.socket
      → u.buffer ≡ some block
      → Holds (env.reply (awaited s)).bytes 49 (some block)
      → Printed (rest env u)
  unfolding copy_data get_data close
  rest-Printed u block x trace socket e h = rw e (ground (arith, x.open_handle, take-length block))

  -- With a valid TCP handle on which the request leaves and no call is interrupted, if recv(2)
  -- fails then `ask_time` copies from a null pointer.
  pub ask_time-refused :
      Asks env s → (env.reply (awaited s)).ret ≡ minus_one → ask_time (suc fuel) old env s ≡ fault
  ask_time-refused x e =
      let failed : ((env.reply (awaited s)).ret ==ℤ minus_one) ≡ true = ground arith in
      ask_time-After (λ o. o ≡ fault) x λ u p. rest-fault u (rw failed at p.2)

  -- With a valid TCP handle on which the request leaves, no call is interrupted, and recv(2) does
  -- not fail and brings no more than it was asked for, `ask_time` prints a block of 49 bytes that
  -- begins with the bytes that came, however few they are, up to its first zero, after one send(2), one recv(2) and one
  -- close(2), which resets the handle unless it fails.
  pub ask_time-answered :
      Asks env s
      → (env.reply (awaited s)).ret ≢ minus_one
      → Ends (ask_time (suc fuel) old env s) λ printed s'.
        Prints old (env.reply (awaited s)).bytes printed
        × (s'.trace ≡ answered s)
        × (s'.socket ≡ (if (env.reply (answered s)).ret ==ℤ minus_one then s.socket else minus_one))
  ask_time-answered x ne =
      let came : ((env.reply (awaited s)).ret ==ℤ minus_one) ≡ false = ground arith in
      ask_time-After Printed x λ u p.
        let held : Holds (env.reply (awaited s)).bytes 49 u.buffer = rw came at p.2 in
        elim (Option-cases u.buffer) [
          | inl e ↦ absurd (rw e at held)
          | inr (block, e) ↦ rest-Printed u block x p.0 p.1 e (rw e at held)
        ]
