-- ===== src/Programs/EchoServer/Session.antt =====
-- One round of examples/EchoServer.cpp.
use clsocket.Base.{
  ℕ, suc, ℤ, pos, minus_one, ◌==ℤ◌, not, ◌≡◌, ◌≢◌, sym, subst, ◌∙◌, none, List, ◌∷◌, true, false,
  arith,
}
use clsocket.Net.{Errno, Call, Bytes, Env}
use clsocket.Socket.{SocketType, State, Ends, or_else, is_valid_handle, ◌>>◌, pure, when}
use clsocket.Socket.Lifecycle.{close}
use clsocket.Active.{destruct_active}
use clsocket.Socket.Receive.{Target, receive}
use clsocket.Socket.Receive.Memory.{Sized}
use clsocket.Socket.Steps.{Ends->>=, >>-assoc}
use clsocket.Programs.{send_back}
use clsocket.Programs.Chunk.{
  Chunk, IsCalm, answered, SentBack, send_back-Holds, Received, receive-Arrival,
}
use clsocket.Programs.EchoServer.{answer, max_packet}

-- A session: one chunk, and the end of the connection.
pub record Exchange (env : Env) (fd : ℤ) (request : Bytes) (cs : List Call) : Type 0 where
  pub chunk : Chunk env max_packet fd request cs
  pub closes : (env.reply (Call.close fd ∷ answered max_packet fd request cs)).ret ≢ minus_one

module _ (env : Env) (fuel stale : ℕ) where
  abbrev pub Done : ℤ → Bytes → List Call → State → Type 0
  Done fd request cs s' = s'.trace ≡ Call.close fd ∷ answered max_packet fd request cs

  -- `Close`, and the destructor that then has nothing to close.
  close-Exchange :
      (fd : ℤ) (request : Bytes) (cs : List Call) (t : State)
      → Exchange env fd request cs
      → t.socket ≡ fd
      → t.trace ≡ answered max_packet fd request cs
      → Ends ((close >> pure tt >> destruct_active) env t) λ z s'. Done fd request cs s'
  unfolding close destruct_active
  close-Exchange fd request cs t x e h = ground (arith, x.chunk.arrival.open_handle, x.closes)

  answer-Received :
      (request : Bytes) (s : State)
      → Exchange env s.socket request s.trace
      → IsCalm s.errno
      → (got : ℤ) (t : State) → Received env fuel stale max_packet request s got t
      → Ends
          ((do
            when (not (got ==ℤ pos 0)) (do send_back (suc fuel) stale; close; pure tt)
            destruct_active)
            env t)
          λ z s'. Done s.socket request s.trace s'
  answer-Received request s x fine got t p =
      let more : (got ==ℤ pos 0) ≡ false = ground (arith, p.0, x.chunk.arrival.some_bytes) in
      let valid : is_valid_handle t.sock ≡ true =
        ground (arith, p.4, x.chunk.arrival.open_handle) in
      let calm : (env.reply (Call.send t.socket request ∷ t.trace)).errno ≡ none =
        rw (p.4, p.1) x.chunk.sent_calmly in
      rw more (
        >>-assoc (λ z s'. Done s.socket request s.trace s') env t (send_back (suc fuel) stale)
          (close >> pure tt) destruct_active
          (Ends->>= (SentBack env fuel stale request t) (λ z s'. Done s.socket request s.trace s')
            env t (send_back (suc fuel) stale) (λ z. close >> pure tt >> destruct_active)
            (send_back-Holds env fuel stale request max_packet t valid p.5 p.2
              x.chunk.arrival.some_bytes p.3 calm (rw p.6 fine))
            λ n u q. close-Exchange s.socket request s.trace u x (q.1.0 ∙ p.4) (q.0 ∙ cc)))

  pub answer-Exchange :
      (request : Bytes) (s : State)
      → Exchange env s.socket request s.trace
      → s.socket_type ≡ SocketType.tcp
      → s.buffer ≡ none
      → s.flags ≡ 0
      → IsCalm s.errno
      → Ends (answer (suc fuel) stale env s) λ x s'. Done s.socket request s.trace s'
  unfolding answer
  answer-Exchange request s x tcp empty flags fine =
      Ends->>= (Received env fuel stale max_packet request s)
        (λ z s'. Done s.socket request s.trace s') env s
        (receive (suc fuel) (pos max_packet) Target.internal)
        (λ n. do
          when (not (n ==ℤ pos 0)) (do send_back (suc fuel) stale; close; pure tt)
          destruct_active)
        (receive-Arrival env fuel stale max_packet request s x.chunk.arrival tcp
          (subst (λ b. Sized b s.buffer_size) (sym empty) tt) flags fine)
        λ got t p. answer-Received request s x fine got t p

-- The calls of `Accept` for a connection on this handle.
abbrev pub taken : ℤ → List Call → List Call
taken listener cs =
    Call.getsockname listener ∷ Call.getpeername listener ∷ Call.accept listener ∷ cs

-- The kernel hands over a client and serves it.
pub record Visit (env : Env) (listener fd : ℤ) (request : Bytes) (cs : List Call) : Type 0 where
  pub connected : (env.reply (Call.accept listener ∷ cs)).ret ≡ fd
  pub accepted_calmly : (env.reply (Call.accept listener ∷ cs)).errno ≡ none
  pub named_calmly : IsCalm (
      or_else (env.reply (taken listener cs)).errno (
        or_else
          (env.reply (Call.getpeername listener ∷ Call.accept listener ∷ cs)).errno
          Errno.exit_success))
  pub exchange : Exchange env fd request (taken listener cs)

-- All the calls of a visit.
abbrev pub visited : ℤ → ℤ → Bytes → List Call → List Call
visited listener fd request cs = Call.close fd ∷ answered max_packet fd request (taken listener cs)
