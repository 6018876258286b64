-- ===== src/Programs/Guests.antt =====
-- A client of the servers of examples/ between two methods, when anything may fail but no signal
-- interrupts a read.
use clsocket.Base.{ℕ, ◌+◌, ℤ, pos, Option, none, some, inl, arith}
use clsocket.Net.{Env}
use clsocket.Socket.{SimpleSocket, State, Op, Outcome, returned, exhausted, fault, pure, on, ◌>>◌}
use clsocket.Socket.Receive.Memory.{IsSized}
use clsocket.Active.{destruct_active}
use clsocket.Socket.Send.{send}
use clsocket.Socket.Receive.{Target, receive}
use clsocket.Passive.{destruct_passive}
use clsocket.History.{After, Lands}
use clsocket.History.Outcomes.{Lands->>=, Lands-map, Lands-both}
use clsocket.History.Owning.{held, Calm-Kept, Tame-Kept, Kept}
use clsocket.History.Moves.{Readable, send-Calm}
use clsocket.History.Buffers.{receive-Tame}
use clsocket.Programs.Counts.{Counts, Sendable, Sendable-Readable, receive-Sendable}
use clsocket.History.Reading.{receive-Lands}
use clsocket.Programs.{read_block, to_size, send_back}
use clsocket.Programs.Errno.{receive-Uninterrupted, send-Uninterrupted}
use clsocket.Programs.Chunk.{IsCalm}
use clsocket.Programs.Signals.{Unsignalled, Guest}

module _ (env : Env) (calm : Unsignalled env) (watched : ℤ) (rest : ℕ) where
  -- A method of the new object gives back no more than the object held.
  on-Guest :
      (m : Op (Unit {0})) (client : SimpleSocket) (t : State)
      → IsSized t.sock
      → Lands (m env (record t { sock = client })) (Kept env watched (held watched t.sock + rest))
      → Lands ((on client m >> pure tt) env t) (Kept env watched rest)
  on-Guest m client t sized h =
      Lands->>= (Kept env watched rest) (Kept env watched rest) env t (on client m) (λ _. pure tt)
        (follow (m env (record t { sock = client })) h) λ _ u k. k
    where
      follow :
          (o : Outcome (Unit {0}))
          → Lands o (Kept env watched (held watched t.sock + rest))
          → Lands
              (elim o as (λ _. Outcome (Unit {0} × SimpleSocket)) [
                | returned a u ↦ returned (a, u.sock) (record u { sock = t.sock })
                | exhausted u ↦ exhausted u
                | fault ↦ fault
              ])
              (Kept env watched rest)
      follow (returned a u) k = (sized, omega (arith, k.1))
      follow (exhausted u) k = tt
      follow fault k = absurd k

-- The methods of the object that a client is.
module _ (env : Env) (calm : Unsignalled env) (counts : Counts env) (watched : ℤ) (rest : ℕ) where
  -- Between two methods.
  abbrev pub Sound : State → Type 0
  Sound s = Kept env watched rest s × IsCalm s.errno

  -- And after `Receive` of so many bytes at most.
  abbrev pub Loaded : ℕ → State → Type 0
  Loaded n s = Sound s × Sendable n s

  pub receive-Loaded :
      (fuel n : ℕ) (s : State)
      → Sound s
      → Lands (receive fuel (pos n) Target.internal env s) (Loaded n)
  receive-Loaded fuel n s k =
      let o = receive fuel (pos n) Target.internal env s in
      let safe : Lands o λ u. Unit {0} =
        receive-Lands env fuel n Target.internal s counts.modest k.0.0 tt
          λ tcp. calm.recv_calmly s.socket (pos 0) (pos n) s.flags s.trace s.errno k.1 in
      let kept : After o (Kept env watched rest) =
        Tame-Kept env watched rest s o (receive-Tame env watched fuel (pos n) Target.internal s)
          k.0 in
      let left = receive-Uninterrupted env fuel (pos n) Target.internal s k.1 in
      let sound : Lands o Sound =
        Lands-map o (Lands-both _ _ o (Lands-both _ _ o safe kept) left) λ u p. (p.0.1, p.1) in
      Lands-both _ _ o sound (receive-Sendable env counts fuel n s)

  pub send_back-Sound :
      (n fuel stale : ℕ) (s : State) → Loaded n s → Lands (send_back fuel stale env s) Sound
  unfolding send_back
  send_back-Sound n fuel stale s k =
      let o = send fuel (read_block stale s.buffer) (to_size s.bytes_received) env s in
      let readable : Readable (read_block stale s.buffer) (to_size s.bytes_received) =
        Sendable-Readable stale n s.buffer s.buffer_size s.bytes_received k.0.0.0 k.1 in
      Lands-both _ _ o
        (Calm-Kept ⊥ env watched rest s o (send-Calm ⊥ env watched fuel _ _ s (inl readable)) k.0.0)
        (send-Uninterrupted env fuel _ _ s k.0.1)

  pub destruct_active-Kept :
      (s : State) → Kept env watched rest s → Lands (destruct_active env s) (Kept env watched rest)
  unfolding destruct_active
  destruct_active-Kept s k = ground (arith, k)

  pub destruct_passive-Kept :
      (s : State) → Kept env watched rest s → Lands (destruct_passive env s) (Kept env watched rest)
  unfolding destruct_passive
  destruct_passive-Kept s k = ground (arith, k)

-- What the servers do with what `Accept` returned.
abbrev pub attend : Op (Unit {0}) → Option SimpleSocket → Op (Unit {0})
attend m accepted = elim accepted [ none ↦ pure tt | some client ↦ do on client m; pure tt ]

module _ (env : Env) (calm : Unsignalled env) (counts : Counts env) (watched : ℤ) (rest : ℕ) where
  pub attend-Kept :
      (m : Op (Unit {0}))
      → ((others : ℕ) (s : State)
          → Sound env calm counts watched others s
          → Lands (m env s) (Kept env watched others))
      → (accepted : Option SimpleSocket) (t : State) → Guest env calm watched rest accepted t
      → Lands (attend m accepted env t) (Kept env watched rest)
  attend-Kept m h none t p = p
  attend-Kept m h (some client) t p =
      let others = held watched t.sock + rest in
      on-Guest env calm watched rest m client t p.0.0
        (h others (record t { sock = client }) ((p.0.1, omega (arith, p.0.2)), p.1))
