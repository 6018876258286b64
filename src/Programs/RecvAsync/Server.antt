-- ===== src/Programs/RecvAsync/Server.antt =====
-- The loop of the server thread of examples/RecvAsync.cpp.
use clsocket.Base.{
  ℕ, suc, ◌+◌, ◌<◌, ℤ, pos, ◌==ℤ◌, ◌+ℤ◌, not, ◌≡◌, refl, sym, ap, subst, ◌∙◌, Option, none, some,
  List, [], ◌∷◌, length, true, false, arith,
}
use clsocket.Net.{CString, Call, Bytes, Env}
use clsocket.Socket.{SocketType, State, Buffer, Op, Ends, is_valid_handle, when, pure, ◌>>=◌, ◌>>◌}
use clsocket.Socket.Steps.{Ends-map, Ends->>=, >>-assoc}
use clsocket.Socket.Receive.{Target, receive}
use clsocket.Socket.Receive.Memory.{Sized, IsSized}
use clsocket.Socket.Receive.Method.{Holds}
use clsocket.Programs.{send_back}
use clsocket.Programs.Chunk.{Chunk, IsCalm, answered, send_back-Holds, Received, receive-Arrival}
use clsocket.Programs.RecvAsync.{ThreadData, echo_loop}

-- The chunks come and go back one after the other.
abbrev pub Chunks : Env → ℕ → ℤ → List Bytes → List Call → Type 0
Chunks env max fd [] cs = Unit {0}
Chunks env max fd (chunk ∷ chunks) cs =
    Chunk env max fd chunk cs × Chunks env max fd chunks (answered max fd chunk cs)

abbrev pub echoed : ℕ → ℤ → List Bytes → List Call → List Call
echoed max fd [] cs = cs
echoed max fd (chunk ∷ chunks) cs = echoed max fd chunks (answered max fd chunk cs)

abbrev pub total_length : List Bytes → ℕ
total_length [] = 0
total_length (chunk ∷ chunks) = length chunk + total_length chunks

-- The client between two rounds.
abbrev pub IsReady : State → Type 0
IsReady s = IsSized s.sock × (s.socket_type ≡ SocketType.tcp) × (s.flags ≡ 0) × IsCalm s.errno

pub Holds-Sized :
    (chunk : Bytes) (n : ℕ) (buffer : Option Buffer) (size : ℤ)
    → Holds chunk n buffer
    → size ≡ pos n
    → Sized buffer size
Holds-Sized chunk n none size h e = absurd h
Holds-Sized chunk n (some block) size h e = e ∙ ap pos (sym h.1)

sum_not_zero : (total n : ℕ) (got : ℤ) → 0 < n → got ≡ pos n → (pos total +ℤ got ==ℤ pos 0) ≡ false
unfolding ◌+ℤ◌
sum_not_zero total n got h e = ground arith

add_pos : (a b : ℕ) → pos a +ℤ pos b ≡ pos (a + b)
unfolding ◌+ℤ◌
add_pos a b = ground arith

-- The client once the loop has ended.
abbrev pub Drained : ℕ → List Bytes → State → State → Type 0
Drained max chunks s v =
    (v.trace ≡ echoed max s.socket chunks s.trace) × (v.socket ≡ s.socket) × IsReady v

-- What the thread is told: where to listen, how much to ask for, and how much there is.
abbrev pub thread_data : CString → ℕ → ℕ → ℕ → ThreadData
thread_data addr port max total = record {
  server_addr = addr;
  port = port;
  bytes_to_receive = pos max;
  total_payload_size = pos total;
}

module _ (env : Env) (fuel stale max : ℕ) where
  -- One round, as the program has it.
  abbrev round : ℤ → (ℤ → Op (Unit {0})) → Op (Unit {0})
  round total again = do
    n ← receive (suc fuel) (pos max) Target.internal
    when (not (total +ℤ n ==ℤ pos 0)) (do send_back (suc fuel) stale; pure tt)
    again (total +ℤ n)

  -- The client after a round.
  abbrev Echoed : Bytes → State → State → Type 0
  Echoed chunk s u =
      (u.trace ≡ answered max s.socket chunk s.trace) × (u.socket ≡ s.socket) × IsReady u

  send_back-Echoed :
      (chunk : Bytes) (s : State) (got : ℤ) (t : State)
      → Chunk env max s.socket chunk s.trace
      → IsCalm s.errno
      → Received env fuel stale max chunk s got t
      → Ends (send_back (suc fuel) stale env t) λ n u. Echoed chunk s u
  send_back-Echoed chunk s got t x fine p =
      let valid : is_valid_handle t.sock ≡ true = ground (arith, p.4, x.arrival.open_handle) in
      let calm : (env.reply (Call.send t.socket chunk ∷ t.trace)).errno ≡ none =
        rw (p.4, p.1) x.sent_calmly in
      Ends-map (send_back (suc fuel) stale env t)
        (send_back-Holds env fuel stale chunk max t valid p.5 p.2 x.arrival.some_bytes p.3 calm
          (rw p.6 fine))
        λ n u q. (
          q.0 ∙ cc,
          q.1.0 ∙ p.4,
          (
            Holds-Sized chunk max u.buffer u.buffer_size (rw q.1.3 p.3) (q.1.4 ∙ p.8),
            q.1.1 ∙ p.5,
            q.1.2 ∙ p.7,
            rw (q.2, p.6) fine,
          ),
        )

  -- A round that brings a chunk hands over to the next one.
  round-Echoed :
      (Q : State → Type 0) (chunk : Bytes) (s : State) (total : ℕ) (again : ℤ → Op (Unit {0}))
      → Chunk env max s.socket chunk s.trace
      → IsReady s
      → ((u : State)
          → Echoed chunk s u
          → Ends (again (pos total +ℤ pos (length chunk)) env u) λ z v. Q v)
      → Ends (round (pos total) again env s) λ z v. Q v
  round-Echoed Q chunk s total again x ready k =
      Ends->>= (Received env fuel stale max chunk s) (λ z v. Q v) env s
        (receive (suc fuel) (pos max) Target.internal)
        (λ n. do
          when (not (pos total +ℤ n ==ℤ pos 0)) (do send_back (suc fuel) stale; pure tt)
          again (pos total +ℤ n))
        (receive-Arrival env fuel stale max chunk s x.arrival ready.1 ready.0 ready.2 ready.3)
        λ got t p.
          let more : (pos total +ℤ got ==ℤ pos 0) ≡ false =
            sum_not_zero total (length chunk) got x.arrival.some_bytes p.0 in
          rw more (
            >>-assoc (λ z v. Q v) env t (send_back (suc fuel) stale) (pure tt)
              (again (pos total +ℤ got))
              (Ends->>= (λ n u. Echoed chunk s u) (λ z v. Q v) env t (send_back (suc fuel) stale)
                (λ n. pure tt >> again (pos total +ℤ got))
                (send_back-Echoed chunk s got t x ready.3 p)
                λ n u e.
                  subst (λ g. Ends (again (pos total +ℤ g) env u) λ z v. Q v) (sym p.0) (k u e)))

  -- The loop of the server thread of RecvAsync, on a TCP object whose buffer has the size on
  -- record, with no flags and an errno that is not EINTR: when the payload comes in chunks on a
  -- valid handle, each of at least one byte and no more than is asked for, whose lengths add up to
  -- what is missing of the payload, and the calls leave errno alone, the loop ends with one round
  -- more than there are chunks, and its calls are one recv(2) and one send(2) of the same bytes for
  -- each chunk, in order.
  pub echo_loop-Chunks :
      (addr : CString) (port : ℕ) (chunks : List Bytes) (s : State) (total size : ℕ)
      → total + total_length chunks ≡ size
      → IsReady s
      → Chunks env max s.socket chunks s.trace
      → Ends
          (echo_loop
            (suc (length chunks))
            (suc fuel)
            stale
            (thread_data addr port max size)
            (pos total)
            env
            s)
          λ z v. Drained max chunks s v
  unfolding echo_loop
  echo_loop-Chunks addr port [] s total size e ready x = ground (arith, e, ready)
  echo_loop-Chunks addr port (chunk ∷ chunks) s total size e ready x =
      let payload = thread_data addr port max size in
      let unfinished : (pos total ==ℤ pos size) ≡ false =
        ground (arith, e, x.0.arrival.some_bytes) in
      let again = echo_loop (suc (length chunks)) (suc fuel) stale payload in
      rw unfinished (
        round-Echoed (Drained max (chunk ∷ chunks) s) chunk s total again x.0 ready λ u p.
          subst (λ t. Ends (again t env u) λ z v. Drained max (chunk ∷ chunks) s v)
            (sym (add_pos total (length chunk)))
            (Ends-map (again (pos (total + length chunk)) env u)
              (echo_loop-Chunks addr port chunks u (total + length chunk) size (omega (arith, e))
                p.2 (rw (p.1, p.0) x.1))
              λ z v q. (q.0 ∙ rw (p.1, p.0) refl, q.1 ∙ p.1, q.2)))
