-- ===== src/History/Buffers.antt =====
-- The step lemmas of `Receive` (src/SimpleSocket.cpp), part by part: the handle, the calls, the buffer.
use clsocket.Base.{
  ℕ, zero, suc, ℤ, pos, negsuc, Option, none, ◌≡◌, [], ◌∷◌, length-replicate, inl, inr, Bool-cases,
  Option-cases, arith,
}
use clsocket.Net.{Call, Env, Bytes}
use clsocket.Error.{SocketError}
use clsocket.Timer.{initialize, set_start_time}
use clsocket.Socket.{
  SocketType, State, Op, ◌>>=◌, ◌>>◌, gets, or_else, set_socket_error, start_timer, is_valid_handle,
}
use clsocket.Socket.Receive.{
  Target, write_at, store, prepare, recv_round, recv_loop, recvfrom_round, recvfrom_loop,
  while_interrupted, receive_by_type, finish, receive,
}
use clsocket.Socket.Receive.Memory.{IsSized, length-write_at}
use clsocket.History.{After}
use clsocket.History.Calm.{opened, closed}
use clsocket.History.Outcomes.{After-map, After->>=}

-- The handle stays, nothing is opened or closed, and the buffer keeps to its size on record.
abbrev pub Tame : Env → ℤ → State → State → Type 0
Tame env watched s s' =
    (s'.socket ≡ s.socket)
    × (IsSized s.sock → IsSized s'.sock)
    × (opened env watched s'.trace ≡ opened env watched s.trace)
    × (closed env watched s'.trace ≡ closed env watched s.trace)

Tame-trans :
    (env : Env) (watched : ℤ) (s t u : State)
    → Tame env watched s t
    → Tame env watched t u
    → Tame env watched s u
Tame-trans env watched s t u p q = (cc, λ h. q.1 (p.1 h), cc, cc)

Tame->>= :
    {A B : Type 0} (env : Env) (watched : ℤ) (s : State) (m : Op A) (f : A → Op B)
    → After (m env s) (Tame env watched s)
    → ((a : A) (s' : State) → After (f a env s') (Tame env watched s'))
    → After ((m >>= f) env s) (Tame env watched s)
Tame->>= env watched s m f h k =
    After->>= (Tame env watched s) (Tame env watched s) env s m f h
      λ a s' p. After-map (f a env s') (k a s') λ u q. Tame-trans env watched s s' u p q

-- Before the switch: no error, and the clock read.
abbrev pub started : Env → State → State
started env t = record t {
  sock = record t.sock {
    socket_errno = SocketError.success;
    timer = set_start_time (env.clock t.ticks) (initialize t.timer);
  };
  ticks = suc t.ticks;
}

module _ (env : Env) (watched : ℤ) where
  store_null-Tame :
      (offset : ℤ) (bytes : Bytes) (s : State)
      → s.buffer ≡ none
      → After (store Target.internal offset bytes env s) (Tame env watched s)
  unfolding store
  store_null-Tame offset [] s e = ground arith
  store_null-Tame offset (b ∷ bytes) s e = ground arith

  store-Tame :
      (target : Target) (offset : ℤ) (bytes : Bytes) (s : State)
      → After (store target offset bytes env s) (Tame env watched s)
  unfolding store
  store-Tame Target.internal offset bytes s = elim (Option-cases s.buffer) [
    | inl e ↦ store_null-Tame offset bytes s e
    | inr (block, e) ↦ elim (Option-cases (write_at offset bytes block)) [
      | inl w ↦ ground arith
      | inr (written, w) ↦ ground (arith, length-write_at offset bytes block w)
    ]
  ]
  store-Tame Target.caller offset bytes s =
      elim (Option-cases (write_at offset bytes s.caller_buffer)) [
        | inl e ↦ ground arith
        | inr (block, e) ↦ ground arith
      ]

  prepare-Tame :
      (target : Target) (max : ℤ) (s : State)
      → After (prepare target max env s) (Tame env watched s)
  unfolding prepare
  prepare-Tame Target.internal (pos n) s = elim (Option-cases s.buffer) [
    | inl e ↦ ground (arith, length-replicate {0} {A = Option ℕ} n none)
    | inr (block, e) ↦ ground (arith, length-replicate {0} {A = Option ℕ} n none)
  ]
  prepare-Tame Target.internal (negsuc n) s = elim (Option-cases s.buffer) [
    | inl e ↦ ground arith
    | inr (block, e) ↦ ground arith
  ]
  prepare-Tame Target.caller max s = ground arith

  finish-Tame : (s : State) → After (finish env s) (Tame env watched s)
  unfolding finish
  finish-Tame s = ground arith

  recv_round-Tame :
      (target : Target) (max : ℤ) (s : State)
      → After (recv_round target max env s) (Tame env watched s)
  unfolding recv_round
  recv_round-Tame target max s =
      let c = Call.recv s.socket s.bytes_received max s.flags in
      let r = env.reply (c ∷ s.trace) in
      let t : State = record s { trace = c ∷ s.trace; errno = or_else r.errno s.errno } in
      ground (arith, store-Tame target s.bytes_received r.bytes t)

  recvfrom_round-Tame :
      (target : Target) (max : ℤ) (s : State)
      → After (recvfrom_round target max env s) (Tame env watched s)
  unfolding recvfrom_round
  recvfrom_round-Tame target max s =
      let c = Call.recvfrom s.socket max in
      let r = env.reply (c ∷ s.trace) in
      let t : State = record s { trace = c ∷ s.trace; errno = or_else r.errno s.errno } in
      ground (arith, store-Tame target (pos 0) r.bytes t)

  recv_loop-Tame :
      (fuel : ℕ) (target : Target) (max : ℤ) (s : State)
      → After (recv_loop fuel target max env s) (Tame env watched s)
  unfolding recv_loop
  recv_loop-Tame zero target max s = tt
  recv_loop-Tame (suc fuel) target max s =
      Tame->>= env watched s (recv_round target max)
        (λ _. while_interrupted (recv_loop fuel target max)) (recv_round-Tame target max s)
        λ _ t. ground (arith, recv_loop-Tame fuel target max t)

  recvfrom_loop-Tame :
      (fuel : ℕ) (target : Target) (max : ℤ) (s : State)
      → After (recvfrom_loop fuel target max env s) (Tame env watched s)
  unfolding recvfrom_loop
  recvfrom_loop-Tame zero target max s = tt
  recvfrom_loop-Tame (suc fuel) target max s =
      Tame->>= env watched s (recvfrom_round target max)
        (λ _. while_interrupted (recvfrom_loop fuel target max)) (recvfrom_round-Tame target max s)
        λ _ t. ground (arith, recvfrom_loop-Tame fuel target max t)

  receive_by_type-Tame :
      (fuel : ℕ) (type : SocketType) (target : Target) (max : ℤ) (s : State)
      → After (receive_by_type fuel type target max env s) (Tame env watched s)
  unfolding receive_by_type
  receive_by_type-Tame fuel SocketType.tcp target max s = recv_loop-Tame fuel target max s
  receive_by_type-Tame fuel SocketType.udp target max s = recvfrom_loop-Tame fuel target max s
  receive_by_type-Tame fuel _ target max s = ground arith

  pub receive-Tame :
      (fuel : ℕ) (max : ℤ) (target : Target) (s : State)
      → After (receive fuel max target env s) (Tame env watched s)
  unfolding receive
  receive-Tame fuel max target s =
      let s0 : State = record s { sock = record s.sock { bytes_received = pos 0 } } in
      elim (Bool-cases (is_valid_handle s.sock)) [
        | inl valid ↦ rw valid (
            Tame->>= env watched s0 (prepare target max)
              (λ _. do
                set_socket_error SocketError.success
                start_timer
                type ← gets λ t. t.socket_type
                receive_by_type fuel type target max
                finish)
              (prepare-Tame target max s0)
              λ _ t.
                let u = started env t in
                Tame->>= env watched u (receive_by_type fuel t.socket_type target max) (λ _. finish)
                  (receive_by_type-Tame fuel t.socket_type target max u) λ _ v. finish-Tame v)
        | inr invalid ↦ rw invalid (ground arith)
      ]
