-- ===== src/History/Writes.antt =====
-- Where `Receive` of src/SimpleSocket.cpp writes, step by step.
use clsocket.Base.{
  ℕ, zero, suc, ◌≤◌, ℤ, pos, false, ◌≡◌, refl, sym, ap, Option, none, some, List, ◌∷◌, ◌++◌, map,
  drop, length, inl, inr, Option-cases, arith,
}
use clsocket.Net.{Call, Env, Bytes, Reply}
use clsocket.Error.{translate_errno, is_interrupted}
use clsocket.Socket.{State, Buffer, ◌>>◌, or_else, modify, translate_socket_error}
use clsocket.Socket.Receive.{
  Target, note_sender, write_at, store, recv_round, recv_loop, recvfrom_round, recvfrom_loop,
  while_interrupted,
}
use clsocket.Socket.Receive.Memory.{length-write_at, write_at_start}
use clsocket.History.{Lands}
use clsocket.History.Outcomes.{Lands-map, Lands->>=}

-- The memory that is written has room for so many bytes.
abbrev pub Room : ℕ → Option Buffer → Type 0
Room n none = ⊥
Room n (some block) = n ≤ length block

abbrev pub HasRoom : Target → ℕ → State → Type 0
HasRoom Target.internal n s = Room n s.buffer
HasRoom Target.caller n s = n ≤ length s.caller_buffer

-- What `Receive` is given: memory of the caller's has that room, and the internal buffer is made.
abbrev pub Supplies : Target → ℕ → Buffer → Type 0
Supplies Target.internal n memory = Unit {0}
Supplies Target.caller n memory = n ≤ length memory

-- The kernel gives no more bytes than it is asked for.
pub record Modest (env : Env) : Type 0 where
  pub recv_fits :
      (fd offset : ℤ) (n flags : ℕ) (cs : List Call)
      → length (env.reply (Call.recv fd offset (pos n) flags ∷ cs)).bytes ≤ n
  pub recvfrom_fits :
      (fd : ℤ) (n : ℕ) (cs : List Call)
      → length (env.reply (Call.recvfrom fd (pos n) ∷ cs)).bytes ≤ n

-- A block with room takes the bytes at its start, and keeps its length.
write_at-Room :
    (offset : ℤ) (bytes : Bytes) (block : Buffer)
    → offset ≡ pos 0
    → length bytes ≤ length block
    → (written : Buffer) × (write_at offset bytes block ≡ some written)
      × (length written ≡ length block)
write_at-Room offset bytes block z h =
    let e : write_at offset bytes block ≡ some (map some bytes ++ drop (length bytes) block) =
      rw z (write_at_start bytes block h) in
    (map some bytes ++ drop (length bytes) block, e, length-write_at offset bytes block e)

-- The memory is the same where nothing has been written.
pub room_after :
    (target : Target) (n : ℕ) (s t : State)
    → t.buffer ≡ s.buffer
    → t.caller_buffer ≡ s.caller_buffer
    → HasRoom target n s
    → HasRoom target n t
room_after Target.internal n s t e f h = rw e h
room_after Target.caller n s t e f h = rw f h

module _ (env : Env) where
  store-HasRoom :
      (target : Target) (n : ℕ) (offset : ℤ) (bytes : Bytes) (s : State)
      → HasRoom target n s
      → offset ≡ pos 0
      → length bytes ≤ n
      → Lands (store target offset bytes env s) λ u. HasRoom target n u × (u.errno ≡ s.errno)
  unfolding store
  store-HasRoom Target.internal n offset bytes s room z fits = elim (Option-cases s.buffer) [
    | inl e ↦ absurd (rw e at room)
    | inr (block, e) ↦
        let wide : n ≤ length block = rw e at room in
        let (written, w, l) = write_at-Room offset bytes block z (omega (arith, wide, fits)) in
        ground (arith, e, w, l, wide)
  ]
  store-HasRoom Target.caller n offset bytes s room z fits =
      let (written, w, l) =
        write_at-Room offset bytes s.caller_buffer z (omega (arith, room, fits)) in
      ground (arith, w, l, room)

  -- The memory is ready, and nothing has been received.
  abbrev pub IsReady : Target → ℕ → State → Type 0
  IsReady target n s = HasRoom target n s × (s.bytes_received ≡ pos 0)

  recv_round-HasRoom :
      (target : Target) (n : ℕ) (s : State)
      → Modest env
      → IsReady target n s
      → let r = env.reply (Call.recv s.socket (pos 0) (pos n) s.flags ∷ s.trace) in
        Lands
          (recv_round target (pos n) env s)
          λ u. u.socket_errno ≡ translate_errno (or_else r.errno s.errno)
  unfolding recv_round
  recv_round-HasRoom target n s modest ready =
      let c = Call.recv s.socket s.bytes_received (pos n) s.flags in
      let r = env.reply (c ∷ s.trace) in
      let t : State = record s { trace = c ∷ s.trace; errno = or_else r.errno s.errno } in
      Lands->>= (λ u. HasRoom target n u × (u.errno ≡ t.errno))
        (λ u.
          u.socket_errno
          ≡ translate_errno (
              or_else (env.reply (Call.recv s.socket (pos 0) (pos n) s.flags ∷ s.trace)).errno
                s.errno))
        env t (store target s.bytes_received r.bytes)
        (λ _. modify (λ u. record u { bytes_received = r.ret }) >> translate_socket_error)
        (store-HasRoom target n s.bytes_received r.bytes t
          (room_after target n s t refl refl ready.0) ready.1
          (modest.recv_fits s.socket s.bytes_received n s.flags s.trace))
        λ _ u p. rw (sym ready.1) (ap translate_errno p.1)

  recvfrom_round-HasRoom :
      (target : Target) (n : ℕ) (s : State)
      → Modest env
      → HasRoom target n s
      → Lands (recvfrom_round target (pos n) env s) (HasRoom target n)
  unfolding recvfrom_round
  recvfrom_round-HasRoom target n s modest room =
      let c = Call.recvfrom s.socket (pos n) in
      let r = env.reply (c ∷ s.trace) in
      let t : State = record s { trace = c ∷ s.trace; errno = or_else r.errno s.errno } in
      Lands->>= (λ u. HasRoom target n u × (u.errno ≡ t.errno)) (HasRoom target n) env t
        (store target (pos 0) r.bytes)
        (λ _.
          modify (note_sender r)
          >> (modify (λ u. record u { bytes_received = r.ret }) >> translate_socket_error))
        (store-HasRoom target n (pos 0) r.bytes t (room_after target n s t refl refl room) refl
          (modest.recvfrom_fits s.socket n s.trace))
        λ _ u p. noted target r u p.0
    where
      noted :
          (target : Target) (r : Reply) (u : State)
          → HasRoom target n u
          → Lands
              ((modify (note_sender r)
                  >> (modify (λ u. record u { bytes_received = r.ret }) >> translate_socket_error))
                env u)
              (HasRoom target n)
      noted Target.internal r u h = ground (arith, h)
      noted Target.caller r u h = ground (arith, h)

  pub recvfrom_loop-Lands :
      (fuel : ℕ) (target : Target) (n : ℕ) (s : State)
      → Modest env
      → HasRoom target n s
      → Lands (recvfrom_loop fuel target (pos n) env s) λ u. Unit {0}
  unfolding recvfrom_loop
  recvfrom_loop-Lands zero target n s modest room = tt
  recvfrom_loop-Lands (suc fuel) target n s modest room =
      Lands->>= (HasRoom target n) (λ u. Unit {0}) env s (recvfrom_round target (pos n))
        (λ _. while_interrupted (recvfrom_loop fuel target (pos n)))
        (recvfrom_round-HasRoom target n s modest room)
        λ _ t h. ground (arith, recvfrom_loop-Lands fuel target n t modest h)

  pub recv_loop-Lands :
      (fuel : ℕ) (target : Target) (n : ℕ) (s : State)
      → Modest env
      → IsReady target n s
      → let r = env.reply (Call.recv s.socket (pos 0) (pos n) s.flags ∷ s.trace) in
        is_interrupted (translate_errno (or_else r.errno s.errno)) ≡ false
        → Lands (recv_loop fuel target (pos n) env s) λ u. Unit {0}
  unfolding recv_loop
  recv_loop-Lands zero target n s modest ready calm = tt
  recv_loop-Lands (suc fuel) target n s modest ready calm =
      Lands->>= (λ u. is_interrupted u.socket_errno ≡ false) (λ u. Unit {0}) env s
        (recv_round target (pos n)) (λ _. while_interrupted (recv_loop fuel target (pos n)))
        (Lands-map (recv_round target (pos n) env s) (recv_round-HasRoom target n s modest ready)
          λ u e. rw e calm)
        λ _ t h. rw h tt
