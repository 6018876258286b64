-- ===== src/Programs/Counts.antt =====
-- What `Receive` of src/SimpleSocket.cpp leaves for a `Send` of the same bytes: no count beyond its
-- buffer.
use clsocket.Base.{
  ℕ, zero, suc, ◌≤◌, ℤ, pos, negsuc, minus_one, ◌≡◌, ◌⊎◌, refl, List, [], ◌∷◌, Option, Option-cases,
  none, some, length, map, inl, inr, Bool-cases, arith,
}
use clsocket.Net.{Call, Env, Bytes}
use clsocket.Error.{SocketError}
use clsocket.Socket.{
  SocketType, State, Buffer, or_else, gets, modify, set_socket_error, start_timer,
  translate_socket_error, is_valid_handle, ◌>>=◌, ◌>>◌,
}
use clsocket.Socket.Receive.{
  Target, note_sender, write_at, store, prepare, recv_round, recv_loop, recvfrom_round,
  recvfrom_loop, while_interrupted, receive_by_type, finish, receive,
}
use clsocket.Socket.Receive.Memory.{Sized}
use clsocket.History.{After}
use clsocket.History.Buffers.{started}
use clsocket.History.Moves.{Readable}
use clsocket.History.Outcomes.{After->>=}
use clsocket.History.Writes.{Modest}
use clsocket.Programs.{read_byte, read_block, to_size}

-- A result of recv(2) for so many bytes: a count of no more, or -1.
abbrev pub IsCount : ℕ → ℤ → Type 0
IsCount n (pos k) = k ≤ n
IsCount n (negsuc k) = k ≡ 0

-- The kernel gives no more bytes than it is asked for, and says so.
pub record Counts (env : Env) : Type 0 where
  pub modest : Modest env
  pub recv_counted :
      (fd offset : ℤ) (n flags : ℕ) (cs : List Call)
      → IsCount n (env.reply (Call.recv fd offset (pos n) flags ∷ cs)).ret
  pub recvfrom_counted :
      (fd : ℤ) (n : ℕ) (cs : List Call) → IsCount n (env.reply (Call.recvfrom fd (pos n) ∷ cs)).ret

length-read : (stale : ℕ) (block : Buffer) → length (map (read_byte stale) block) ≡ length block
length-read stale [] = refl
length-read stale (b ∷ block) = omega (arith, length-read stale block)

-- The count on record is one for the size on record.
abbrev Counted : ℕ → State → Type 0
Counted n u = (u.buffer_size ≡ pos n) × IsCount n u.bytes_received

-- After `Receive`: nothing has come, or the buffer is gone, or it has the count.
abbrev pub Sendable : ℕ → State → Type 0
Sendable n u =
    (u.bytes_received ≡ pos 0) ⊎ (Counted n u × (u.bytes_received ≡ minus_one → u.buffer ≡ none))

-- Then `Send` of the buffer and the count reads nothing that is not there.
pub Sendable-Readable :
    (stale n : ℕ) (buffer : Option Buffer) (size count : ℤ)
    → Sized buffer size
    → (count ≡ pos 0) ⊎ (((size ≡ pos n) × IsCount n count) × (count ≡ minus_one → buffer ≡ none))
    → Readable (read_block stale buffer) (to_size count)
Sendable-Readable stale n none size count sized h = tt
Sendable-Readable stale n (some block) size (pos k) sized h =
    ground (arith, sized, h, length-read stale block)
Sendable-Readable stale n (some block) size (negsuc k) sized h = ground (arith, h)

module _ (env : Env) (counts : Counts env) where
  null-Counted :
      (n : ℕ) (offset : ℤ) (bytes : Bytes) (s : State)
      → s.buffer ≡ none
      → s.buffer_size ≡ pos n
      → After (store Target.internal offset bytes env s) λ u. u.buffer_size ≡ pos n
  unfolding store
  null-Counted n offset [] s e h = ground arith
  null-Counted n offset (b ∷ bytes) s e h = ground arith

  store-Counted :
      (n : ℕ) (offset : ℤ) (bytes : Bytes) (s : State)
      → s.buffer_size ≡ pos n
      → After (store Target.internal offset bytes env s) λ u. u.buffer_size ≡ pos n
  unfolding store
  store-Counted n offset bytes s h = elim (Option-cases s.buffer) [
    | inl e ↦ null-Counted n offset bytes s e h
    | inr (block, e) ↦ elim (Option-cases (write_at offset bytes block)) [
      | inl w ↦ ground arith
      | inr (written, w) ↦ ground (arith, h)
    ]
  ]

  recv_round-Counted :
      (n : ℕ) (s : State)
      → s.buffer_size ≡ pos n
      → After (recv_round Target.internal (pos n) env s) (Counted n)
  unfolding recv_round
  recv_round-Counted n s h =
      let c = Call.recv s.socket s.bytes_received (pos n) s.flags in
      let r = env.reply (c ∷ s.trace) in
      let t : State = record s { trace = c ∷ s.trace; errno = or_else r.errno s.errno } in
      After->>= (λ u. u.buffer_size ≡ pos n) (Counted n) env t
        (store Target.internal s.bytes_received r.bytes)
        (λ _. (modify λ v. record v { bytes_received = r.ret }) >> translate_socket_error)
        (store-Counted n s.bytes_received r.bytes t h)
        λ _ u p. (p, counts.recv_counted s.socket s.bytes_received n s.flags s.trace)

  recv_loop-Counted :
      (fuel n : ℕ) (s : State)
      → s.buffer_size ≡ pos n
      → After (recv_loop fuel Target.internal (pos n) env s) (Counted n)
  unfolding recv_loop
  recv_loop-Counted zero n s h = tt
  recv_loop-Counted (suc fuel) n s h =
      After->>= (Counted n) (Counted n) env s (recv_round Target.internal (pos n))
        (λ _. while_interrupted (recv_loop fuel Target.internal (pos n))) (recv_round-Counted n s h)
        λ _ t p. ground (arith, p, recv_loop-Counted fuel n t p.0)

  recvfrom_round-Counted :
      (n : ℕ) (s : State)
      → s.buffer_size ≡ pos n
      → After (recvfrom_round Target.internal (pos n) env s) (Counted n)
  unfolding recvfrom_round
  recvfrom_round-Counted n s h =
      let c = Call.recvfrom s.socket (pos n) in
      let r = env.reply (c ∷ s.trace) in
      let t : State = record s { trace = c ∷ s.trace; errno = or_else r.errno s.errno } in
      After->>= (λ u. u.buffer_size ≡ pos n) (Counted n) env t
        (store Target.internal (pos 0) r.bytes)
        (λ _.
          modify (note_sender r)
          >> (modify λ v. record v { bytes_received = r.ret })
          >> translate_socket_error)
        (store-Counted n (pos 0) r.bytes t h)
        λ _ u p. ground (arith, p, counts.recvfrom_counted s.socket n s.trace)

  recvfrom_loop-Counted :
      (fuel n : ℕ) (s : State)
      → s.buffer_size ≡ pos n
      → After (recvfrom_loop fuel Target.internal (pos n) env s) (Counted n)
  unfolding recvfrom_loop
  recvfrom_loop-Counted zero n s h = tt
  recvfrom_loop-Counted (suc fuel) n s h =
      After->>= (Counted n) (Counted n) env s (recvfrom_round Target.internal (pos n))
        (λ _. while_interrupted (recvfrom_loop fuel Target.internal (pos n)))
        (recvfrom_round-Counted n s h)
        λ _ t p. ground (arith, p, recvfrom_loop-Counted fuel n t p.0)

  receive_by_type-Counted :
      (fuel n : ℕ) (type : SocketType) (s : State)
      → Counted n s
      → After (receive_by_type fuel type Target.internal (pos n) env s) (Counted n)
  unfolding receive_by_type
  receive_by_type-Counted fuel n SocketType.tcp s h = recv_loop-Counted fuel n s h.0
  receive_by_type-Counted fuel n SocketType.udp s h = recvfrom_loop-Counted fuel n s h.0
  receive_by_type-Counted fuel n _ s h = h

  prepare-Counted :
      (n : ℕ) (s : State)
      → s.bytes_received ≡ pos 0
      → After (prepare Target.internal (pos n) env s) (Counted n)
  unfolding prepare
  prepare-Counted n s h = ground (arith, h)

  finish-Sendable : (n : ℕ) (s : State) → Counted n s → After (finish env s) (Sendable n)
  unfolding finish
  finish-Sendable n s h = ground (arith, h)

  pub receive-Sendable :
      (fuel n : ℕ) (s : State) → After (receive fuel (pos n) Target.internal env s) (Sendable n)
  unfolding receive
  receive-Sendable fuel n s =
      let s0 : State = record s { sock = record s.sock { bytes_received = pos 0 } } in
      elim (Bool-cases (is_valid_handle s.sock)) [
        | inl valid ↦ rw valid (
            After->>= (Counted n) (Sendable n) env s0 (prepare Target.internal (pos n))
              (λ _. do
                set_socket_error SocketError.success
                start_timer
                type ← gets λ t. t.socket_type
                receive_by_type fuel type Target.internal (pos n)
                finish)
              (prepare-Counted n s0 refl)
              λ _ t p.
                let u = started env t in
                After->>= (Counted n) (Sendable n) env u
                  (receive_by_type fuel t.socket_type Target.internal (pos n)) (λ _. finish)
                  (receive_by_type-Counted fuel n t.socket_type u p) λ _ v. finish-Sendable n v)
        | inr invalid ↦ rw invalid (inl refl)
      ]
