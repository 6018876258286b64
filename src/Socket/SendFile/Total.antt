-- ===== src/Socket/SendFile/Total.antt =====
-- `SendFile` of src/SimpleSocket.cpp over any file and any socket.
use clsocket.Base.{
  ℕ, zero, suc, ◌+◌, ◌-◌, ◌*◌, ◌^◌, ◌≤◌, ◌<◌, ℤ, pos, minus_one, ◌+ℤ◌, ◌==ℤ◌, ltb, false, ◌⊎◌, ◌≡◌,
  refl, ap, none, some, List, [], ◌∷◌, inl, inr, Bool-cases, Option, arith,
}
use clsocket.Net.{Call, Env}
use clsocket.Socket.{State, Ends, Op, or_else, pure, translate_socket_error, ◌>>◌}
use clsocket.Socket.Steps.{Ends->>=, Ends-map}
use clsocket.Socket.SendFile.{
  socket_sendfile_blocksize, copy_block, unless_failed, send_file_loop, send_file,
}
use clsocket.Socket.SendFile.Count.{
  block, block_size_lem, test_left, step_left, nothing_left, all_left,
}

-- The bytes that the calls have asked a file for.
abbrev pub asked_bytes : List Call → ℕ
asked_bytes [] = 0
asked_bytes (Call.read fd (pos n) ∷ cs) = n + asked_bytes cs
asked_bytes (_ ∷ cs) = asked_bytes cs

-- The loop has given up, or has come to the count and has asked for all that was left.
abbrev Left : ℕ → ℕ → State → Option ℤ → State → Type 0
Left c m s none s' = asked_bytes s'.trace ≤ m + asked_bytes s.trace
Left c m s (some o) s' = (o ≡ pos c) × (asked_bytes s'.trace ≡ m + asked_bytes s.trace)

-- One block has been asked for, and has gone out if the loop goes on.
abbrev Stepped : ℕ → ℤ → State → Option ℤ → State → Type 0
Stepped n o s none s' = asked_bytes s'.trace ≡ n + asked_bytes s.trace
Stepped n o s (some o') s' = (o' ≡ o +ℤ pos n) × (asked_bytes s'.trace ≡ n + asked_bytes s.trace)

-- What `send_file` gives: -1 and the offset as it was, or the count and the offset behind it.
abbrev pub Reported : ℕ → ℤ → State → ℤ × ℤ → State → Type 0
Reported c offset s result s' =
    ((result ≡ (minus_one, offset)) × (asked_bytes s'.trace ≤ suc c + asked_bytes s.trace))
    ⊎ ((result ≡ (pos c, offset +ℤ pos c)) × (asked_bytes s'.trace ≡ suc c + asked_bytes s.trace))

-- A block and the loop behind it.
Left-more :
    (c m : ℕ) (s s' : State) (r : Option ℤ) (u : State)
    → asked_bytes s'.trace ≡ block m + asked_bytes s.trace
    → Left c (m - block m) s' r u
    → Left c m s r u
Left-more c m s s' none u e q = ground (arith, e, q)
Left-more c m s s' (some o) u e q = (q.0, ground (arith, e, q.1))

module _ (env : Env) (out_fd in_fd : ℤ) where
  copy_block-Stepped :
      (n : ℕ) (o : ℤ) (s : State) → Ends (copy_block out_fd in_fd (pos n) o env s) (Stepped n o s)
  unfolding copy_block
  copy_block-Stepped n o s = ground arith

  -- What follows a block: nothing, or the loop with what is left then.
  after_block :
      (fuel c m : ℕ) (o : ℤ) (s : State)
      → o +ℤ pos m ≡ pos c
      → (r : Option ℤ) (s' : State) → Stepped (block m) o s r s'
      → ((o' : ℤ) (t : State)
          → o' +ℤ pos (m - block m) ≡ pos c
          → Ends (send_file_loop (suc fuel) out_fd in_fd (pos c) o' env t) (Left c (m - block m) t))
      → Ends (unless_failed (send_file_loop (suc fuel) out_fd in_fd (pos c)) r env s') (Left c m s)
  after_block fuel c m o s e none s' p go = ground (arith, p)
  after_block fuel c m o s e (some o') s' p go =
      Ends-map (send_file_loop (suc fuel) out_fd in_fd (pos c) o' env s')
        (go o' s' (rw p.0 (step_left c m o e))) λ r u q. Left-more c m s s' r u p.1 q

  send_file_loop-Left :
      (fuel c m : ℕ) (o : ℤ) (s : State)
      → o +ℤ pos m ≡ pos c
      → m < 2 ^ 31
      → m ≤ fuel * socket_sendfile_blocksize
      → Ends (send_file_loop (suc fuel) out_fd in_fd (pos c) o env s) (Left c m s)
  unfolding send_file_loop
  send_file_loop-Left zero c m o s e small h =
      let none_left : ltb 0 m ≡ false = ground arith in
      ground (arith, test_left c m o e, nothing_left c m o e none_left)
  send_file_loop-Left (suc fuel) c m o s e small h = elim (Bool-cases (ltb 0 m)) [
    | inl more ↦
        rw (test_left c m o e, more, block_size_lem c m o small e)
          (Ends->>= (Stepped (block m) o s) (Left c m s) env s
            (copy_block out_fd in_fd (pos (block m)) o)
            (unless_failed (send_file_loop (suc fuel) out_fd in_fd (pos c)))
            (copy_block-Stepped (block m) o s)
            λ r s' p. after_block fuel c m o s e r s' p λ o' t f.
              send_file_loop-Left fuel c (m - block m) o' t f (ground arith) (ground arith))
    | inr stop ↦ rw (test_left c m o e, stop) (nothing_left c m o e stop, ground arith)
  ]

  -- What `send_file` does with the end of its loop.
  abbrev report : ℤ → Option ℤ → Op (ℤ × ℤ)
  report offset ended = elim ended [
    | none ↦ pure (minus_one, offset)
    | some out_count ↦ do translate_socket_error; pure (out_count, offset +ℤ out_count)
  ]

  report-Reported :
      (c : ℕ) (offset : ℤ) (s : State) (ended : Option ℤ) (t : State)
      → Left c (suc c) s ended t
      → Ends (report offset ended env t) (Reported c offset s)
  report-Reported c offset s none t p = inl (refl, p)
  report-Reported c offset s (some o) t p = inr (ap (λ n. (n, offset +ℤ n)) p.0, p.1)

  -- Whatever the file and the socket reply, `send_file` of c bytes, where c is less than 2 ^ 31 -
  -- 1, ends within c / 8192 + 2 rounds of fuel, in one of two ways: it gives -1 and the offset as
  -- it was, and has asked read(2) for at most c + 1 bytes; or it gives c and an offset c further
  -- on, and has asked read(2) for exactly c + 1.
  pub send_file_total :
      (fuel c : ℕ) (offset : ℤ) (s : State)
      → suc c < 2 ^ 31
      → c < fuel * socket_sendfile_blocksize
      → Ends (send_file (suc fuel) out_fd in_fd offset (pos c) env s) (Reported c offset s)
  unfolding send_file
  send_file_total fuel c offset s small h =
      let r = env.reply (Call.lseek in_fd offset ∷ s.trace) in
      let u : State = record s {
        trace = Call.lseek in_fd offset ∷ s.trace;
        errno = or_else r.errno s.errno;
      } in
      elim (Bool-cases (r.ret ==ℤ minus_one)) [
        | inl failed ↦ rw failed (inl (refl, omega arith))
        | inr sought ↦ rw sought (
            Ends->>= (Left c (suc c) u) (Reported c offset s) env u
              (send_file_loop (suc fuel) out_fd in_fd (pos c) minus_one) (report offset)
              (send_file_loop-Left fuel c (suc c) minus_one u (all_left c) small h)
              λ ended t p. report-Reported c offset s ended t p)
      ]
