-- ===== src/Socket/SendFile/Count.antt =====
-- How many bytes `SendFile` of src/SimpleSocket.cpp copies, and what it reports.
use clsocket.Base.{
  ℕ, zero, suc, ◌+◌, ◌-◌, ◌*◌, ◌≤◌, ◌<◌, ℤ, pos, minus_one, ◌+ℤ◌, ◌-ℤ◌, ◌^◌, as_int32, to_uint32,
  ltb_ℤ, ltb, false, ◌≡◌, ◌≢◌, ap, some, List, [], ◌∷◌, length, if◌then◌else◌, inl, inr, Bool-cases,
  Option, arith,
}
use clsocket.Net.{Call, Env, Bytes}
use clsocket.Socket.{State, Ends, or_else}
use clsocket.Socket.Steps.{Ends->>=, Ends-map}
use clsocket.Socket.SendFile.{
  socket_sendfile_blocksize, block_size, copy_block, unless_failed, send_file_loop, send_file,
}

-- The bytes that the calls have sent from a file.
abbrev sent_bytes : List Call → ℕ
sent_bytes [] = 0
sent_bytes (Call.send_block fd bytes ∷ cs) = length bytes + sent_bytes cs
sent_bytes (_ ∷ cs) = sent_bytes cs

-- A file that does not end and a peer that takes all: every read and every send is full.
record CopiesAll (env : Env) : Type 0 where
  full_read :
      (fd : ℤ) (n : ℕ) (cs : List Call)
      → ((env.reply (Call.read fd (pos n) ∷ cs)).ret ≡ pos n)
        × (length (env.reply (Call.read fd (pos n) ∷ cs)).bytes ≡ n)
  full_send :
      (fd : ℤ) (bytes : Bytes) (cs : List Call)
      → (env.reply (Call.send_block fd bytes ∷ cs)).ret ≡ pos (length bytes)
  seeks : (fd offset : ℤ) (cs : List Call) → (env.reply (Call.lseek fd offset ∷ cs)).ret ≢ minus_one

abbrev pub block : ℕ → ℕ
block m = if ltb m socket_sendfile_blocksize then m else socket_sendfile_blocksize

pub block_size_lem :
    (c m : ℕ) (o : ℤ) → m < 2 ^ 31 → o +ℤ pos m ≡ pos c → block_size (pos c) o ≡ pos (block m)
unfolding block_size ◌+ℤ◌ ◌-ℤ◌ as_int32 to_uint32
block_size_lem c m o small e =
    let left : pos c -ℤ o ≡ pos m = ground arith in rw left (ground arith)

pub test_left : (c m : ℕ) (o : ℤ) → o +ℤ pos m ≡ pos c → ltb_ℤ o (pos c) ≡ ltb 0 m
unfolding ◌+ℤ◌
test_left c m o e = ground arith

pub step_left :
    (c m : ℕ) (o : ℤ) → o +ℤ pos m ≡ pos c → (o +ℤ pos (block m)) +ℤ pos (m - block m) ≡ pos c
unfolding ◌+ℤ◌
step_left c m o e = ground arith

pub nothing_left : (c m : ℕ) (o : ℤ) → o +ℤ pos m ≡ pos c → ltb 0 m ≡ false → o ≡ pos c
unfolding ◌+ℤ◌
nothing_left c m o e h = ground arith

pub all_left : (c : ℕ) → minus_one +ℤ pos (suc c) ≡ pos c
unfolding ◌+ℤ◌
all_left c = ground arith

-- The loop has come to the count, and has sent so many bytes more.
abbrev Copied : ℕ → ℕ → State → Option ℤ → State → Type 0
Copied c m s r s' = (r ≡ some (pos c)) × (sent_bytes s'.trace ≡ m + sent_bytes s.trace)

-- One block has gone out.
abbrev Sent : ℕ → ℤ → State → Option ℤ → State → Type 0
Sent n o s r s' = (r ≡ some (o +ℤ pos n)) × (sent_bytes s'.trace ≡ n + sent_bytes s.trace)

module _ (env : Env) (all : CopiesAll env) (out_fd in_fd : ℤ) where
  copy_block_lem :
      (n : ℕ) (o : ℤ) (s : State) → Ends (copy_block out_fd in_fd (pos n) o env s) (Sent n o s)
  unfolding copy_block
  copy_block_lem n o s =
      let cs = Call.read in_fd (pos n) ∷ s.trace in
      ground (arith, all.full_read in_fd n s.trace, all.full_send out_fd (env.reply cs).bytes cs)

  send_file_loop_lem :
      (fuel c m : ℕ) (o : ℤ) (s : State)
      → o +ℤ pos m ≡ pos c
      → m < 2 ^ 31
      → m ≤ fuel * socket_sendfile_blocksize
      → Ends (send_file_loop (suc fuel) out_fd in_fd (pos c) o env s) (Copied c m s)
  unfolding send_file_loop
  send_file_loop_lem zero c m o s e small h =
      let none_left : ltb 0 m ≡ false = ground arith in
      ground (arith, test_left c m o e, nothing_left c m o e none_left)
  send_file_loop_lem (suc fuel) c m o s e small h = elim (Bool-cases (ltb 0 m)) [
    | inl more ↦
        rw (test_left c m o e, more, block_size_lem c m o small e)
          (Ends->>= (Sent (block m) o s) (Copied c m s) env s
            (copy_block out_fd in_fd (pos (block m)) o)
            (unless_failed (send_file_loop (suc fuel) out_fd in_fd (pos c)))
            (copy_block_lem (block m) o s)
            λ r s' p. rw p.0 (
              Ends-map {P = Copied c (m - block m) s'} {Q = Copied c m s}
                (send_file_loop (suc fuel) out_fd in_fd (pos c) (o +ℤ pos (block m)) env s')
                (send_file_loop_lem fuel c (m - block m) (o +ℤ pos (block m)) s' (step_left c m o e)
                  (ground arith) (ground arith))
                λ r' u q. (q.0, ground (arith, p.1, q.1))))
    | inr stop ↦ rw (test_left c m o e, stop) (ap some (nothing_left c m o e stop), ground arith)
  ]

  -- If lseek(2) succeeds and every read(2) and send(2) takes the whole of the length it is given,
  -- `send_file` of c bytes, where c is less than 2 ^ 31 - 1, ends within c / 8192 + 2 rounds of fuel, reports c bytes and an offset c
  -- further on, and has sent c + 1 bytes.
  send_file_copies :
      (fuel c : ℕ) (offset : ℤ) (s : State)
      → suc c < 2 ^ 31
      → c < fuel * socket_sendfile_blocksize
      → Ends (send_file (suc fuel) out_fd in_fd offset (pos c) env s) λ result s'.
        (result ≡ (pos c, offset +ℤ pos c)) × (sent_bytes s'.trace ≡ suc c + sent_bytes s.trace)
  unfolding send_file
  send_file_copies fuel c offset s small h =
      let r = env.reply (Call.lseek in_fd offset ∷ s.trace) in
      let u : State = record s {
        trace = Call.lseek in_fd offset ∷ s.trace;
        errno = or_else r.errno s.errno;
      } in
      ground (
        arith,
        all.seeks in_fd offset s.trace,
        send_file_loop_lem fuel c (suc c) minus_one u (all_left c) small h,
      )
