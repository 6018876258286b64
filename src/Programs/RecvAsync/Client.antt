-- ===== src/Programs/RecvAsync/Client.antt =====
-- The loop of the client of examples/RecvAsync.cpp, which polls a socket that does not block.
use clsocket.Base.{
  ◌==◌, map, ℕ, zero, suc, ◌+◌, ◌<◌, ◌≤◌, ℤ, pos, ◌≡◌, ◌≢◌, refl, sym, subst, Option, none, some,
  List, [], ◌∷◌, length, true, false, inl, inr, Bool-cases, arith,
}
use clsocket.Net.{Bytes, Env}
use clsocket.Socket.{State, Buffer, Outcome, Op, Ends, fault, returned}
use clsocket.Socket.Steps.{>>=-returned, >>=-fault, after->>=}
use clsocket.Socket.Receive.{Target, receive}
use clsocket.Programs.{copy_data}
use clsocket.Programs.Chunk.{Arrival, Received, receive-Arrival}
use clsocket.Programs.RecvAsync.{print_bytes, client_loop, copy_result, test_packet}
use clsocket.Programs.RecvAsync.Polling.{
  Arrivals, bytes_of, prints, prints-empty, IsPolling, Missed, receive-Misses, Received-IsPolling,
  copy_result-Holds,
}

module _ (env : Env) (fuel : ℕ) where
  -- A round before the last byte has come.
  client_loop-round :
      (R : Outcome (List Buffer) → Type 0) (P : ℤ → State → Type 0) (rounds total : ℕ)
      (printed : List Buffer) (s : State)
      → (total == length test_packet) ≡ false
      → Ends (receive (suc fuel) (pos 4096) Target.internal env s) P
      → ((got : ℤ) (u : State)
          → P got u
          → R (print_bytes (client_loop rounds (suc fuel)) total printed got env u))
      → R (client_loop (suc rounds) (suc fuel) total printed env s)
  unfolding client_loop
  client_loop-round R P rounds total printed s more h k = rw more (
      after->>= P R env s (receive (suc fuel) (pos 4096) Target.internal)
        (λ n. print_bytes (client_loop rounds (suc fuel)) total printed n) h k)

  client_loop-done :
      (rounds total : ℕ) (printed : List Buffer) (s : State)
      → (total == length test_packet) ≡ true
      → client_loop (suc rounds) (suc fuel) total printed env s ≡ returned printed s
  unfolding client_loop
  client_loop-done rounds total printed s done = rw done refl

  print_bytes-chunk :
      (Q : List Buffer → State → Type 0) (again : ℕ → List Buffer → Op (List Buffer)) (total : ℕ)
      (printed : List Buffer) (chunk : Bytes) (s : State) (got : ℤ) (u : State)
      → 0 < length chunk
      → length chunk ≤ 1024
      → Received env fuel 0 4096 chunk s got u
      → Ends (again (total + length chunk) (map some chunk ∷ printed) env u) Q
      → Ends (print_bytes again total printed got env u) Q
  print_bytes-chunk Q again total printed [] s got u h fits p k = absurd (omega (arith, h))
  print_bytes-chunk Q again total printed (b ∷ chunk) s got u h fits p k =
      subst (λ n. Ends (print_bytes again total printed n env u) Q) (sym p.0)
        (rw
          (>>=-returned env u u (map some (b ∷ chunk)) (copy_result (suc (length chunk)))
            (λ result. again (total + suc (length chunk)) (result ∷ printed))
            (copy_result-Holds env fuel (b ∷ chunk) u p.3 fits))
          k)

  copy_result-long : (n : ℕ) (u : State) → 1024 < n → copy_result n env u ≡ fault
  unfolding copy_result copy_data
  copy_result-long n u h = ground (arith, h)

  print_bytes-long :
      (again : ℕ → List Buffer → Op (List Buffer)) (total : ℕ) (printed : List Buffer) (n : ℕ)
      (got : ℤ) (u : State)
      → 1024 < n
      → got ≡ pos n
      → print_bytes again total printed got env u ≡ fault
  print_bytes-long again total printed zero got u h e = absurd (omega (arith, h))
  print_bytes-long again total printed (suc n) got u h e = rw e (
      >>=-fault env u (copy_result (suc n)) (λ result. again (total + suc n) (result ∷ printed))
        (copy_result-long (suc n) u h))

  -- The loop is done once the last byte has come.
  client_loop-finish :
      (rounds : ℕ) (tries : List (Option Bytes)) (total : ℕ) (printed : List Buffer) (s : State)
      → total + bytes_of tries ≡ length test_packet
      → Arrivals env s.socket tries s.trace
      → (total == length test_packet) ≡ true
      → Ends
          (client_loop (suc rounds) (suc fuel) total printed env s)
          λ blocks s'. blocks ≡ prints tries printed
  client_loop-finish rounds tries total printed s e x done =
      rw (client_loop-done rounds total printed s done)
        (sym (prints-empty env s.socket tries s.trace printed x (ground (arith, e, done))))

  -- The polling loop of the client of RecvAsync, on a valid TCP object whose buffer has the size on
  -- record, with no flags and an errno that is not EINTR: whatever number of recv(2) calls fail,
  -- without a byte and for another reason than a signal, before, between and after the chunks, and
  -- however the bytes that are missing of the 11 of the packet are cut into chunks, the loop ends
  -- with one round more than there are calls and has printed the chunks, in order.
  pub client_loop-Arrivals :
      (tries : List (Option Bytes)) (total : ℕ) (printed : List Buffer) (s : State)
      → total + bytes_of tries ≡ length test_packet
      → IsPolling env fuel s
      → Arrivals env s.socket tries s.trace
      → Ends
          (client_loop (suc (length tries)) (suc fuel) total printed env s)
          λ blocks s'. blocks ≡ prints tries printed
  client_loop-Arrivals [] total printed s e ready x =
      client_loop-finish 0 [] total printed s e x (ground (arith, e))
  client_loop-Arrivals (none ∷ tries) total printed s e ready x =
      elim (Bool-cases (total == length test_packet)) [
        | inl done ↦ client_loop-finish (suc (length tries)) (none ∷ tries) total printed s e x done
        | inr more ↦
            client_loop-round (λ o. Ends o λ blocks s'. blocks ≡ prints tries printed)
              (Missed env fuel s) (suc (length tries)) total printed s more
              (receive-Misses env fuel s x.0 ready)
              λ got u p.
                rw p.0 (client_loop-Arrivals tries total printed u e p.3 (rw (p.2, p.1) x.1))
      ]
  client_loop-Arrivals (some chunk ∷ tries) total printed s e ready x =
      elim (Bool-cases (total == length test_packet)) [
        | inl done ↦
            client_loop-finish (suc (length tries)) (some chunk ∷ tries) total printed s e x done
        | inr more ↦
            let Q : List Buffer → State → Type 0 =
              λ blocks s'. blocks ≡ prints tries (map some chunk ∷ printed) in
            client_loop-round (λ o. Ends o Q) (Received env fuel 0 4096 chunk s)
              (suc (length tries)) total printed s more
              (receive-Arrival env fuel 0 4096 chunk s x.0 ready.0.1 ready.0.0 ready.0.2 ready.0.3)
              λ got u p.
                print_bytes-chunk Q (client_loop (suc (length tries)) (suc fuel)) total printed
                  chunk s got u x.0.some_bytes (omega (arith, e)) p
                  (client_loop-Arrivals tries (total + length chunk) (map some chunk ∷ printed) u
                    (omega (arith, e)) (Received-IsPolling env fuel chunk s got u ready p)
                    (rw (p.4, p.1) x.1))
      ]

  -- When a chunk of more than 1024 and at most 4096 bytes comes in a round of the client of
  -- RecvAsync before the packet is complete, the round writes outside the array that the bytes are
  -- copied to.
  pub client_loop_overflow :
      (rounds total : ℕ) (printed : List Buffer) (chunk : Bytes) (s : State)
      → total ≢ length test_packet
      → IsPolling env fuel s
      → Arrival env 4096 s.socket chunk s.trace
      → 1024 < length chunk
      → client_loop (suc rounds) (suc fuel) total printed env s ≡ fault
  client_loop_overflow rounds total printed chunk s ne ready x h =
      client_loop-round (λ o. o ≡ fault) (Received env fuel 0 4096 chunk s) rounds total printed s
        (ground (arith, ne))
        (receive-Arrival env fuel 0 4096 chunk s x ready.0.1 ready.0.0 ready.0.2 ready.0.3)
        λ got u p.
          print_bytes-long (client_loop rounds (suc fuel)) total printed (length chunk) got u h p.0
