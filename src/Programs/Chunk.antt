-- ===== src/Programs/Chunk.antt =====
-- A chunk of bytes on its way through a program of examples/: received, and sent back.
use clsocket.Base.{
  ℕ, zero, suc, ℤ, pos, negsuc, minus_one, ◌==ℤ◌, ◌<◌, ◌≤◌, ◌≡◌, ◌≢◌, refl, sym, ap, subst, ◌∙◌,
  none, some, List, [], ◌∷◌, map, take, length, take-length, true, false, inl, inr, Option-cases,
  arith,
}
use clsocket.Net.{Errno, Call, Bytes, Env}
use clsocket.Error.{translate_errno, is_interrupted}
use clsocket.Socket.{SocketType, State, Buffer, Ends, or_else, is_valid_handle}
use clsocket.Socket.Receive.{Target, receive}
use clsocket.Socket.Receive.Method.{Holds, recv_trace, receive_once}
use clsocket.Socket.Receive.Memory.{IsSized}
use clsocket.Socket.Send.Method.{message, sending, send_ends}
use clsocket.Socket.Send.{send}
use clsocket.Socket.Send.Retry.{Unsent, is_round_interrupted}
use clsocket.Socket.Steps.{Ends-map}
use clsocket.Programs.{read_byte, read_block, to_size, send_back}

-- The bytes that came are read back as they are, whatever stands behind them.
take-read :
    (stale : ℕ) (bytes : Bytes) (block : Buffer)
    → take (length bytes) block ≡ map some bytes
    → take (length bytes) (map (read_byte stale) block) ≡ bytes
take-read stale [] block e = refl
take-read stale (b ∷ bytes) [] e = cc
take-read stale (b ∷ bytes) (x ∷ block) e = ground (arith, take-read stale bytes block)

long_enough : (n : ℕ) (bytes : Bytes) → length (take n bytes) ≡ n → n ≤ length bytes
long_enough zero bytes e = omega arith
long_enough (suc n) [] e = absurd (omega (arith, e))
long_enough (suc n) (b ∷ bytes) e = omega (arith, long_enough n bytes (omega (arith, e)))

-- What has gone out of the bytes that a call of send(2) was given, by its result.
abbrev pub went : ℤ → Bytes → Bytes
went (pos n) bytes = take n bytes
went (negsuc n) bytes = []

pub went-whole : (ret : ℤ) (bytes : Bytes) → ret ≡ pos (length bytes) → went ret bytes ≡ bytes
went-whole ret bytes e = rw e (take-length bytes)

-- A value of errno that does not make a method repeat its call.
abbrev pub IsCalm : Errno → Type 0
IsCalm e = is_interrupted (translate_errno e) ≡ false

-- One chunk comes and goes back: the calls, and what the kernel does.
abbrev pub asked : ℕ → ℤ → List Call → List Call
asked max fd cs = Call.recv fd (pos 0) (pos max) 0 ∷ cs

abbrev pub answered : ℕ → ℤ → Bytes → List Call → List Call
answered max fd chunk cs = Call.send fd chunk ∷ asked max fd cs

pub record Arrival (env : Env) (max : ℕ) (fd : ℤ) (chunk : Bytes) (cs : List Call) : Type 0 where
  pub open_handle : fd ≢ minus_one
  pub some_bytes : 0 < length chunk
  pub fits : length chunk ≤ max
  pub delivered : (env.reply (asked max fd cs)).bytes ≡ chunk
  pub counted : (env.reply (asked max fd cs)).ret ≡ pos (length chunk)
  pub received_calmly : (env.reply (asked max fd cs)).errno ≡ none

pub record Chunk (env : Env) (max : ℕ) (fd : ℤ) (chunk : Bytes) (cs : List Call) : Type 0 where
  pub arrival : Arrival env max fd chunk cs
  pub sent_calmly : (env.reply (answered max fd chunk cs)).errno ≡ none

module _ (env : Env) (fuel stale : ℕ) where
  -- `Send` of what is in the buffer.
  abbrev pub SentBack : Bytes → State → ℤ → State → Type 0
  SentBack chunk s sent s' =
      (s'.trace ≡ Call.send s.socket chunk ∷ s.trace) × Unsent s s' × (s'.errno ≡ s.errno)

  send_block :
      (chunk : Bytes) (block : Buffer) (s : State)
      → is_valid_handle s.sock ≡ true
      → s.socket_type ≡ SocketType.tcp
      → 0 < length chunk
      → take (length chunk) block ≡ map some chunk
      → (env.reply (Call.send s.socket chunk ∷ s.trace)).errno ≡ none
      → IsCalm s.errno
      → Ends
          (send (suc fuel) (some (map (read_byte stale) block)) (length chunk) env s)
          (SentBack chunk s)
  send_block chunk block s valid tcp more holds calm fine =
      let c = Call.send s.socket chunk in
      let sent_chunk : message s.socket_type s.socket s.server_sockaddr
            (map (read_byte stale) block) (length chunk)
          ≡ some c =
        rw tcp (ap (λ b. some (Call.send s.socket b)) (take-read stale chunk block holds)) in
      let there : length chunk ≤ length (map (read_byte stale) block) =
        long_enough (length chunk) (map (read_byte stale) block)
          (ap length (take-read stale chunk block holds)) in
      let uninterrupted : is_round_interrupted env c (sending env s) ≡ false = rw calm fine in
      Ends-map (send (suc fuel) (some (map (read_byte stale) block)) (length chunk) env s)
        (send_ends env c (suc fuel) 0 (length chunk) (map (read_byte stale) block) s sent_chunk
          valid more there (omega arith) uninterrupted)
        λ sent s' p. (p.0, p.3, p.4 ∙ rw calm refl)

  -- `Send` of what is in the buffer.
  pub send_back-Holds :
      (chunk : Bytes) (n : ℕ) (s : State)
      → is_valid_handle s.sock ≡ true
      → s.socket_type ≡ SocketType.tcp
      → s.bytes_received ≡ pos (length chunk)
      → 0 < length chunk
      → Holds chunk n s.buffer
      → (env.reply (Call.send s.socket chunk ∷ s.trace)).errno ≡ none
      → IsCalm s.errno
      → Ends (send_back (suc fuel) stale env s) (SentBack chunk s)
  unfolding send_back
  send_back-Holds chunk n s valid tcp count more holds calm fine = elim (Option-cases s.buffer) [
    | inl e ↦ absurd (rw e at holds)
    | inr (block, e) ↦
        let held : take (length chunk) block ≡ map some chunk = (rw e at holds).0 in
        let pointer : read_block stale s.buffer ≡ some (map (read_byte stale) block) =
          ap (read_block stale) e in
        let size : to_size s.bytes_received ≡ length chunk = ap to_size count in
        subst (λ b. Ends (send (suc fuel) b (to_size s.bytes_received) env s) (SentBack chunk s))
          (sym pointer)
          (subst
            (λ n.
              Ends (send (suc fuel) (some (map (read_byte stale) block)) n env s)
                (SentBack chunk s))
            (sym size) (send_block chunk block s valid tcp more held calm fine))
  ]

  -- The client once its chunk has come.
  abbrev pub Received : ℕ → Bytes → State → ℤ → State → Type 0
  Received max chunk s got s' =
      (got ≡ pos (length chunk))
      × (s'.trace ≡ asked max s.socket s.trace)
      × (s'.bytes_received ≡ pos (length chunk))
      × Holds chunk max s'.buffer
      × (s'.socket ≡ s.socket)
      × (s'.socket_type ≡ SocketType.tcp)
      × (s'.errno ≡ s.errno)
      × (s'.flags ≡ 0)
      × (s'.buffer_size ≡ pos max)

  pub receive-Arrival :
      (max : ℕ) (chunk : Bytes) (s : State)
      → Arrival env max s.socket chunk s.trace
      → s.socket_type ≡ SocketType.tcp
      → IsSized s.sock
      → s.flags ≡ 0
      → IsCalm s.errno
      → Ends (receive (suc fuel) (pos max) Target.internal env s) (Received max chunk s)
  receive-Arrival max chunk s x tcp sized flags fine =
      let t : recv_trace max s ≡ asked max s.socket s.trace =
        ap (λ f. Call.recv s.socket (pos 0) (pos max) f ∷ s.trace) flags in
      let r = env.reply (recv_trace max s) in
      let bytes : r.bytes ≡ chunk = ap (λ cs. (env.reply cs).bytes) t ∙ x.delivered in
      let ret : r.ret ≡ pos (length chunk) = ap (λ cs. (env.reply cs).ret) t ∙ x.counted in
      let calm : r.errno ≡ none = ap (λ cs. (env.reply cs).errno) t ∙ x.received_calmly in
      let valid : is_valid_handle s.sock ≡ true = ground (arith, x.open_handle) in
      let fits : length r.bytes ≤ max = ground (arith, x.fits) in
      let uninterrupted : is_interrupted (translate_errno (or_else r.errno s.errno)) ≡ false =
        rw calm fine in
      let test : (r.ret ==ℤ minus_one) ≡ false = ground arith in
      Ends-map (receive (suc fuel) (pos max) Target.internal env s)
        (receive_once env fuel max s sized valid tcp fits uninterrupted)
        λ got s' p. (
          p.0 ∙ ret,
          p.1 ∙ t,
          p.2 ∙ ret,
          subst (λ b. Holds b max s'.buffer) bytes (rw test at p.4),
          p.5,
          p.6 ∙ tcp,
          p.8 ∙ rw calm refl,
          p.9 ∙ flags,
          p.10,
        )
