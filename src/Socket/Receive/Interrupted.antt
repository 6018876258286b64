-- ===== src/Socket/Receive/Interrupted.antt =====
-- The TCP loop of `Receive` of src/SimpleSocket.cpp once recv(2) has been interrupted.
use clsocket.Base.{
  ℕ, suc, ℤ, pos, negsuc, minus_one, true, ◌≡◌, refl, ap, ◌∙◌, inl, inr, Option-cases, some, List,
  [], ◌∷◌, arith,
}
use clsocket.Net.{Errno, Call, Env, Bytes}
use clsocket.Error.{SocketError, translate_errno, is_interrupted}
use clsocket.Socket.{SocketType, State, returned, fault, is_valid_handle, or_else}
use clsocket.Socket.Steps.{>>-fault}
use clsocket.Socket.Receive.{
  Target, write_at, store, recv_round, recv_loop, receive_by_type, finish, receive,
}
use clsocket.Socket.Receive.Memory.{IsSized}
use clsocket.Socket.Receive.Method.{receiving, receive-switch, recv_trace}

store_nothing :
    (env : Env) (target : Target) (offset : ℤ) (u : State)
    → store target offset [] env u ≡ returned tt u
unfolding store write_at
store_nothing env Target.internal offset u = elim (Option-cases u.buffer) [
  | inl e ↦ ground arith
  | inr (block, e) ↦ ground arith
]
store_nothing env Target.caller offset u = ground arith

store_before_start :
    (env : Env) (target : Target) (i b : ℕ) (bytes : Bytes) (u : State)
    → store target (negsuc i) (b ∷ bytes) env u ≡ fault
unfolding store write_at
store_before_start env Target.internal i b bytes u = elim (Option-cases u.buffer) [
  | inl e ↦ ground arith
  | inr (block, e) ↦ ground arith
]
store_before_start env Target.caller i b bytes u = ground arith

-- The state after a round that a signal interrupted before any byte came.
abbrev interrupted_round : Call → State → State
interrupted_round c u = record u {
  sock = record u.sock { bytes_received = minus_one; socket_errno = SocketError.interrupted };
  trace = c ∷ u.trace;
  errno = Errno.eintr;
}

module _ (env : Env) (target : Target) (max : ℤ) (u : State) where
  abbrev round_call : Call
  round_call = Call.recv u.socket u.bytes_received max u.flags

  recv_round_interrupted :
      (env.reply (round_call ∷ u.trace)).ret ≡ minus_one
      → (env.reply (round_call ∷ u.trace)).errno ≡ some Errno.eintr
      → (env.reply (round_call ∷ u.trace)).bytes ≡ []
      → recv_round target max env u ≡ returned tt (interrupted_round round_call u)
  unfolding recv_round translate_errno
  recv_round_interrupted failed eintr empty =
      let u' : State = record u { trace = round_call ∷ u.trace; errno = Errno.eintr } in
      ground (arith, store_nothing env target u.bytes_received u')

  recv_round_fault :
      (b : ℕ) (bytes : Bytes)
      → u.bytes_received ≡ minus_one
      → (env.reply (round_call ∷ u.trace)).bytes ≡ b ∷ bytes
      → recv_round target max env u ≡ fault
  unfolding recv_round
  recv_round_fault b bytes z e =
      let r = env.reply (round_call ∷ u.trace) in
      let u' : State = record u { trace = round_call ∷ u.trace; errno = or_else r.errno u.errno } in
      ground (arith, store_before_start env target 0 b bytes u')

recv_loop_fault :
    (env : Env) (target : Target) (max : ℤ) (fuel b : ℕ) (bytes : Bytes) (u : State)
    → let c = Call.recv u.socket u.bytes_received max u.flags in
      let again = Call.recv u.socket minus_one max u.flags in
      (env.reply (c ∷ u.trace)).ret ≡ minus_one
      → (env.reply (c ∷ u.trace)).errno ≡ some Errno.eintr
      → (env.reply (c ∷ u.trace)).bytes ≡ []
      → (env.reply (again ∷ c ∷ u.trace)).bytes ≡ b ∷ bytes
      → recv_loop (suc (suc fuel)) target max env u ≡ fault
unfolding recv_loop is_interrupted
recv_loop_fault env target max fuel b bytes u failed eintr empty e =
    let v = interrupted_round (round_call env target max u) u in
    ground (
      arith,
      recv_round_interrupted env target max u failed eintr empty,
      recv_round_fault env target max v b bytes refl e,
    )

module _ (env : Env) (fuel n b : ℕ) (bytes : Bytes) (s : State) where
  abbrev again_trace : List Call
  again_trace = Call.recv s.socket minus_one (pos n) s.flags ∷ recv_trace n s

  -- On a valid TCP socket whose buffer has the size it records, if the first recv(2) is interrupted
  -- before a byte came and the second one, made with the count at -1, delivers a byte, then
  -- `receive` into the internal buffer writes outside the block.
  pub receive_interrupted_fault :
      IsSized s.sock
      → is_valid_handle s.sock ≡ true
      → s.socket_type ≡ SocketType.tcp
      → (env.reply (recv_trace n s)).ret ≡ minus_one
      → (env.reply (recv_trace n s)).errno ≡ some Errno.eintr
      → (env.reply (recv_trace n s)).bytes ≡ []
      → (env.reply again_trace).bytes ≡ b ∷ bytes
      → receive (suc (suc fuel)) (pos n) Target.internal env s ≡ fault
  unfolding receive_by_type
  receive_interrupted_fault sized valid tcp failed eintr empty e =
      let u = receiving env n s in
      let looped =
        ap (λ t. receive_by_type (suc (suc fuel)) t Target.internal (pos n) env u) tcp
        ∙ recv_loop_fault env Target.internal (pos n) fuel b bytes u failed eintr empty e in
      receive-switch env (suc (suc fuel)) n s sized valid
      ∙ >>-fault env u (receive_by_type (suc (suc fuel)) s.socket_type Target.internal (pos n))
          finish looped
