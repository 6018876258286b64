-- ===== src/Programs/Errno.antt =====
-- After `Receive` and `Send` of src/SimpleSocket.cpp errno is no interruption: their loops go on until
-- it is none.
use clsocket.Base.{
  ℕ, zero, suc, ℤ, pos, negsuc, Bool, true, false, ◌&&◌, ◌≡◌, refl, ◌∷◌, inl, inr, Bool-cases,
  arith,
}
use clsocket.Net.{Call, Env}
use clsocket.Error.{SocketError, translate_errno}
use clsocket.Socket.{
  SocketType, State, within, or_else, gets, modify, set_socket_error, start_timer, end_timer,
  translate_socket_error, is_valid_handle, ◌>>=◌, ◌>>◌,
}
use clsocket.Socket.Receive.{
  Target, note_sender, store, prepare, recv_round, recv_loop, recvfrom_round, recvfrom_loop,
  while_interrupted, receive_by_type, finish, receive,
}
use clsocket.Socket.Send.{Pointer, send_loop, send_guarded, send_by_type, send}
use clsocket.Socket.Send.Method.{cleared}
use clsocket.History.{After}
use clsocket.History.Buffers.{started}
use clsocket.History.Outcomes.{After-any, After->>=}
use clsocket.Programs.Chunk.{IsCalm}

module _ (env : Env) where
  -- The error is that of errno.
  abbrev Translated : State → Type 0
  Translated u = u.socket_errno ≡ translate_errno u.errno

  abbrev Uninterrupted : State → Type 0
  Uninterrupted u = IsCalm u.errno

  recv_round-Translated :
      (target : Target) (max : ℤ) (s : State) → After (recv_round target max env s) Translated
  unfolding recv_round
  recv_round-Translated target max s =
      let c = Call.recv s.socket s.bytes_received max s.flags in
      let r = env.reply (c ∷ s.trace) in
      let t : State = record s { trace = c ∷ s.trace; errno = or_else r.errno s.errno } in
      After->>= (λ u. Unit {0}) Translated env t (store target s.bytes_received r.bytes)
        (λ _. (modify λ v. record v { bytes_received = r.ret }) >> translate_socket_error)
        (After-any (store target s.bytes_received r.bytes env t)) λ _ u _. refl

  recv_loop-Uninterrupted :
      (fuel : ℕ) (target : Target) (max : ℤ) (s : State)
      → After (recv_loop fuel target max env s) Uninterrupted
  unfolding recv_loop
  recv_loop-Uninterrupted zero target max s = tt
  recv_loop-Uninterrupted (suc fuel) target max s =
      After->>= Translated Uninterrupted env s (recv_round target max)
        (λ _. while_interrupted (recv_loop fuel target max)) (recv_round-Translated target max s)
        λ _ t p. ground (arith, p, recv_loop-Uninterrupted fuel target max t)

  recvfrom_round-Translated :
      (target : Target) (max : ℤ) (s : State) → After (recvfrom_round target max env s) Translated
  unfolding recvfrom_round
  recvfrom_round-Translated target max s =
      let c = Call.recvfrom s.socket max in
      let r = env.reply (c ∷ s.trace) in
      let t : State = record s { trace = c ∷ s.trace; errno = or_else r.errno s.errno } in
      After->>= (λ u. Unit {0}) Translated env t (store target (pos 0) r.bytes)
        (λ _.
          modify (note_sender r)
          >> (modify λ v. record v { bytes_received = r.ret })
          >> translate_socket_error)
        (After-any (store target (pos 0) r.bytes env t)) λ _ u _. refl

  recvfrom_loop-Uninterrupted :
      (fuel : ℕ) (target : Target) (max : ℤ) (s : State)
      → After (recvfrom_loop fuel target max env s) Uninterrupted
  unfolding recvfrom_loop
  recvfrom_loop-Uninterrupted zero target max s = tt
  recvfrom_loop-Uninterrupted (suc fuel) target max s =
      After->>= Translated Uninterrupted env s (recvfrom_round target max)
        (λ _. while_interrupted (recvfrom_loop fuel target max))
        (recvfrom_round-Translated target max s)
        λ _ t p. ground (arith, p, recvfrom_loop-Uninterrupted fuel target max t)

  receive_by_type-Uninterrupted :
      (fuel : ℕ) (type : SocketType) (target : Target) (max : ℤ) (s : State)
      → IsCalm s.errno
      → After (receive_by_type fuel type target max env s) Uninterrupted
  unfolding receive_by_type
  receive_by_type-Uninterrupted fuel SocketType.tcp target max s h =
      recv_loop-Uninterrupted fuel target max s
  receive_by_type-Uninterrupted fuel SocketType.udp target max s h =
      recvfrom_loop-Uninterrupted fuel target max s
  receive_by_type-Uninterrupted fuel _ target max s h = h

  prepare-Uninterrupted :
      (target : Target) (max : ℤ) (s : State)
      → IsCalm s.errno
      → After (prepare target max env s) Uninterrupted
  unfolding prepare
  prepare-Uninterrupted Target.internal (pos n) s h = ground (arith, h)
  prepare-Uninterrupted Target.internal (negsuc n) s h = ground (arith, h)
  prepare-Uninterrupted Target.caller max s h = h

  finish-Uninterrupted : (s : State) → IsCalm s.errno → After (finish env s) Uninterrupted
  unfolding finish
  finish-Uninterrupted s h = ground (arith, h)

  pub receive-Uninterrupted :
      (fuel : ℕ) (max : ℤ) (target : Target) (s : State)
      → IsCalm s.errno
      → After (receive fuel max target env s) Uninterrupted
  unfolding receive
  receive-Uninterrupted fuel max target s h =
      let s0 : State = record s { sock = record s.sock { bytes_received = pos 0 } } in
      elim (Bool-cases (is_valid_handle s.sock)) [
        | inl valid ↦ rw valid (
            After->>= Uninterrupted Uninterrupted env s0 (prepare target max)
              (λ _. do
                set_socket_error SocketError.success
                start_timer
                type ← gets λ t. t.socket_type
                receive_by_type fuel type target max
                finish)
              (prepare-Uninterrupted target max s0 h)
              λ _ t p.
                let u = started env t in
                After->>= Uninterrupted Uninterrupted env u
                  (receive_by_type fuel t.socket_type target max) (λ _. finish)
                  (receive_by_type-Uninterrupted fuel t.socket_type target max u p)
                  λ _ v. finish-Uninterrupted v)
        | inr invalid ↦ rw invalid h
      ]

  send_loop-Uninterrupted :
      (fuel : ℕ) (c : Call) (s : State) → After (send_loop fuel c env s) Uninterrupted
  unfolding send_loop
  send_loop-Uninterrupted zero c s = tt
  send_loop-Uninterrupted (suc fuel) c s =
      let r = env.reply (c ∷ s.trace) in
      let e = or_else r.errno s.errno in
      let t : State = record s {
        sock = record s.sock { bytes_sent = r.ret; socket_errno = translate_errno e };
        trace = c ∷ s.trace;
        errno = e;
      } in
      ground (arith, send_loop-Uninterrupted fuel c t)

  within-Uninterrupted :
      (there : Bool) (s : State) → IsCalm s.errno → After (within there env s) Uninterrupted
  within-Uninterrupted true s h = h
  within-Uninterrupted false s h = tt

  send_guarded-Uninterrupted :
      (fuel : ℕ) (given there : Bool) (c : Call) (s : State)
      → IsCalm s.errno
      → After (send_guarded fuel given there c env s) Uninterrupted
  unfolding send_guarded
  send_guarded-Uninterrupted fuel given there c s h =
      elim (Bool-cases (is_valid_handle s.sock && given)) [
        | inl going ↦ rw going (
            After->>= Uninterrupted Uninterrupted env s (within there)
              (λ _. do start_timer; send_loop fuel c; end_timer) (within-Uninterrupted there s h)
              λ _ v k.
                After->>= Uninterrupted Uninterrupted env v start_timer
                  (λ _. send_loop fuel c >> end_timer) k
                  λ _ t p.
                    After->>= Uninterrupted Uninterrupted env t (send_loop fuel c) (λ _. end_timer)
                      (send_loop-Uninterrupted fuel c t) λ _ u q. q)
        | inr refused ↦ rw refused h
      ]

  send_by_type-Uninterrupted :
      (fuel : ℕ) (type : SocketType) (buf : Pointer) (n : ℕ) (s : State)
      → IsCalm s.errno
      → After (send_by_type fuel type buf n env s) Uninterrupted
  unfolding send_by_type
  send_by_type-Uninterrupted fuel SocketType.tcp buf n s h =
      send_guarded-Uninterrupted fuel _ _ _ s h
  send_by_type-Uninterrupted fuel SocketType.udp buf n s h =
      send_guarded-Uninterrupted fuel _ _ _ s h
  send_by_type-Uninterrupted fuel _ buf n s h = h

  pub send-Uninterrupted :
      (fuel : ℕ) (buf : Pointer) (n : ℕ) (s : State)
      → IsCalm s.errno
      → After (send fuel buf n env s) Uninterrupted
  unfolding send
  send-Uninterrupted fuel buf n s h =
      After->>= Uninterrupted Uninterrupted env (cleared s) (send_by_type fuel s.socket_type buf n)
        (λ _. gets λ t. t.bytes_sent)
        (send_by_type-Uninterrupted fuel s.socket_type buf n (cleared s) h) λ _ u p. p
