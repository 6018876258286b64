-- ===== src/History/Reading.antt =====
-- `Receive` of src/SimpleSocket.cpp as a whole: where it writes.
use clsocket.Base.{ℕ, pos, false, ◌≡◌, refl, sym, ◌∙◌, ◌∷◌, inl, inr, Bool-cases, arith}
use clsocket.Net.{Call, Env}
use clsocket.Error.{SocketError, translate_errno, is_interrupted}
use clsocket.Socket.{
  SocketType, State, ◌>>=◌, ◌>>◌, gets, or_else, set_socket_error, start_timer, is_valid_handle,
}
use clsocket.Socket.Receive.{Target, prepare, receive_by_type, finish, receive}
use clsocket.Socket.Receive.Memory.{IsSized, length-prepared, prepare_lem}
use clsocket.History.{Lands}
use clsocket.History.Buffers.{started}
use clsocket.History.Outcomes.{Lands->>=}
use clsocket.History.Writes.{
  Supplies, Modest, room_after, IsReady, recv_loop-Lands, recvfrom_loop-Lands,
}

module _ (env : Env) where
  -- The switch starts: the memory is ready, and the calls and errno are those before.
  abbrev Prepared : Target → ℕ → State → State → Type 0
  Prepared target n s u =
      IsReady env target n u
      × (u.socket ≡ s.socket)
      × (u.flags ≡ s.flags)
      × (u.socket_type ≡ s.socket_type)
      × (u.trace ≡ s.trace)
      × (u.errno ≡ s.errno)

  prepare-IsReady :
      (target : Target) (n : ℕ) (s : State)
      → IsSized s.sock
      → Supplies target n s.caller_buffer
      → s.bytes_received ≡ pos 0
      → Lands (prepare target (pos n) env s) (Prepared target n s)
  unfolding prepare
  prepare-IsReady Target.internal n s sized room z =
      rw (prepare_lem env s n s.buffer refl sized) (ground (arith, z, length-prepared s.buffer n))
  prepare-IsReady Target.caller n s sized room z = ground (arith, z, room)

  receive_by_type-Lands :
      (fuel : ℕ) (type : SocketType) (target : Target) (n : ℕ) (s : State)
      → Modest env
      → IsReady env target n s
      → (type ≡ SocketType.tcp
          → is_interrupted (
              translate_errno (
                or_else
                  (env.reply (Call.recv s.socket (pos 0) (pos n) s.flags ∷ s.trace)).errno
                  s.errno))
            ≡ false)
      → Lands (receive_by_type fuel type target (pos n) env s) λ u. Unit {0}
  unfolding receive_by_type
  receive_by_type-Lands fuel SocketType.tcp target n s modest ready calm =
      recv_loop-Lands env fuel target n s modest ready (calm refl)
  receive_by_type-Lands fuel SocketType.udp target n s modest ready calm =
      recvfrom_loop-Lands env fuel target n s modest ready.0
  receive_by_type-Lands fuel _ target n s modest ready calm = tt

  finish-Lands : (s : State) → Lands (finish env s) λ u. Unit {0}
  unfolding finish
  finish-Lands s = ground arith

  -- The first recv(2) of a TCP socket leaves no interruption.
  abbrev pub IsUninterrupted : ℕ → State → Type 0
  IsUninterrupted n s =
      s.socket_type ≡ SocketType.tcp
      → is_interrupted (
          translate_errno (
            or_else (env.reply (Call.recv s.socket (pos 0) (pos n) s.flags ∷ s.trace)).errno
              s.errno))
        ≡ false

  switch-Lands :
      (fuel n : ℕ) (target : Target) (s t : State)
      → Modest env
      → IsUninterrupted n s
      → Prepared target n s t
      → Lands
          ((receive_by_type fuel t.socket_type target (pos n) >> finish) env (started env t))
          λ u. Unit {0}
  switch-Lands fuel n target s t modest calm p =
      let u = started env t in
      Lands->>= (λ v. Unit {0}) (λ v. Unit {0}) env u
        (receive_by_type fuel t.socket_type target (pos n)) (λ _. finish)
        (receive_by_type-Lands fuel t.socket_type target n u modest
          (room_after target n t u refl refl p.0.0, p.0.1)
          λ e. rw (p.1, p.2, p.4, p.5) (calm (sym p.3 ∙ e)))
        λ _ v _. finish-Lands v

  pub receive-Lands :
      (fuel n : ℕ) (target : Target) (s : State)
      → Modest env
      → IsSized s.sock
      → Supplies target n s.caller_buffer
      → IsUninterrupted n s
      → Lands (receive fuel (pos n) target env s) λ u. Unit {0}
  unfolding receive
  receive-Lands fuel n target s modest sized room calm =
      let s0 : State = record s { sock = record s.sock { bytes_received = pos 0 } } in
      elim (Bool-cases (is_valid_handle s.sock)) [
        | inl valid ↦ rw valid (
            Lands->>= (Prepared target n s) (λ u. Unit {0}) env s0 (prepare target (pos n))
              (λ _. do
                set_socket_error SocketError.success
                start_timer
                type ← gets λ t. t.socket_type
                receive_by_type fuel type target (pos n)
                finish)
              (prepare-IsReady target n s0 sized room refl)
              λ _ t p. switch-Lands fuel n target s t modest calm p)
        | inr invalid ↦ rw invalid tt
      ]
