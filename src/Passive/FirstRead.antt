-- ===== src/Passive/FirstRead.antt =====
-- The first `Receive` on what `Accept` of src/PassiveSocket.cpp gives.
use clsocket.Base.{
  ℕ, suc, ◌≤◌, ℤ, pos, minus_one, ◌≡◌, ◌≢◌, refl, sym, ap, subst, ◌∙◌, Option, none, some, List,
  ◌∷◌, length, arith,
}
use clsocket.Net.{Errno, Call, Env}
use clsocket.Error.{SocketError, translate_errno, is_interrupted}
use clsocket.Socket.{SocketType, SimpleSocket, State, Ends, Op, on, pure, ◌>>=◌, or_else}
use clsocket.Socket.Steps.{Ends-map, Ends-on, Ends->>=}
use clsocket.Socket.Receive.{Target, receive}
use clsocket.Socket.Receive.Method.{recv_trace, receive_once}
use clsocket.Socket.Receive.Memory.{Sized}
use clsocket.Passive.{accept}
use clsocket.Passive.Accept.{Adopted, accept_connection}

-- Take a connection and read from it: the result, and the object.
abbrev pub accept_and_read : ℕ → ℕ → SimpleSocket → Op (Option (ℤ × SimpleSocket))
accept_and_read fuel n memory = do
  accepted ← accept fuel memory
  elim accepted [
    | none ↦ pure none
    | some client ↦ do read ← on client (receive fuel (pos n) Target.internal); pure (some read)
  ]

-- The calls of `Accept` on this handle, and the one that reads from the new one.
abbrev pub peer_asked : ℤ → List Call → List Call
peer_asked listener cs = Call.getpeername listener ∷ Call.accept listener ∷ cs

abbrev pub first_read : ℤ → ℤ → ℕ → List Call → List Call
first_read listener fd n cs =
    Call.recv fd (pos 0) (pos n) 0 ∷ Call.getsockname listener ∷ peer_asked listener cs

-- A connection comes, its bytes arrive, and the listening socket has no peer.
pub record Arrives (env : Env) (listener fd : ℤ) (n : ℕ) (cs : List Call) : Type 0 where
  pub accepted : (env.reply (Call.accept listener ∷ cs)).ret ≡ fd
  pub open_handle : fd ≢ minus_one
  pub accepted_calmly : (env.reply (Call.accept listener ∷ cs)).errno ≡ none
  pub has_no_peer : (env.reply (peer_asked listener cs)).errno ≡ some Errno.enotconn
  pub named_calmly : (env.reply (Call.getsockname listener ∷ peer_asked listener cs)).errno ≡ none
  pub fits : length (env.reply (first_read listener fd n cs)).bytes ≤ n
  pub read_calmly : (env.reply (first_read listener fd n cs)).errno ≡ none

module _ (env : Env) (fuel n : ℕ) (memory : SimpleSocket) (fd : ℤ) (s : State) where
  -- What was read, and the error that the object has on record.
  abbrev pub Blamed : Option (ℤ × SimpleSocket) → Type 0
  Blamed none = ⊥
  Blamed (some (got, client)) =
      (got ≡ (env.reply (first_read s.socket fd n s.trace)).ret)
      × (client.bytes_received ≡ got)
      × (client.socket_errno ≡ SocketError.notconnected)

  read-Blamed :
      (accepted : Option SimpleSocket) (t : State)
      → Arrives env s.socket fd n s.trace
      → Adopted env s memory accepted t
      → Ends
          (elim accepted as (λ x. Op (Option (ℤ × SimpleSocket))) [
            | none ↦ pure none
            | some client ↦ do
              read ← on client (receive (suc fuel) (pos n) Target.internal)
              pure (some read)
          ]
            env t)
          λ out s'. Blamed out
  unfolding is_interrupted translate_errno
  read-Blamed none t x h = absurd h
  read-Blamed (some client) t x h =
      let u : State = record t { sock = client } in
      let handle : client.socket ≡ fd = h.0 ∙ x.accepted in
      let same : recv_trace n u ≡ first_read s.socket fd n s.trace = rw (handle, h.4, h.11) refl in
      let left : u.errno ≡ Errno.enotconn = h.12 ∙ rw (x.named_calmly, x.has_no_peer) refl in
      let read_errno : (env.reply (recv_trace n u)).errno ≡ none = rw same x.read_calmly in
      let error : or_else (env.reply (recv_trace n u)).errno u.errno ≡ Errno.enotconn =
        rw read_errno left in
      Ends->>= (λ read s'. Blamed (some read)) (λ out s'. Blamed out) env t
        (on client (receive (suc fuel) (pos n) Target.internal)) (λ read. pure (some read))
        (Ends-on (λ read s'. Blamed (some read)) env t client
          (receive (suc fuel) (pos n) Target.internal)
          (Ends-map (receive (suc fuel) (pos n) Target.internal env u)
            (receive_once env fuel n u (subst (λ b. Sized b client.buffer_size) (sym h.3) tt)
              (ground (arith, handle, x.open_handle)) h.1 (rw same x.fits) (rw error refl))
            λ got v p.
              (p.0 ∙ ap (λ cs. (env.reply cs).ret) same, p.2 ∙ sym p.0, p.3 ∙ rw error refl)))
        λ read s' p. p

  -- On a TCP socket, when accept(2) succeeds without touching errno, getpeername(2) on the
  -- listening socket fails with ENOTCONN, and getsockname(2) and the first recv(2) on the new
  -- handle leave errno alone and bring no more bytes than asked for, `accept` gives an object and
  -- its first `receive` returns and stores the result of that recv(2), with the error not
  -- connected.
  pub accept_and_read-Blamed :
      s.socket_type ≡ SocketType.tcp
      → Arrives env s.socket fd n s.trace
      → Ends (accept_and_read (suc fuel) n memory env s) λ out s'. Blamed out
  accept_and_read-Blamed tcp x =
      Ends->>= (Adopted env s memory) (λ out s'. Blamed out) env s (accept (suc fuel) memory)
        (λ accepted. elim accepted [
          | none ↦ pure none
          | some client ↦ do
            read ← on client (receive (suc fuel) (pos n) Target.internal)
            pure (some read)
        ])
        (accept_connection env s memory fuel tcp (λ e. x.open_handle (sym x.accepted ∙ e))
          x.accepted_calmly)
        λ accepted t h. read-Blamed accepted t x h
