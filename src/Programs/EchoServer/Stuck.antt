-- ===== src/Programs/EchoServer/Stuck.antt =====
-- `main` of examples/EchoServer.cpp when no connection can be accepted.
use clsocket.Base.{
  ℕ, zero, suc, ℤ, minus_one, true, false, ◌≡◌, ◌≢◌, refl, ◌∙◌, none, some, List, ◌∷◌, arith,
}
use clsocket.Net.{Errno, Call, Env}
use clsocket.Error.{is_interrupted, is_success, translate_errno}
use clsocket.Socket.{SocketType, SimpleSocket, State, Ends, on, is_valid_handle, pure, ◌>>◌}
use clsocket.Socket.Steps.{Ends->>=, Ends-map}
use clsocket.Passive.{accept}
use clsocket.Passive.Accept.{accept_failed}
use clsocket.Passive.Retry.{waited}
use clsocket.Programs.Listening.{Listens, ready_trace}
use clsocket.Programs.Steps.{Spends, Spends-map, Spends->>=}
use clsocket.Programs.EchoServer.{loopback, answer, serve_client, serve_loop, echo_server}
use clsocket.Programs.EchoServer.Main.{main-Ready}

-- Each accept(2) on the listener fails for this reason, which is no signal.
pub record NoneAccepted (env : Env) (fd : ℤ) (why : Errno) : Type 0 where
  pub fails : (cs : List Call) → (env.reply (Call.accept fd ∷ cs)).ret ≡ minus_one
  pub reason : (cs : List Call) → (env.reply (Call.accept fd ∷ cs)).errno ≡ some why
  pub nobody : (cs : List Call) → (env.reply (Call.accept fd ∷ cs)).addr ≡ none
  pub is_calm : is_interrupted (translate_errno why) ≡ false
  pub is_error : is_success (translate_errno why) ≡ false

module _ (env : Env) (fd : ℤ) (why : Errno) (x : NoneAccepted env fd why) (fuel stale : ℕ)
    (memory : SimpleSocket) where
  -- The listener after a round.
  abbrev Refused : State → State → Type 0
  Refused s t =
      (t.trace ≡ Call.accept fd ∷ s.trace) × (t.socket ≡ fd) × (t.socket_type ≡ SocketType.tcp)

  serve_client-Refused :
      (s : State)
      → s.socket ≡ fd
      → s.socket_type ≡ SocketType.tcp
      → Ends (serve_client (suc fuel) stale memory env s) λ z t. Refused s t
  unfolding serve_client
  serve_client-Refused s handle tcp =
      Ends->>= (λ client t. (client ≡ none) × Refused s t) (λ z t. Refused s t) env s
        (accept (suc fuel) memory)
        (λ accepted. elim accepted [
          | none ↦ pure tt
          | some client ↦ do on client (answer (suc fuel) stale); pure tt
        ])
        (Ends-map (accept (suc fuel) memory env s)
          (accept_failed env s memory fuel why tcp (rw handle (x.fails s.trace))
            (rw handle (x.reason s.trace)) (rw handle (x.nobody s.trace)) x.is_calm x.is_error)
          λ client t q. (q.0, (q.1 ∙ rw handle refl, q.2 ∙ handle, q.5 ∙ tcp)))
        λ client t q. rw q.0 q.1

  serve_loop-Refused :
      (rounds : ℕ) (s : State)
      → fd ≢ minus_one
      → s.socket ≡ fd
      → s.socket_type ≡ SocketType.tcp
      → Spends
          (serve_loop rounds (suc fuel) stale memory env s)
          λ t. t.trace ≡ waited (Call.accept fd) rounds s.trace
  unfolding serve_loop
  serve_loop-Refused zero s valid handle tcp = refl
  serve_loop-Refused (suc rounds) s valid handle tcp =
      let going : is_valid_handle s.sock ≡ true = ground (arith, valid, handle) in
      let Q : State → Type 0 = λ t. t.trace ≡ waited (Call.accept fd) (suc rounds) s.trace in
      rw going (
        Spends->>= (λ z t. Refused s t) Q env s (serve_client (suc fuel) stale memory)
          (λ z. serve_loop rounds (suc fuel) stale memory) (serve_client-Refused s handle tcp)
          λ z t q.
            Spends-map (serve_loop rounds (suc fuel) stale memory env t)
              (serve_loop-Refused rounds t valid q.1 q.2) λ u e. e ∙ rw q.0 refl)

  -- `main` of the echo server on its TCP object, where the kernel gives it a handle, binds it and
  -- listens on it, does not end with any number of rounds if every accept(2) on that handle fails
  -- and reports no address, with an errno that translates to neither interrupted nor success: each
  -- round makes one accept(2) and nothing else.
  pub echo_server_stuck :
      (rounds : ℕ) (s : State)
      → s.socket_type ≡ SocketType.tcp
      → Listens env s fd loopback 6789
      → Spends
          (echo_server rounds (suc fuel) stale memory env s)
          λ t. t.trace ≡ waited (Call.accept fd) rounds (ready_trace env s fd loopback 6789)
  echo_server_stuck rounds s tcp y =
      main-Ready env s fd
        (λ t. t.trace ≡ waited (Call.accept fd) rounds (ready_trace env s fd loopback 6789)) rounds
        (suc fuel) stale memory tcp y
        λ t p.
          Spends-map (serve_loop rounds (suc fuel) stale memory env t)
            (serve_loop-Refused rounds t y.is_open p.1 p.2) λ u e. e ∙ rw p.0 refl
