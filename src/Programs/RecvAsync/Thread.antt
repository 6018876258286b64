-- ===== src/Programs/RecvAsync/Thread.antt =====
-- `CreateTCPEchoServer` of examples/RecvAsync.cpp, from its first call to its last.
use clsocket.Base.{
  ℕ, suc, ℤ, pos, minus_one, true, ◌≡◌, ◌≢◌, refl, sym, subst, ◌∙◌, Option, none, some, List, ◌∷◌,
  length, arith,
}
use clsocket.Net.{Errno, CString, Call, Bytes, Env}
use clsocket.Socket.{SocketType, SimpleSocket, State, Op, Ends, on, or_else, pure, ◌>>=◌, ◌>>◌}
use clsocket.Socket.Steps.{Ends-map, Ends-on, Ends->>=}
use clsocket.Socket.Lifecycle.{initialize, close}
use clsocket.Socket.Receive.Memory.{Sized}
use clsocket.Active.{destruct_active}
use clsocket.Passive.{listen, accept, destruct_passive}
use clsocket.Passive.Accept.{Adopted, accept_connection}
use clsocket.Programs.Chunk.{IsCalm}
use clsocket.Programs.EchoServer.Session.{taken}
use clsocket.Programs.Listening.{
  Listens, ready_trace, Initialized, Ready, initialize-Initialized, listen-Ready,
}
use clsocket.Programs.RecvAsync.{echo_loop, echo_client, create_tcp_echo_server}
use clsocket.Programs.RecvAsync.Server.{
  Chunks, echoed, total_length, IsReady, Drained, thread_data, echo_loop-Chunks,
}

-- The calls for the client: its connection, its chunks, and its end.
abbrev pub served : ℕ → ℤ → ℤ → List Bytes → List Call → List Call
served max listener fd chunks cs = Call.close fd ∷ echoed max fd chunks (taken listener cs)

-- The kernel hands over a client, which sends its payload in these chunks.
pub record Client (env : Env) (max : ℕ) (listener fd : ℤ) (chunks : List Bytes) (cs : List Call)
    : Type 0 where
  pub connected : (env.reply (Call.accept listener ∷ cs)).ret ≡ fd
  pub open_handle : fd ≢ minus_one
  pub accepted_calmly : (env.reply (Call.accept listener ∷ cs)).errno ≡ none
  pub named_calmly : IsCalm (
      or_else (env.reply (taken listener cs)).errno (
        or_else
          (env.reply (Call.getpeername listener ∷ Call.accept listener ∷ cs)).errno
          Errno.exit_success))
  pub sends : Chunks env max fd chunks (taken listener cs)
  pub closes : (env.reply (served max listener fd chunks cs)).ret ≢ minus_one
  pub listener_closes :
      (env.reply (Call.close listener ∷ served max listener fd chunks cs)).ret ≢ minus_one

module _ (env : Env) (fuel stale max : ℕ) (addr : CString) (port : ℕ) (chunks : List Bytes) where
  -- The thread's part for its client.
  abbrev attended : Op (Unit {0})
  attended =
      echo_client (suc (length chunks)) (suc fuel) stale
        (thread_data addr port max (total_length chunks))

  -- `delete` of the client closes it.
  destruct-Drained :
      (s v : State)
      → s.socket ≢ minus_one
      → (env.reply (Call.close s.socket ∷ echoed max s.socket chunks s.trace)).ret ≢ minus_one
      → Drained max chunks s v
      → Ends
          (destruct_active env v)
          λ z w. w.trace ≡ Call.close s.socket ∷ echoed max s.socket chunks s.trace
  unfolding destruct_active
  destruct-Drained s v valid closes p = ground (arith, p.0, p.1, valid, closes)

  echo_client-Chunks :
      (s : State)
      → IsReady s
      → s.socket ≢ minus_one
      → Chunks env max s.socket chunks s.trace
      → (env.reply (Call.close s.socket ∷ echoed max s.socket chunks s.trace)).ret ≢ minus_one
      → Ends
          (attended env s)
          λ z w. w.trace ≡ Call.close s.socket ∷ echoed max s.socket chunks s.trace
  unfolding echo_client
  echo_client-Chunks s ready valid x closes =
      let loop =
        echo_loop (suc (length chunks)) (suc fuel) stale
          (thread_data addr port max (total_length chunks)) (pos 0) in
      Ends->>= (λ z v. Drained max chunks s v)
        (λ z w. w.trace ≡ Call.close s.socket ∷ echoed max s.socket chunks s.trace) env s loop
        (λ z. destruct_active)
        (echo_loop-Chunks env fuel stale max addr port chunks s 0 (total_length chunks)
          (omega arith) ready x)
        λ z v p. destruct-Drained s v valid closes p

  -- The listener after its client.
  abbrev Served : ℤ → State → State → Type 0
  Served fd s t = (t.trace ≡ served max s.socket fd chunks s.trace) × (t.socket ≡ s.socket)

  -- What the thread does with what `Accept` returned.
  abbrev attend : Option SimpleSocket → Op (Unit {0})
  attend accepted = elim accepted [ none ↦ pure tt | some client ↦ do on client attended; pure tt ]

  attend-Served :
      (memory : SimpleSocket) (fd : ℤ) (s : State) (accepted : Option SimpleSocket) (t : State)
      → Client env max s.socket fd chunks s.trace
      → Adopted env s memory accepted t
      → Ends (attend accepted env t) λ z w. Served fd s w
  attend-Served memory fd s none t x h = absurd h
  attend-Served memory fd s (some client) t x h =
      let u : State = record t { sock = client } in
      let handle : client.socket ≡ fd = h.0 ∙ x.connected in
      let calm : IsCalm t.errno = rw h.12 x.named_calmly in
      let ready : IsReady u =
        (subst (λ b. Sized b client.buffer_size) (sym h.3) tt, h.1, h.4, calm) in
      Ends->>= (λ z w. Served fd s w) (λ z w. Served fd s w) env t (on client attended)
        (λ z. pure tt)
        (Ends-on (λ z w. Served fd s w) env t client attended
          (Ends-map (attended env u)
            (echo_client-Chunks u ready (λ e. x.open_handle (sym handle ∙ e))
              (rw (handle, h.11) x.sends) (rw (handle, h.11) x.closes))
            λ z w e. (e ∙ rw (handle, h.11) refl, h.8)))
        λ z w p. p

  -- The thread closes its listener, and the destructor then has nothing to close.
  close-Served :
      (fd : ℤ) (s t : State)
      → s.socket ≢ minus_one
      → Client env max s.socket fd chunks s.trace
      → Served fd s t
      → Ends
          ((close >> destruct_passive) env t)
          λ z w. w.trace ≡ Call.close s.socket ∷ served max s.socket fd chunks s.trace
  unfolding close destruct_passive
  close-Served fd s t valid x p = ground (arith, p, valid, x.listener_closes)

  -- The thread once it listens.
  listening-Served :
      (memory : SimpleSocket) (fd : ℤ) (s : State)
      → s.socket ≢ minus_one
      → s.socket_type ≡ SocketType.tcp
      → Client env max s.socket fd chunks s.trace
      → Ends
          ((do accepted ← accept (suc fuel) memory; attend accepted; close; destruct_passive) env s)
          λ z w. w.trace ≡ Call.close s.socket ∷ served max s.socket fd chunks s.trace
  listening-Served memory fd s valid tcp x =
      let Q : Unit {0} → State → Type 0 =
        λ z w. w.trace ≡ Call.close s.socket ∷ served max s.socket fd chunks s.trace in
      Ends->>= (Adopted env s memory) Q env s (accept (suc fuel) memory)
        (λ accepted. attend accepted >> (close >> destruct_passive))
        (accept_connection env s memory fuel tcp (λ e. x.open_handle (sym x.connected ∙ e))
          x.accepted_calmly)
        λ accepted t h.
          Ends->>= (λ z w. Served fd s w) Q env t (attend accepted) (λ z. close >> destruct_passive)
            (attend-Served memory fd s accepted t x h) λ z w p. close-Served fd s w valid x p

  -- The whole server thread of RecvAsync on its TCP object: when the kernel gives it a handle,
  -- binds it and listens on it, accept(2) gives a client without touching errno, the two calls that
  -- name its addresses leave no EINTR, the client's payload comes in chunks of at least one byte
  -- and no more than is asked for, whose lengths add up to the size expected, the calls of recv(2)
  -- and send(2) leave errno alone, and both handles can be closed, the thread ends with one round
  -- more than there are chunks, and its calls are those that make it listen, accept(2) and the
  -- naming of the addresses, one recv(2) and one send(2) of the same bytes for each chunk, in
  -- order, and one close(2) of the client and then of the listener.
  pub create_tcp_echo_server-Chunks :
      (memory : SimpleSocket) (fd guest : ℤ) (s : State)
      → s.socket_type ≡ SocketType.tcp
      → Listens env s fd addr port
      → Client env max fd guest chunks (ready_trace env s fd addr port)
      → Ends
          (create_tcp_echo_server
            (suc (length chunks))
            (suc fuel)
            stale
            memory
            (thread_data addr port max (total_length chunks))
            env
            s)
          λ z w.
            w.trace ≡ Call.close fd ∷ served max fd guest chunks (ready_trace env s fd addr port)
  unfolding create_tcp_echo_server
  create_tcp_echo_server-Chunks memory fd guest s tcp x y =
      let Q : Unit {0} → State → Type 0 = λ z w.
        w.trace ≡ Call.close fd ∷ served max fd guest chunks (ready_trace env s fd addr port) in
      let rest : Op (Unit {0}) = (do
        accepted ← accept (suc fuel) memory
        attend accepted
        close
        destruct_passive) in
      Ends->>= (λ done u. Initialized env s fd addr port u) Q env s initialize
        (λ done. listen (some addr) port (pos 30000) >> rest)
        (initialize-Initialized env s fd addr port x tcp)
        λ done u p.
          Ends->>= (λ ok t. (ok ≡ true) × Ready env s fd addr port t) Q env u
            (listen (some addr) port (pos 30000)) (λ ok. rest)
            (listen-Ready env s fd addr port u x p)
            λ ok t q.
              Ends-map (rest env t)
                (listening-Served memory guest t (λ e. x.is_open (sym q.1.1 ∙ e)) q.1.2
                  (rw (q.1.1, q.1.0) y))
                λ z w e. e ∙ rw (q.1.1, q.1.0) refl
