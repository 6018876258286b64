-- ===== src/Programs/EchoServer/Main.antt =====
-- `main` of examples/EchoServer.cpp, from its first call.
use clsocket.Base.{ℕ, suc, ℤ, pos, ◌≡◌, refl, ap, ◌∙◌, some, List, length, true, arith}
use clsocket.Net.{Call, Env}
use clsocket.Socket.{SocketType, SimpleSocket, State, ◌>>=◌, ◌>>◌, pure, when}
use clsocket.Socket.Lifecycle.{initialize, close}
use clsocket.Passive.{listen, destruct_passive}
use clsocket.Programs.Steps.{Spends, Spends-map, Spends->>=, Spends-before}
use clsocket.Programs.EchoServer.{loopback, serve_loop, echo_server}
use clsocket.Programs.EchoServer.Service.{
  Guest, Visits, Takes, service, echo, sent_to, serve_loop_refines,
}
use clsocket.Programs.Listening.{
  Listens, ready_trace, Initialized, Ready, initialize-Initialized, listen-Ready,
}

module _ (env : Env) (s : State) (fd : ℤ) where
  abbrev ready : List Call
  ready = ready_trace env s fd loopback 6789

  -- The loop, from where the object listens.
  serve-Ready :
      (fuel stale : ℕ) (memory : SimpleSocket) (guests : List Guest) (t : State)
      → Listens env s fd loopback 6789
      → Ready env s fd loopback 6789 t
      → Visits env fd guests (ready)
      → Takes env fd guests (ready)
      → Spends (serve_loop (length guests) (suc fuel) stale memory env t) λ s'.
        (s'.trace ≡ service fd guests (ready))
        × (sent_to env s'.trace ≡ echo guests (sent_to env s.trace))
  serve-Ready fuel stale memory guests t x p v h =
      Spends-map (serve_loop (length guests) (suc fuel) stale memory env t)
        (serve_loop_refines env fuel stale memory guests t (ground (arith, p.1, x.is_open)) p.2
          (rw (p.1, p.0) v) (rw (p.1, p.0) h))
        λ s' e. (e.0 ∙ rw (p.1, p.0) refl, e.1 ∙ ap (λ cs. echo guests (sent_to env cs)) p.0)

  -- `main` spends its rounds if its loop does from where the object listens.
  pub main-Ready :
      (Q : State → Type 0) (rounds fuel stale : ℕ) (memory : SimpleSocket)
      → s.socket_type ≡ SocketType.tcp
      → Listens env s fd loopback 6789
      → ((t : State)
          → Ready env s fd loopback 6789 t
          → Spends (serve_loop rounds fuel stale memory env t) Q)
      → Spends (echo_server rounds fuel stale memory env s) Q
  unfolding echo_server
  main-Ready Q rounds fuel stale memory tcp x k =
      let loop = serve_loop rounds fuel stale memory in
      Spends->>= (λ done u. Initialized env s fd loopback 6789 u) Q env s initialize
        (λ done. do
          listening ← listen (some loopback) 6789 (pos 30000)
          when listening (do loop; close; pure tt)
          destruct_passive
          pure (pos 1))
        (initialize-Initialized env s fd loopback 6789 x tcp)
        λ done u p.
          Spends->>= (λ ok t. (ok ≡ true) × Ready env s fd loopback 6789 t) Q env u
            (listen (some loopback) 6789 (pos 30000))
            (λ listening. do
              when listening (do loop; close; pure tt)
              destruct_passive
              pure (pos 1))
            (listen-Ready env s fd loopback 6789 u x p)
            λ ok t q. rw q.0 (
              Spends-before Q env t (loop >> (close >> pure tt))
                (λ z. destruct_passive >> pure (pos 1))
                (Spends-before Q env t loop (λ z. close >> pure tt) (k t q.1)))

  -- `main` of the echo server on its TCP object, with one round of its loop for each guest, where
  -- the kernel gives it a handle, binds it and listens on it, accepts the guests in this order,
  -- delivers each one's request of 1 to 4096 bytes in one recv(2), takes the whole of each answer
  -- in one send(2), closes what it is asked to, leaves errno alone in accept(2), recv(2) and
  -- send(2) and without EINTR in the two calls that name addresses: it spends the rounds with
  -- exactly the calls of `service` after those that make it listen, and what send(2) took of it is
  -- what an abstract echo server sends, each request to the guest that made it, in the order of the
  -- guests.
  pub echo_server_refines :
      (fuel stale : ℕ) (memory : SimpleSocket) (guests : List Guest)
      → s.socket_type ≡ SocketType.tcp
      → Listens env s fd loopback 6789
      → Visits env fd guests (ready)
      → Takes env fd guests (ready)
      → Spends (echo_server (length guests) (suc fuel) stale memory env s) λ s'.
        (s'.trace ≡ service fd guests (ready))
        × (sent_to env s'.trace ≡ echo guests (sent_to env s.trace))
  echo_server_refines fuel stale memory guests tcp x v h =
      main-Ready
        (λ s'.
          (s'.trace ≡ service fd guests (ready))
          × (sent_to env s'.trace ≡ echo guests (sent_to env s.trace)))
        (length guests) (suc fuel) stale memory tcp x
        λ t p. serve-Ready fuel stale memory guests t x p v h
