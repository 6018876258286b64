-- ===== src/Programs/EchoServer/Service.antt =====
-- The loop of examples/EchoServer.cpp over a sequence of clients.
use clsocket.Base.{
  ℕ, suc, ℤ, pos, ◌≡◌, refl, sym, ap, ◌∙◌, Option, none, some, List, [], ◌∷◌, length, true,
}
use clsocket.Net.{Call, Bytes, Env}
use clsocket.Socket.{SocketType, SimpleSocket, State, Op, Ends, on, ◌>>◌, pure, is_valid_handle}
use clsocket.Socket.Steps.{Ends-on, Ends-map, Ends->>=}
use clsocket.Passive.{accept}
use clsocket.Passive.Accept.{Adopted, accept_connection}
use clsocket.Programs.Chunk.{IsCalm, answered, went, went-whole}
use clsocket.Programs.Steps.{Spends, Spends-map, Spends->>=}
use clsocket.Programs.EchoServer.{max_packet, answer, serve_client, serve_loop}
use clsocket.Programs.EchoServer.Session.{Exchange, Visit, answer-Exchange, taken, visited}

module _ (env : Env) (fuel stale : ℕ) (memory : SimpleSocket) where
  -- The listener is as it was, and these are the calls.
  abbrev Served : List Call → State → State → Type 0
  Served cs s s' = (s'.trace ≡ cs) × (s'.socket ≡ s.socket) × (s'.socket_type ≡ SocketType.tcp)

  -- What is left to do with what `Accept` returned.
  answer-Adopted :
      (fd : ℤ) (request : Bytes) (s : State)
      → Visit env s.socket fd request s.trace
      → (accepted : Option SimpleSocket) (t : State) → s.socket_type ≡ SocketType.tcp
      → Adopted env s memory accepted t
      → Ends
          (elim accepted as (λ x. Op (Unit {0})) [
            | none ↦ pure tt
            | some client ↦ do on client (answer (suc fuel) stale); pure tt
          ]
            env t)
          λ z s'. Served (visited s.socket fd request s.trace) s s'
  answer-Adopted fd request s v none t tcp h = absurd h
  answer-Adopted fd request s v (some client) t tcp h =
      let u : State = record t { sock = client } in
      let handle : client.socket ≡ fd = h.0 ∙ v.connected in
      let exchange : Exchange env client.socket request t.trace = rw (handle, h.11) v.exchange in
      let calm : IsCalm t.errno = rw h.12 v.named_calmly in
      let done = answer-Exchange env fuel stale request u exchange h.1 h.3 h.4 calm in
      Ends->>= (λ x s'. Served (visited s.socket fd request s.trace) s s')
        (λ z s'. Served (visited s.socket fd request s.trace) s s') env t
        (on client (answer (suc fuel) stale)) (λ x. pure tt)
        (Ends-on (λ x s'. Served (visited s.socket fd request s.trace) s s') env t client
          (answer (suc fuel) stale)
          (Ends-map (answer (suc fuel) stale env u) done
            λ z w e. (e ∙ rw (handle, h.11) refl, h.8, h.9 ∙ tcp)))
        λ x s' p. p

  serve_client-Visit :
      (fd : ℤ) (request : Bytes) (s : State)
      → Visit env s.socket fd request s.trace
      → s.socket_type ≡ SocketType.tcp
      → Ends
          (serve_client (suc fuel) stale memory env s)
          λ z s'. Served (visited s.socket fd request s.trace) s s'
  unfolding serve_client
  serve_client-Visit fd request s v tcp =
      Ends->>= (Adopted env s memory) (λ z s'. Served (visited s.socket fd request s.trace) s s')
        env s (accept (suc fuel) memory)
        (λ accepted. elim accepted [
          | none ↦ pure tt
          | some client ↦ do on client (answer (suc fuel) stale); pure tt
        ])
        (accept_connection env s memory fuel tcp
          (λ e. v.exchange.chunk.arrival.open_handle (sym v.connected ∙ e)) v.accepted_calmly)
        λ accepted t h. answer-Adopted fd request s v accepted t tcp h

-- What a client has, and asks: its handle and its request.
abbrev pub Guest : Type 0
Guest = ℤ × Bytes

-- The kernel hands over these clients, one after the other.
abbrev pub Visits : Env → ℤ → List Guest → List Call → Type 0
Visits env listener [] cs = Unit {0}
Visits env listener ((fd, request) ∷ guests) cs =
    Visit env listener fd request cs × Visits env listener guests (visited listener fd request cs)

-- All their calls.
abbrev pub service : ℤ → List Guest → List Call → List Call
service listener [] cs = cs
service listener ((fd, request) ∷ guests) cs =
    service listener guests (visited listener fd request cs)

-- An abstract echo server: a log of what went to whom, latest first.
abbrev pub echo : List Guest → List Guest → List Guest
echo [] log = log
echo (guest ∷ guests) log = echo guests (guest ∷ log)

-- The kernel takes the whole of each answer.
abbrev pub Takes : Env → ℤ → List Guest → List Call → Type 0
Takes env listener [] cs = Unit {0}
Takes env listener ((fd, request) ∷ guests) cs =
    ((env.reply (answered max_packet fd request (taken listener cs))).ret ≡ pos (length request))
    × Takes env listener guests (visited listener fd request cs)

-- The log that a list of calls amounts to: what each send(2) took.
abbrev pub sent_to : Env → List Call → List Guest
sent_to env [] = []
sent_to env (Call.send fd bytes ∷ cs) =
    (fd, went (env.reply (Call.send fd bytes ∷ cs)).ret bytes) ∷ sent_to env cs
sent_to env (c ∷ cs) = sent_to env cs

sent_to-service :
    (env : Env) (listener : ℤ) (guests : List Guest) (cs : List Call)
    → Takes env listener guests cs
    → sent_to env (service listener guests cs) ≡ echo guests (sent_to env cs)
sent_to-service env listener [] cs h = refl
sent_to-service env listener ((fd, request) ∷ guests) cs h =
    sent_to-service env listener guests (visited listener fd request cs) h.1
    ∙ ap (λ sent. echo guests ((fd, sent) ∷ sent_to env cs))
        (went-whole (env.reply (answered max_packet fd request (taken listener cs))).ret request
          h.0)

module _ (env : Env) (fuel stale : ℕ) (memory : SimpleSocket) where
  serve_loop-service :
      (guests : List Guest) (s : State)
      → is_valid_handle s.sock ≡ true
      → s.socket_type ≡ SocketType.tcp
      → Visits env s.socket guests s.trace
      → Spends
          (serve_loop (length guests) (suc fuel) stale memory env s)
          λ s'. s'.trace ≡ service s.socket guests s.trace
  unfolding serve_loop
  serve_loop-service [] s valid tcp v = refl
  serve_loop-service ((fd, request) ∷ guests) s valid tcp v = rw valid (
      Spends->>= (λ z t. Served env fuel stale memory (visited s.socket fd request s.trace) s t)
        (λ s'. s'.trace ≡ service s.socket ((fd, request) ∷ guests) s.trace) env s
        (serve_client (suc fuel) stale memory)
        (λ z. serve_loop (length guests) (suc fuel) stale memory)
        (serve_client-Visit env fuel stale memory fd request s v.0 tcp)
        λ z t p.
          Spends-map (serve_loop (length guests) (suc fuel) stale memory env t)
            (serve_loop-service guests t (rw p.1 valid) p.2 (rw (p.1, p.0) v.1))
            λ s' e. e ∙ rw (p.1, p.0) refl)

  -- The loop of the echo server, on a valid TCP handle and with one round for each guest, where the
  -- kernel accepts the guests in this order, delivers each one's request of 1 to 4096 bytes in one
  -- recv(2), takes the whole of each answer in one send(2), closes what it is asked to, leaves errno alone in accept(2), recv(2) and send(2) and
  -- without EINTR in the two calls that name addresses: it spends its rounds with exactly the calls
  -- of `service`, and what it has sent is what an abstract echo server sends, each request to the
  -- guest that made it, in the order of the guests.
  pub serve_loop_refines :
      (guests : List Guest) (s : State)
      → is_valid_handle s.sock ≡ true
      → s.socket_type ≡ SocketType.tcp
      → Visits env s.socket guests s.trace
      → Takes env s.socket guests s.trace
      → Spends (serve_loop (length guests) (suc fuel) stale memory env s) λ s'.
        (s'.trace ≡ service s.socket guests s.trace)
        × (sent_to env s'.trace ≡ echo guests (sent_to env s.trace))
  serve_loop_refines guests s valid tcp v h =
      Spends-map (serve_loop (length guests) (suc fuel) stale memory env s)
        (serve_loop-service guests s valid tcp v)
        λ s' e. (e, ap (sent_to env) e ∙ sent_to-service env s.socket guests s.trace h)
