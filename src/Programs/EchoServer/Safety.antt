-- ===== src/Programs/EchoServer/Safety.antt =====
-- `main` of examples/EchoServer.cpp on any kernel: what it reads, writes and closes, whatever fails.
use clsocket.Base.{ℕ, zero, suc, ℤ, pos, ◌==ℤ◌, not, Bool, true, false, some, inl, inr, Bool-cases}
use clsocket.Net.{Env}
use clsocket.Socket.{SimpleSocket, State, Op, when, pure, is_valid_handle, ◌>>=◌, ◌>>◌}
use clsocket.Socket.Lifecycle.{initialize, close}
use clsocket.Socket.Receive.{Target, receive}
use clsocket.Active.{destruct_active}
use clsocket.Passive.{listen, accept, destruct_passive}
use clsocket.History.{Lands}
use clsocket.History.Outcomes.{Lands->>=, Yields-then}
use clsocket.History.Owning.{Kept, close-Kept, initialize-Kept, listen-Kept}
use clsocket.Programs.Counts.{Counts}
use clsocket.Programs.{send_back}
use clsocket.Programs.Signals.{Unsignalled, Guest, accept-Guest}
use clsocket.Programs.Guests.{
  attend, attend-Kept, Sound, Loaded, receive-Loaded, send_back-Sound, destruct_active-Kept,
  destruct_passive-Kept,
}
use clsocket.Programs.EchoServer.{
  max_packet, loopback, answer, serve_client, serve_loop, echo_server,
}

module _ (env : Env) (calm : Unsignalled env) (counts : Counts env) (watched : ℤ) where
  reply-Kept :
      (rest fuel stale : ℕ) (b : Bool) (s : State)
      → Loaded env calm counts watched rest max_packet s
      → Lands (when b (do send_back fuel stale; close; pure tt) env s) (Kept env watched rest)
  reply-Kept rest fuel stale true s k =
      let K = Kept env watched rest in
      Lands->>= (Sound env calm counts watched rest) K env s (send_back fuel stale)
        (λ _. close >> pure tt)
        (send_back-Sound env calm counts watched rest max_packet fuel stale s k)
        λ _ t p.
          Lands->>= K K env t close (λ _. pure tt) (close-Kept env watched rest t p.0) λ _ u q. q
  reply-Kept rest fuel stale false s k = k.0.0

  answer-Kept :
      (rest fuel stale : ℕ) (s : State)
      → Sound env calm counts watched rest s
      → Lands (answer fuel stale env s) (Kept env watched rest)
  unfolding answer
  answer-Kept rest fuel stale s k =
      let K = Kept env watched rest in
      let reply : Op (Unit {0}) = (do send_back fuel stale; close; pure tt) in
      Lands->>= (Loaded env calm counts watched rest max_packet) K env s
        (receive fuel (pos max_packet) Target.internal)
        (λ n. do when (not (n ==ℤ pos 0)) reply; destruct_active)
        (receive-Loaded env calm counts watched rest fuel max_packet s k)
        λ n t p.
          Lands->>= K K env t (when (not (n ==ℤ pos 0)) reply) (λ _. destruct_active)
            (reply-Kept rest fuel stale (not (n ==ℤ pos 0)) t p)
            λ _ u q. destruct_active-Kept env calm counts watched rest u q

  module _ (rest fuel stale : ℕ) (memory : SimpleSocket) where
    serve_client-Kept :
        (s : State)
        → Kept env watched rest s
        → Lands (serve_client fuel stale memory env s) (Kept env watched rest)
    unfolding serve_client
    serve_client-Kept s k =
        Yields-then (Guest env calm watched rest) (λ o. Lands o (Kept env watched rest)) env s
          (accept fuel memory) (attend (answer fuel stale))
          (accept-Guest env calm watched rest fuel memory s k) (λ t. tt)
          (attend-Kept env calm counts watched rest (answer fuel stale)
            λ others. answer-Kept others fuel stale)

    serve_loop-Kept :
        (rounds : ℕ) (s : State)
        → Kept env watched rest s
        → Lands (serve_loop rounds fuel stale memory env s) (Kept env watched rest)
    unfolding serve_loop
    serve_loop-Kept zero s k = tt
    serve_loop-Kept (suc rounds) s k = elim (Bool-cases (is_valid_handle s.sock)) [
      | inl valid ↦ rw valid (
          Lands->>= (Kept env watched rest) (Kept env watched rest) env s
            (serve_client fuel stale memory) (λ _. serve_loop rounds fuel stale memory)
            (serve_client-Kept s k) λ _ t p. serve_loop-Kept rounds t p)
      | inr invalid ↦ rw invalid k
    ]

    -- What `main` does once `Listen` has answered.
    listened-Kept :
        (rounds : ℕ) (listening : Bool) (s : State)
        → Kept env watched rest s
        → Lands
            (when listening (do serve_loop rounds fuel stale memory; close; pure tt) env s)
            (Kept env watched rest)
    listened-Kept rounds true s k =
        let K = Kept env watched rest in
        Lands->>= K K env s (serve_loop rounds fuel stale memory) (λ _. close >> pure tt)
          (serve_loop-Kept rounds s k)
          λ _ t p.
            Lands->>= K K env t close (λ _. pure tt) (close-Kept env watched rest t p) λ _ u q. q
    listened-Kept rounds false s k = k

    -- `main` of the echo server, with any number of rounds of its loop, makes no fault, what `Send`
    -- reads included, whatever calls of the kernel fail and whatever they reply, if recv(2) and
    -- recvfrom(2) give no more bytes than they are asked for and return -1 or a count of no more,
    -- and recv(2) and the two calls that name addresses leave no EINTR; and if it ends, the buffer
    -- of its object, if there is one, has the size on record, and for every handle, the calls of
    -- close(2) on it that did not fail, plus one if the object holds it, plus what the rest of the
    -- program holds, are no more than the calls of socket(2) and accept(2) that gave it, where both
    -- were so at the start.
    pub echo_server-Kept :
        (rounds : ℕ) (s : State)
        → Kept env watched rest s
        → Lands (echo_server rounds fuel stale memory env s) (Kept env watched rest)
    unfolding echo_server
    echo_server-Kept rounds s k =
        let K = Kept env watched rest in
        let serve : Bool → Op (Unit {0}) =
          λ listening. when listening (do serve_loop rounds fuel stale memory; close; pure tt) in
        Lands->>= K K env s initialize
          (λ _. do
            listening ← listen (some loopback) 6789 (pos 30000)
            serve listening
            destruct_passive
            pure (pos 1))
          (initialize-Kept env watched rest s k)
          λ _ t p.
            Lands->>= K K env t (listen (some loopback) 6789 (pos 30000))
              (λ listening. do serve listening; destruct_passive; pure (pos 1))
              (listen-Kept env watched rest (some loopback) 6789 (pos 30000) t p)
              λ listening u q.
                Lands->>= K K env u (serve listening) (λ _. destruct_passive >> pure (pos 1))
                  (listened-Kept rounds listening u q)
                  λ _ v r.
                    Lands->>= K K env v destruct_passive (λ _. pure (pos 1))
                      (destruct_passive-Kept env calm counts watched rest v r) λ _ w x. x
