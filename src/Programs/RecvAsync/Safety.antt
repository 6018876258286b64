-- ===== src/Programs/RecvAsync/Safety.antt =====
-- `CreateTCPEchoServer` of examples/RecvAsync.cpp on any kernel: what it reads, writes and closes,
-- whatever fails.
use clsocket.Base.{
  ℕ, zero, suc, ℤ, pos, ◌==ℤ◌, ◌+ℤ◌, not, Bool, true, false, some, inl, inr, Bool-cases,
}
use clsocket.Net.{Env, CString}
use clsocket.Socket.{SimpleSocket, State, when, pure, ◌>>=◌, ◌>>◌}
use clsocket.Socket.Lifecycle.{initialize, close}
use clsocket.Socket.Receive.{Target, receive}
use clsocket.Active.{destruct_active}
use clsocket.Passive.{listen, accept, destruct_passive}
use clsocket.History.{Lands}
use clsocket.History.Outcomes.{Lands->>=, Yields-then}
use clsocket.History.Owning.{Kept, close-Kept, initialize-Kept, listen-Kept}
use clsocket.Programs.Counts.{Counts}
use clsocket.Programs.{send_back}
use clsocket.Programs.Signals.{Unsignalled, Guest, accept-Guest}
use clsocket.Programs.Guests.{
  attend, attend-Kept, Sound, Loaded, receive-Loaded, send_back-Sound, destruct_active-Kept,
  destruct_passive-Kept,
}
use clsocket.Programs.RecvAsync.Server.{thread_data}
use clsocket.Programs.RecvAsync.{ThreadData, echo_loop, echo_client, create_tcp_echo_server}

module _ (env : Env) (calm : Unsignalled env) (counts : Counts env) (watched : ℤ)
    (fuel stale max : ℕ) (addr : CString) (port size : ℕ) where
  abbrev payload : ThreadData
  payload = thread_data addr port max size

  reply-Sound :
      (rest : ℕ) (b : Bool) (s : State)
      → Loaded env calm counts watched rest max s
      → Lands (when b (do send_back fuel stale; pure tt) env s) (Sound env calm counts watched rest)
  reply-Sound rest true s k =
      let S = Sound env calm counts watched rest in
      Lands->>= S S env s (send_back fuel stale) (λ _. pure tt)
        (send_back-Sound env calm counts watched rest max fuel stale s k) λ _ t p. p
  reply-Sound rest false s k = k.0

  echo_loop-Sound :
      (rest rounds : ℕ) (total : ℤ) (s : State)
      → Sound env calm counts watched rest s
      → Lands (echo_loop rounds fuel stale payload total env s) (Sound env calm counts watched rest)
  unfolding echo_loop
  echo_loop-Sound rest zero total s k = tt
  echo_loop-Sound rest (suc rounds) total s k =
      let S = Sound env calm counts watched rest in
      let again = echo_loop rounds fuel stale payload in
      elim (Bool-cases (total ==ℤ payload.total_payload_size)) [
        | inl all ↦ rw all k
        | inr more ↦ rw more (
            Lands->>= (Loaded env calm counts watched rest max) S env s
              (receive fuel (pos max) Target.internal)
              (λ n. do
                when (not (total +ℤ n ==ℤ pos 0)) (do send_back fuel stale; pure tt)
                again (total +ℤ n))
              (receive-Loaded env calm counts watched rest fuel max s k)
              λ n t p.
                Lands->>= S S env t
                  (when (not (total +ℤ n ==ℤ pos 0)) (do send_back fuel stale; pure tt))
                  (λ _. again (total +ℤ n)) (reply-Sound rest (not (total +ℤ n ==ℤ pos 0)) t p)
                  λ _ u q. echo_loop-Sound rest rounds (total +ℤ n) u q)
      ]

  echo_client-Kept :
      (rounds rest : ℕ) (s : State)
      → Sound env calm counts watched rest s
      → Lands (echo_client rounds fuel stale payload env s) (Kept env watched rest)
  unfolding echo_client
  echo_client-Kept rounds rest s k =
      Lands->>= (Sound env calm counts watched rest) (Kept env watched rest) env s
        (echo_loop rounds fuel stale payload (pos 0)) (λ _. destruct_active)
        (echo_loop-Sound rest rounds (pos 0) s k)
        λ _ t p. destruct_active-Kept env calm counts watched rest t p.0

  -- The server thread of RecvAsync, with any size of its reads that is not negative, any size
  -- expected and any number of rounds, makes no fault, what `Send` reads included, whatever calls
  -- of the kernel fail and whatever they reply, if recv(2) and recvfrom(2) give no more bytes than
  -- they are asked for and return -1 or a count of no more, and recv(2) and the two calls that name
  -- addresses leave no EINTR; and if it ends, the buffer of its object, if there is one, has the
  -- size on record, and for every handle, the calls of close(2) on it that did not fail, plus one
  -- if the object holds it, plus what the rest of the program holds, are no more than the calls of
  -- socket(2) and accept(2) that gave it, where both were so at the start.
  pub create_tcp_echo_server-Kept :
      (rest rounds : ℕ) (memory : SimpleSocket) (s : State)
      → Kept env watched rest s
      → Lands
          (create_tcp_echo_server rounds fuel stale memory (thread_data addr port max size) env s)
          (Kept env watched rest)
  unfolding create_tcp_echo_server
  create_tcp_echo_server-Kept rest rounds memory s k =
      let K = Kept env watched rest in
      let m = echo_client rounds fuel stale payload in
      Lands->>= K K env s initialize
        (λ _. do
          listen (some payload.server_addr) payload.port (pos 30000)
          accepted ← accept fuel memory
          attend m accepted
          close
          destruct_passive)
        (initialize-Kept env watched rest s k)
        λ _ t p.
          Lands->>= K K env t (listen (some payload.server_addr) payload.port (pos 30000))
            (λ _. do accepted ← accept fuel memory; attend m accepted; close; destruct_passive)
            (listen-Kept env watched rest (some payload.server_addr) payload.port (pos 30000) t p)
            λ _ u q.
              Yields-then (Guest env calm watched rest) (λ o. Lands o K) env u (accept fuel memory)
                (λ accepted. do attend m accepted; close; destruct_passive)
                (accept-Guest env calm watched rest fuel memory u q) (λ v. tt)
                λ accepted v r.
                  Lands->>= K K env v (attend m accepted) (λ _. close >> destruct_passive)
                    (attend-Kept env calm counts watched rest m (echo_client-Kept rounds) accepted v
                      r)
                    λ _ w x.
                      Lands->>= K K env w close (λ _. destruct_passive)
                        (close-Kept env watched rest w x)
                        λ _ y z. destruct_passive-Kept env calm counts watched rest y z
