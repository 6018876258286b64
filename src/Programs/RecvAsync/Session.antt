-- ===== src/Programs/RecvAsync/Session.antt =====
-- `main` of examples/RecvAsync.cpp once it is connected: the packet leaves, and the answer is awaited.
use clsocket.Socket.Select.Ready.{select-settable}
use clsocket.Base.{
  ℕ, suc, ℤ, pos, ◌==ℤ◌, true, false, ◌≡◌, ◌≢◌, refl, ◌∙◌, Option, none, some, List, [], ◌∷◌,
  length, arith,
}
use clsocket.Net.{Errno, SockOpt, OptLen, Call, Bytes, Env}
use clsocket.Socket.{State, Buffer, Ends, or_else, ◌>>◌, pure, branch}
use clsocket.Socket.Steps.{Ends-map, Ends->>=}
use clsocket.Error.{is_interrupted, translate_errno}
use clsocket.Socket.Access.{select_always}
use clsocket.Socket.Select.{pending_error, is_exit_success, is_settable, select_timeout}
use clsocket.Socket.Send.{send}
use clsocket.Socket.Send.Method.{send_ends}
use clsocket.Programs.Chunk.{IsCalm}
use clsocket.Programs.RecvAsync.{test_packet, client_loop, exchange_packet}
use clsocket.Programs.RecvAsync.Polling.{Arrivals, bytes_of, prints, IsPolling}
use clsocket.Programs.RecvAsync.Client.{client_loop-Arrivals}

-- The calls of the client before it polls.
abbrev pub packet_sent : ℤ → List Call → List Call
packet_sent fd cs = Call.send fd test_packet ∷ cs

abbrev pub selected : ℤ → List Call → List Call
selected fd cs =
    Call.getsockopt fd SockOpt.so_error (OptLen.at_object 4)
    ∷ Call.select fd none
    ∷ packet_sent fd cs

-- The packet leaves and the answer wakes the client.
pub record Wakes (env : Env) (fd : ℤ) (cs : List Call) : Type 0 where
  pub leaves : (env.reply (packet_sent fd cs)).ret ≢ pos 0
  pub leaves_calmly : (env.reply (packet_sent fd cs)).errno ≡ none
  pub settable : is_settable env fd ≡ true
  pub woken : (env.reply (Call.select fd none ∷ packet_sent fd cs)).ret ≡ pos 1
  pub readable : (env.reply (Call.select fd none ∷ packet_sent fd cs)).readable ≡ true
  pub option_read : (env.reply (selected fd cs)).ret ≡ pos 0
  pub no_error : (env.reply (selected fd cs)).pending ≡ Errno.exit_success

module _ (env : Env) (fuel : ℕ) (s : State) where
  abbrev Polls : State → Type 0
  Polls u = IsPolling env fuel u × (u.socket ≡ s.socket) × (u.trace ≡ selected s.socket s.trace)

  abbrev Sent : ℤ → State → Type 0
  Sent n u =
      (n ≡ (env.reply (packet_sent s.socket s.trace)).ret)
      × IsPolling env fuel u
      × (u.socket ≡ s.socket)
      × (u.trace ≡ packet_sent s.socket s.trace)

  select-Polls :
      (u : State) (n : ℤ)
      → Wakes env s.socket s.trace
      → Sent n u
      → Ends (select_always env u) λ ready v. Polls v
  unfolding select_always pending_error select_timeout is_exit_success is_interrupted
      translate_errno
  select-Polls u n x p =
      let settable : is_settable env u.socket ≡ true = rw p.2 x.settable in
      rw (select-settable env u (pos 0) (pos 0) settable)
        (ground (arith, p.1, p.2, p.3, x.woken, x.readable, x.option_read, x.no_error))

  send-Sent :
      Wakes env s.socket s.trace
      → IsPolling env fuel s
      → Ends (send (suc fuel) (some test_packet) (length test_packet) env s) Sent
  send-Sent x p =
      let uninterrupted : IsCalm
          (or_else (env.reply (packet_sent s.socket s.trace)).errno s.errno) =
        rw x.leaves_calmly p.0.3 in
      Ends-map (send (suc fuel) (some test_packet) (length test_packet) env s)
        (send_ends env (Call.send s.socket test_packet) (suc fuel) 0 (length test_packet)
          test_packet s (rw p.0.1 refl) p.1 (omega arith) (omega arith) (omega arith) uninterrupted)
        λ n u q. (
          q.1,
          (
            (
              rw (q.3.3, q.3.4) p.0.0,
              q.3.1 ∙ p.0.1,
              q.3.2 ∙ p.0.2,
              rw (q.4, x.leaves_calmly) p.0.3,
            ),
            rw q.3.0 p.1,
          ),
          q.3.0,
          q.0,
        )

  pub exchange_packet-Arrivals :
      (tries : List (Option Bytes))
      → Wakes env s.socket s.trace
      → IsPolling env fuel s
      → bytes_of tries ≡ length test_packet
      → Arrivals env s.socket tries (selected s.socket s.trace)
      → Ends
          (exchange_packet (suc (length tries)) (suc fuel) env s)
          λ blocks u. blocks ≡ prints tries []
  unfolding exchange_packet
  exchange_packet-Arrivals tries x ready e arrives =
      let Q : List Buffer → State → Type 0 = λ blocks u. blocks ≡ prints tries [] in
      Ends->>= Sent Q env s (send (suc fuel) (some test_packet) (length test_packet))
        (λ sent.
          branch (sent ==ℤ pos 0) (pure [])
            (do select_always; client_loop (suc (length tries)) (suc fuel) 0 []))
        (send-Sent x ready)
        λ n u p.
          let left : (n ==ℤ pos 0) ≡ false = ground (arith, p.0, x.leaves) in
          rw left (
            Ends->>= (λ ready v. Polls v) Q env u select_always
              (λ ready. client_loop (suc (length tries)) (suc fuel) 0 []) (select-Polls u n x p)
              λ _ v q.
                client_loop-Arrivals env fuel tries 0 [] v (omega (arith, e)) q.0
                  (rw (q.1, q.2) arrives))
