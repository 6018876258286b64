-- ===== src/Programs/RecvAsync/Main.antt =====
-- `main` of examples/RecvAsync.cpp, from its first call to its last.
use clsocket.Base.{ℕ, suc, ℤ, true, false, ◌≡◌, Option, none, some, List, [], length, arith}
use clsocket.Net.{Bytes, Env}
use clsocket.Socket.{SocketType, State, Buffer, Ends, pure, branch, ◌>>=◌, ◌>>◌}
use clsocket.Socket.Steps.{Ends->>=}
use clsocket.Socket.Lifecycle.{initialize}
use clsocket.Socket.Lifecycle.Handle.{socket_trace}
use clsocket.Socket.Options.{set_nonblocking}
use clsocket.Active.{open_to, destruct_active}
use clsocket.Programs.EchoServer.{loopback}
use clsocket.Programs.RecvAsync.{test_packet, exchange_packet, async_client}
use clsocket.Programs.RecvAsync.Polling.{Arrivals, bytes_of, prints}
use clsocket.Programs.RecvAsync.Session.{Wakes, selected, exchange_packet-Arrivals}
use clsocket.Programs.RecvAsync.Connection.{
  nonblocking_trace, connected_trace, Connecting, Blank, initialize-Blank, set_nonblocking-Blank,
  Opened, open_to-Opened,
}

module _ (env : Env) (s : State) (fd : ℤ) (cur addr fuel : ℕ)
    (x : Connecting env s fd cur addr) where
  destruct-Ends : (v : State) → Ends (destruct_active env v) λ z w. Unit {0}
  unfolding destruct_active
  destruct-Ends v = ground arith

  -- The connected part of `main`, and its end.
  exchange-Ends :
      (tries : List (Option Bytes)) (v : State)
      → Opened env s fd cur addr fuel x v
      → Wakes env fd (connected_trace env s fd cur addr)
      → bytes_of tries ≡ length test_packet
      → Arrivals env fd tries (selected fd (connected_trace env s fd cur addr))
      → Ends
          ((do
            printed ← exchange_packet (suc (length tries)) (suc fuel)
            destruct_active
            pure printed)
            env v)
          λ blocks w. blocks ≡ prints tries []
  exchange-Ends tries v o wakes count arrives =
      let Q : List Buffer → State → Type 0 = λ blocks w. blocks ≡ prints tries [] in
      Ends->>= Q Q env v (exchange_packet (suc (length tries)) (suc fuel))
        (λ printed. destruct_active >> pure printed)
        (exchange_packet-Arrivals env fuel v tries (rw (o.1, o.2) wakes) o.0 count
          (rw (o.1, o.2) arrives))
        λ blocks w e.
          Ends->>= (λ z u. Unit {0}) Q env w destruct_active (λ z. pure blocks) (destruct-Ends w)
            λ z u _. e

  pub async_client-Arrivals :
      (tries : List (Option Bytes))
      → s.socket_type ≡ SocketType.tcp
      → s.flags ≡ 0
      → s.buffer ≡ none
      → Wakes env fd (connected_trace env s fd cur addr)
      → bytes_of tries ≡ length test_packet
      → Arrivals env fd tries (selected fd (connected_trace env s fd cur addr))
      → Ends
          (async_client (suc (length tries)) (suc fuel) env s)
          λ blocks w. blocks ≡ prints tries []
  unfolding async_client
  async_client-Arrivals tries tcp flags empty wakes count arrives =
      let Q : List Buffer → State → Type 0 = λ blocks w. blocks ≡ prints tries [] in
      let exchange = exchange_packet (suc (length tries)) (suc fuel) in
      Ends->>= (λ done u. Blank env s fd cur (socket_trace env s) u) Q env s initialize
        (λ done. do
          set_nonblocking
          opened ← open_to (some loopback) 6789
          printed ← branch opened exchange (pure [])
          destruct_active
          pure printed)
        (initialize-Blank env s fd cur addr fuel x tcp flags empty)
        λ done u p.
          Ends->>=
            (λ done v.
              Blank env s fd cur (nonblocking_trace env s fd cur) v × (v.is_blocking ≡ false))
            Q env u set_nonblocking
            (λ done. do
              opened ← open_to (some loopback) 6789
              printed ← branch opened exchange (pure [])
              destruct_active
              pure printed)
            (set_nonblocking-Blank env s fd cur addr fuel x u p)
            λ done v q.
              Ends->>= (λ done w. (done ≡ true) × Opened env s fd cur addr fuel x w) Q env v
                (open_to (some loopback) 6789)
                (λ opened. do
                  printed ← branch opened exchange (pure [])
                  destruct_active
                  pure printed)
                (open_to-Opened env s fd cur addr fuel x v q.0 q.1)
                λ done w o. rw o.0 (exchange-Ends tries w o.1 wakes count arrives)
