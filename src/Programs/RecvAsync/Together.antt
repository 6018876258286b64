-- ===== src/Programs/RecvAsync/Together.antt =====
-- The two programs of examples/RecvAsync.cpp together: what one sends is what the other gets.
use clsocket.Programs.Chunk.{went-whole}
use clsocket.Base.{
  ℕ, suc, ℤ, pos, ◌≡◌, sym, ap, subst, ◌∙◌, Option, none, some, List, [], map, length,
}
use clsocket.Net.{Call, Bytes, Env}
use clsocket.Socket.{SocketType, SimpleSocket, State, Outcome, Ends}
use clsocket.Socket.Steps.{Ends-map}
use clsocket.Programs.EchoServer.{loopback}
use clsocket.Programs.EchoServer.Session.{taken}
use clsocket.Programs.Listening.{Listens, ready_trace}
use clsocket.Programs.RecvAsync.{test_packet, create_tcp_echo_server, async_client}
use clsocket.Programs.RecvAsync.Server.{echoed, total_length, thread_data}
use clsocket.Programs.RecvAsync.Polling.{Arrivals, bytes_of}
use clsocket.Programs.RecvAsync.Stream.{
  written, Takes, joined, brought, said, length-joined, length-brought, written-echoed, said-prints,
}
use clsocket.Programs.RecvAsync.Session.{Wakes, packet_sent, selected}
use clsocket.Programs.RecvAsync.Thread.{Client, create_tcp_echo_server-Chunks}
use clsocket.Programs.RecvAsync.Connection.{Connecting, connected_trace}
use clsocket.Programs.RecvAsync.Main.{async_client-Arrivals}

-- An object as the constructor leaves it, in a thread that has sent nothing.
abbrev pub IsNew : Env → State → Type 0
IsNew env s =
    (s.socket_type ≡ SocketType.tcp)
    × (s.flags ≡ 0)
    × (s.buffer ≡ none)
    × (written env s.trace ≡ [])

module _ (server client : Env) (max : ℕ) (s c : State) (fd guest own : ℤ) (cur addr : ℕ) where
  -- The calls of the server before its client's first chunk, and of the client before its packet.
  abbrev pub server_calls : List Call
  server_calls = taken fd (ready_trace server s fd loopback 6789)

  abbrev pub client_calls : List Call
  client_calls = connected_trace client c own cur addr

  -- What the kernel does for the two: it connects them, carries the packet to the server in these
  -- chunks, and what the server sends to the client in these, with tries that get nothing.
  pub record Carries (chunks : List Bytes) (tries : List (Option Bytes)) : Type 0 where
    pub listens : Listens server s fd loopback 6789
    pub connecting : Connecting client c own cur addr
    pub packet_comes : Client server max fd guest chunks (ready_trace server s fd loopback 6789)
    pub packet_carried : joined chunks ≡ written client (packet_sent own client_calls)
    pub packet_leaves : (client.reply (packet_sent own client_calls)).ret ≡ pos (length test_packet)
    pub answer_leaves : Takes server max guest chunks server_calls
    pub wakes : Wakes client own client_calls
    pub answer_comes : Arrivals client own tries (selected own client_calls)
    pub answer_carried : brought tries ≡ written server (echoed max guest chunks server_calls)

  -- The two programs of RecvAsync, each on a new TCP object in a thread that has sent nothing, over
  -- a kernel that lets the server listen and the client wait for its connection on a handle from 0
  -- to below FD_SETSIZE, hands the server its client, takes the whole of what each send(2) of the
  -- two is given, and carries what the one sends to the other as it is, cut into chunks of at least
  -- one byte that a recv(2) has room for, with any number of tries of the client in between that
  -- fail without bytes and without EINTR, where the server expects as many bytes as the packet has,
  -- its handles are closed once asked, accept(2), the calls of send(2), the calls of recv(2) that
  -- bring a chunk and the two of the client that name its addresses leave errno alone, the two of
  -- the server that do leave no EINTR, and select(2) wakes the client with no error pending: the
  -- server thread ends, and what send(2) took of it is the packet; the client ends, and the blocks
  -- it has handed to printf, one after the other, are the packet.
  pub async_client-create_tcp_echo_server :
      (fuel stale : ℕ) (memory : SimpleSocket) (chunks : List Bytes) (tries : List (Option Bytes))
      → IsNew server s
      → IsNew client c
      → Carries chunks tries
      → let payload = thread_data loopback 6789 max (length test_packet) in
        (Ends
          (create_tcp_echo_server (suc (length chunks)) (suc fuel) stale memory payload server s)
          λ z w. written server w.trace ≡ test_packet)
        × (Ends
            (async_client (suc (length tries)) (suc fuel) client c)
            λ blocks w. said blocks ≡ map some test_packet)
  async_client-create_tcp_echo_server fuel stale memory chunks tries new_server new_client k =
      let packet : joined chunks ≡ test_packet =
        k.packet_carried
        ∙ rw new_client.3 (
            went-whole (client.reply (packet_sent own client_calls)).ret test_packet
              k.packet_leaves) in
      let size : total_length chunks ≡ length test_packet =
        sym (length-joined chunks) ∙ ap length packet in
      let echo : written server (echoed max guest chunks server_calls) ≡ test_packet =
        written-echoed server max guest chunks server_calls k.answer_leaves
        ∙ rw new_server.3 packet in
      let answer : brought tries ≡ test_packet = k.answer_carried ∙ echo in
      let count : bytes_of tries ≡ length test_packet =
        sym (length-brought tries) ∙ ap length answer in
      let run : ℕ → Outcome (Unit {0}) = λ n.
        create_tcp_echo_server (suc (length chunks)) (suc fuel) stale memory
          (thread_data loopback 6789 max n) server s in
      (
        subst (λ n. Ends (run n) λ z w. written server w.trace ≡ test_packet) size
            (Ends-map (run (total_length chunks))
              (create_tcp_echo_server-Chunks server fuel stale max loopback 6789 chunks memory fd
                guest s new_server.0 k.listens k.packet_comes)
              λ z w e. ap (written server) e ∙ echo),
        Ends-map (async_client (suc (length tries)) (suc fuel) client c)
            (async_client-Arrivals client c own cur addr fuel k.connecting tries new_client.0
              new_client.1 new_client.2 k.wakes count k.answer_comes)
            λ blocks w e. ap said e ∙ said-prints tries [] ∙ ap (map some) answer,
      )
