-- ===== src/Programs/RecvAsync.antt =====
-- examples/RecvAsync.cpp: an echo server in a thread of its own, and a client that does not block.
-- The threads share nothing but the kernel; each is a program, and `sleep` leaves the state alone.
pub mod Server
pub mod Stuck
pub mod Polling
pub mod Client
pub mod Stream
pub mod Session
pub mod Thread
pub mod Connection
pub mod Main
pub mod Together
pub mod Safety
use clsocket.Base.{
  ◌&&◌, ◌==◌, if◌then◌else◌, ℕ, zero, suc, ◌+◌, ℤ, pos, negsuc, ◌==ℤ◌, ◌+ℤ◌, ltb, ltb_ℤ, leb, not,
  Bool, Option, none, some, List, [], ◌∷◌, take, length,
}
use clsocket.Net.{CString, Bytes}
use clsocket.Socket.{
  SimpleSocket, Buffer, Op, exhausted, fault, returned, pure, ◌>>=◌, ◌>>◌, branch, when, gets, on,
  is_socket_valid,
}
use clsocket.Socket.Lifecycle.{initialize, close}
use clsocket.Socket.Receive.{Target, receive}
use clsocket.Socket.Send.{send}
use clsocket.Socket.Options.{set_nonblocking}
use clsocket.Socket.Access.{get_data, select_always}
use clsocket.Active.{open_to, destruct_active}
use clsocket.Passive.{listen, accept, destruct_passive}
use clsocket.Programs.{send_back, copy_data}
use clsocket.Programs.EchoServer.{loopback}

-- `struct thread_data`.
pub record ThreadData : Type 0 where
  pub server_addr : CString
  pub port : ℕ
  pub bytes_to_receive : ℤ
  pub total_payload_size : ℤ

-- `while (nBytesReceived != pData->nTotalPayloadSize)`, on the client.
unfoldable pub echo_loop : ℕ → ℕ → ℕ → ThreadData → ℤ → Op (Unit {0})
unfolding send_back
echo_loop zero fuel stale payload total env s = exhausted s
echo_loop (suc rounds) fuel stale payload total env s =
    let again = echo_loop rounds fuel stale payload in
    branch (total ==ℤ payload.total_payload_size) (pure tt)
      (do
        n ← receive fuel payload.bytes_to_receive Target.internal
        when (not (total +ℤ n ==ℤ pos 0)) (do send_back fuel stale; pure tt)
        again (total +ℤ n))
      env s

-- The part of the thread that has a client: its loop, and `delete`.
unfoldable pub echo_client : ℕ → ℕ → ℕ → ThreadData → Op (Unit {0})
unfolding echo_loop
echo_client rounds fuel stale payload = do
  echo_loop rounds fuel stale payload (pos 0)
  destruct_active

-- `CreateTCPEchoServer`, on the object that it declares.
unfoldable pub create_tcp_echo_server : ℕ → ℕ → ℕ → SimpleSocket → ThreadData → Op (Unit {0})
unfolding echo_client
create_tcp_echo_server rounds fuel stale memory payload = do
  initialize
  listen (some payload.server_addr) payload.port (pos 30000)
  accepted ← accept fuel memory
  elim accepted [
    | none ↦ pure tt
    | some client ↦ do on client (echo_client rounds fuel stale payload); pure tt
  ]
  close
  destruct_passive

-- "Test Packet"
abbrev pub test_packet : Bytes
test_packet = 84 ∷ 101 ∷ 115 ∷ 116 ∷ 32 ∷ 80 ∷ 97 ∷ 99 ∷ 107 ∷ 101 ∷ 116 ∷ []

-- `char result[1024]`, and what `memcpy` puts there.
unfoldable pub copy_result : ℕ → Op Buffer
unfolding copy_data
copy_result n = copy_data 1024 n

-- The rest of a round of the client, with the bytes of each block that has been
-- handed to printf, which prints them up to the first zero.
abbrev pub print_bytes :
    (ℕ → List Buffer → Op (List Buffer)) → ℕ → List Buffer → ℤ → Op (List Buffer)
print_bytes again total printed (pos zero) = again total printed
print_bytes again total printed (pos (suc k)) = do
  result ← copy_result (suc k)
  again (total + suc k) (result ∷ printed)
print_bytes again total printed (negsuc k) = again total printed

-- The loop of `main`.
unfoldable pub client_loop : ℕ → ℕ → ℕ → List Buffer → Op (List Buffer)
unfolding copy_result
client_loop zero fuel total printed env s = exhausted s
client_loop (suc rounds) fuel total printed env s =
    let again = client_loop rounds fuel in
    branch (total == length test_packet) (pure printed)
      (do n ← receive fuel (pos 4096) Target.internal; print_bytes again total printed n) env s

-- `main` once it is connected: the packet leaves, and the answer is awaited.
unfoldable pub exchange_packet : ℕ → ℕ → Op (List Buffer)
unfolding client_loop
exchange_packet rounds fuel = do
  sent ← send fuel (some test_packet) (length test_packet)
  branch (sent ==ℤ pos 0) (pure []) (do select_always; client_loop rounds fuel 0 [])

-- `main`, from where the thread runs.
unfoldable pub async_client : ℕ → ℕ → Op (List Buffer)
unfolding exchange_packet
async_client rounds fuel = do
  initialize
  set_nonblocking
  opened ← open_to (some loopback) 6789
  printed ← branch opened (exchange_packet rounds fuel) (pure [])
  destruct_active
  pure printed
