-- ===== src/Programs/EchoServer.antt =====
-- examples/EchoServer.cpp: a server that answers one request of each client with the same bytes.
pub mod Session
pub mod Service
pub mod Main
pub mod Stuck
pub mod Safety
use clsocket.Base.{ℕ, zero, suc, ℤ, pos, ◌==ℤ◌, not, Option, none, some, [], ◌∷◌}
use clsocket.Net.{CString}
use clsocket.Socket.{
  SimpleSocket, Op, exhausted, pure, ◌>>=◌, ◌>>◌, branch, when, on, is_socket_valid,
}
use clsocket.Socket.Lifecycle.{initialize, close}
use clsocket.Socket.Receive.{Target, receive}
use clsocket.Active.{destruct_active}
use clsocket.Passive.{listen, accept, destruct_passive}
use clsocket.Programs.{send_back}

abbrev pub max_packet : ℕ
max_packet = 4096

-- "127.0.0.1"
abbrev pub loopback : CString
loopback = 49 ∷ 50 ∷ 55 ∷ 46 ∷ 48 ∷ 46 ∷ 48 ∷ 46 ∷ 49 ∷ []

-- What happens to the client: the request, the answer, `Close`, and `delete`.
unfoldable pub answer : ℕ → ℕ → Op (Unit {0})
unfolding send_back
answer fuel stale = do
  n ← receive fuel (pos max_packet) Target.internal
  when (not (n ==ℤ pos 0)) (do send_back fuel stale; close; pure tt)
  destruct_active

-- The body of the loop.
unfoldable pub serve_client : ℕ → ℕ → SimpleSocket → Op (Unit {0})
unfolding answer
serve_client fuel stale memory = do
  accepted ← accept fuel memory
  elim accepted [ none ↦ pure tt | some client ↦ do on client (answer fuel stale); pure tt ]

-- `while (socket.IsSocketValid())`.
unfoldable pub serve_loop : ℕ → ℕ → ℕ → SimpleSocket → Op (Unit {0})
serve_loop zero fuel stale memory env s = exhausted s
serve_loop (suc rounds) fuel stale memory env s =
    let again = serve_loop rounds fuel stale memory in
    (do valid ← is_socket_valid; branch valid (do serve_client fuel stale memory; again) (pure tt))
      env s

-- `main`, run on the object that it declares. The object is destroyed on each way out.
unfoldable pub echo_server : ℕ → ℕ → ℕ → SimpleSocket → Op ℤ
unfolding serve_loop
echo_server rounds fuel stale memory = do
  initialize
  listening ← listen (some loopback) 6789 (pos 30000)
  when listening (do serve_loop rounds fuel stale memory; close; pure tt)
  destruct_passive
  pure (pos 1)
