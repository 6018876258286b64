-- ===== src/History/Answers.antt =====
-- `CPassiveSocket::Send` of src/PassiveSocket.cpp as a step.
use clsocket.Base.{ℕ, ℤ, ltb, ◌&&◌, ◌⊎◌, inl, inr, Bool-cases, arith}
use clsocket.Net.{Env}
use clsocket.Socket.{SocketType, State, gets, is_valid_handle}
use clsocket.Socket.Lifecycle.{is_not_null}
use clsocket.Socket.Send.{Pointer, is_readable}
use clsocket.Socket.Send.Method.{cleared}
use clsocket.Passive.{send_to_client, passive_send, passive_send_by_type}
use clsocket.History.{Unless}
use clsocket.History.Calm.{Calm}
use clsocket.History.Moves.{Readable, Calm->>=, there_lem, send-Calm}

module _ (reason : Type 0) (env : Env) (watched : ℤ) where
  -- What `send_to_client` does once its guards have let it.
  send_to_client-Calm :
      (buf : Pointer) (n : ℕ) (s : State)
      → Readable buf n ⊎ reason
      → Unless reason (send_to_client buf n env s) (Calm env watched s)
  unfolding send_to_client
  send_to_client-Calm buf n s h =
      elim (Bool-cases (is_valid_handle s.sock && (ltb 0 n && is_not_null buf))) [
        | inl going ↦ elim (there_lem reason env watched buf n h (ground (arith, going))) [
          | inl there ↦ rw (going, there) (ground arith)
          | inr r ↦ elim (Bool-cases (is_readable buf n)) [
            | inl there ↦ rw (going, there) (ground arith)
            | inr missing ↦ rw (going, missing) r
          ]
        ]
        | inr refused ↦ rw refused (ground arith)
      ]

  passive_send_by_type-Calm :
      (fuel : ℕ) (type : SocketType) (buf : Pointer) (n : ℕ) (s : State)
      → Readable buf n ⊎ reason
      → Unless reason (passive_send_by_type fuel type buf n env s) (Calm env watched s)
  unfolding passive_send_by_type
  passive_send_by_type-Calm fuel SocketType.udp buf n s h = send_to_client-Calm buf n s h
  passive_send_by_type-Calm fuel SocketType.tcp buf n s h =
      ground (arith, send-Calm reason env watched fuel buf n s h)
  passive_send_by_type-Calm fuel _ buf n s h = ground arith

  pub passive_send-Calm :
      (fuel : ℕ) (buf : Pointer) (n : ℕ) (s : State)
      → Readable buf n ⊎ reason
      → Unless reason (passive_send fuel buf n env s) (Calm env watched s)
  unfolding passive_send
  passive_send-Calm fuel buf n s h =
      Calm->>= reason env watched (cleared s) (passive_send_by_type fuel s.socket_type buf n)
        (λ _. gets λ t. t.bytes_sent)
        (passive_send_by_type-Calm fuel s.socket_type buf n (cleared s) h) λ _ u. ground arith
