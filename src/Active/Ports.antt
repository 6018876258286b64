-- ===== src/Active/Ports.antt =====
-- The addresses and ports that `Open` of src/ActiveSocket.cpp stores, as src/SimpleSocket.h gives them out.
use clsocket.Socket.Select.{is_settable}
use clsocket.Base.{
  ℕ, ℤ, Bool, Bool-cases, inl, inr, true, ◌≡◌, Option, none, some, List, ◌∷◌, arith,
}
use clsocket.Net.{SockAddr, Call, CString, Env}
use clsocket.Socket.{SocketType, State, Ends, ◌>>=◌, ◌>>◌, when, pure}
use clsocket.Socket.Steps.{Ends->>=}
use clsocket.Active.{open_to, note_addresses, connect_by_type}
use clsocket.Active.Open.{connect_by_type-socket}
use clsocket.Socket.Access.{get_client_addr, get_client_port, get_server_addr, get_server_port}

-- Whatever has been called before, the kernel names these two ends of the socket.
pub record Connects (env : Env) (fd : ℤ) (peer own : SockAddr) : Type 0 where
  pub peer_named : (cs : List Call) → (env.reply (Call.getpeername fd ∷ cs)).addr ≡ some peer
  pub own_named : (cs : List Call) → (env.reply (Call.getsockname fd ∷ cs)).addr ≡ some own

module _ (env : Env) (s : State) (port : ℕ) (peer own : SockAddr) where
  note_addresses-Connects :
      (u : State)
      → Connects env s.socket peer own
      → u.socket ≡ s.socket
      → Ends (note_addresses env u) λ x s'. (s'.server_sockaddr ≡ peer) × (s'.client_sockaddr ≡ own)
  unfolding note_addresses
  note_addresses-Connects u named e =
      ground
        (arith, named.peer_named u.trace, named.own_named (Call.getpeername s.socket ∷ u.trace))

  -- A connection that was made has both addresses on record.
  abbrev Named : Bool → State → Type 0
  Named done s' = done ≡ true → (s'.server_sockaddr ≡ peer) × (s'.client_sockaddr ≡ own)

  connect-Named :
      (t : SocketType) (text : CString)
      → is_settable env s.socket ≡ true
      → Connects env s.socket peer own
      → Ends
          ((do
            connected ← connect_by_type t text port
            when connected note_addresses
            pure connected)
            env s)
          Named
  connect-Named t text settable named =
      Ends->>= (λ done u. u.socket ≡ s.socket) Named env s (connect_by_type t text port)
        (λ connected. do when connected note_addresses; pure connected)
        (connect_by_type-socket env s t text port settable)
        λ done u e. elim (Bool-cases done) [
          | inl yes_done ↦ ground (arith, note_addresses-Connects u named e)
          | inr not_done ↦ ground arith
        ]

  -- When the handle is from 0 to below FD_SETSIZE, the kernel names the two ends of the socket and
  -- `open_to` returns true, `get_server_port` gives the peer's port in host order,
  -- `get_client_port` the own port in the order it has on the network, and `get_server_addr` and
  -- `get_client_addr` the texts of the two addresses.
  pub open_to_ports :
      (name : Option CString)
      → is_settable env s.socket ≡ true
      → Connects env s.socket peer own
      → Ends (open_to name port env s) λ done s'.
        done ≡ true
        → (get_server_port env s'.sock ≡ env.ntohs peer.sin_port)
          × (get_client_port s'.sock ≡ own.sin_port)
          × (get_server_addr env s'.sock ≡ env.inet_ntoa peer.s_addr)
          × (get_client_addr env s'.sock ≡ env.inet_ntoa own.s_addr)
  unfolding open_to get_server_port get_client_port get_server_addr get_client_addr
  open_to_ports none settable named = ground arith
  open_to_ports (some text) settable named =
      ground (arith, connect-Named s.socket_type text settable named)
