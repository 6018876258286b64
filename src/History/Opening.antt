-- ===== src/History/Opening.antt =====
-- `SendFile` of src/SimpleSocket.cpp and `Open` of src/ActiveSocket.cpp as steps.
use clsocket.Base.{
  ℕ, zero, suc, ℤ, minus_one, Option, none, some, ◌∷◌, true, ◌≡◌, ◌⊎◌, inl, inr, ltb_ℤ, Bool-cases,
  arith,
}
use clsocket.Net.{Call, Env, CString}
use clsocket.Socket.{SocketType, State, Op, or_else}
use clsocket.Socket.SendFile.{send_file, send_file_loop, copy_block, unless_failed, block_size}
use clsocket.Socket.Select.{is_settable, select}
use clsocket.Active.{open_to, connect_by_type, connect_tcp, connect_udp, note_addresses}
use clsocket.History.{Unless, Lands}
use clsocket.History.Calm.{Calm}
use clsocket.History.Moves.{Calm->>=}

module _ (env : Env) (watched : ℤ) where
  copy_block-Calm :
      (out_fd in_fd n o : ℤ) (s : State)
      → Lands (copy_block out_fd in_fd n o env s) (Calm env watched s)
  unfolding copy_block
  copy_block-Calm out_fd in_fd n o s = ground arith

  unless_failed-Calm :
      (rest : ℤ → Op (Option ℤ)) (r : Option ℤ) (s : State)
      → ((o : ℤ) (t : State) → Lands (rest o env t) (Calm env watched t))
      → Lands (unless_failed rest r env s) (Calm env watched s)
  unless_failed-Calm rest none s h = ground arith
  unless_failed-Calm rest (some o) s h = h o s

  send_file_loop-Calm :
      (fuel : ℕ) (out_fd in_fd count o : ℤ) (s : State)
      → Lands (send_file_loop fuel out_fd in_fd count o env s) (Calm env watched s)
  unfolding send_file_loop
  send_file_loop-Calm zero out_fd in_fd count o s = tt
  send_file_loop-Calm (suc fuel) out_fd in_fd count o s =
      let rest = send_file_loop fuel out_fd in_fd count in
      elim (Bool-cases (ltb_ℤ o count)) [
        | inl more ↦ rw more (
            Calm->>= ⊥ env watched s (copy_block out_fd in_fd (block_size count o) o)
              (unless_failed rest) (copy_block-Calm out_fd in_fd (block_size count o) o s)
              λ r t.
                unless_failed-Calm rest r t
                  λ o' u. send_file_loop-Calm fuel out_fd in_fd count o' u)
        | inr all ↦ rw all (ground arith)
      ]

  pub send_file-Calm :
      (fuel : ℕ) (out_fd in_fd offset count : ℤ) (s : State)
      → Lands (send_file fuel out_fd in_fd offset count env s) (Calm env watched s)
  unfolding send_file
  send_file-Calm fuel out_fd in_fd offset count s =
      let seek = Call.lseek in_fd offset in
      let t : State = record s {
        trace = seek ∷ s.trace;
        errno = or_else (env.reply (seek ∷ s.trace)).errno s.errno;
      } in
      ground (arith, send_file_loop-Calm fuel out_fd in_fd count minus_one t)

-- The ways to connect make no fault but for the reason given.
module _ (reason : Type 0) (env : Env) (watched : ℤ) where
  connect_tcp-Calm :
      (text : CString) (port : ℕ) (s : State)
      → (is_settable env s.socket ≡ true) ⊎ reason
      → Unless reason (connect_tcp text port env s) (Calm env watched s)
  unfolding connect_tcp select
  connect_tcp-Calm text port s h = elim (Bool-cases (is_settable env s.socket)) [
    | inl settable ↦ ground (arith, settable)
    | inr out_of_range ↦ elim h [ inl settable ↦ cc | inr r ↦ ground (arith, out_of_range, r) ]
  ]

  connect_udp-Calm :
      (text : CString) (port : ℕ) (s : State)
      → Unless reason (connect_udp text port env s) (Calm env watched s)
  unfolding connect_udp
  connect_udp-Calm text port s = ground arith

  connect_by_type-Calm :
      (t : SocketType) (text : CString) (port : ℕ) (s : State)
      → (is_settable env s.socket ≡ true) ⊎ reason
      → Unless reason (connect_by_type t text port env s) (Calm env watched s)
  unfolding connect_by_type
  connect_by_type-Calm SocketType.tcp text port s h = connect_tcp-Calm text port s h
  connect_by_type-Calm SocketType.udp text port s h = connect_udp-Calm text port s
  connect_by_type-Calm _ text port s h = ground arith

  pub open_to-Calm :
      (name : Option CString) (port : ℕ) (s : State)
      → (is_settable env s.socket ≡ true) ⊎ reason
      → Unless reason (open_to name port env s) (Calm env watched s)
  unfolding open_to note_addresses
  open_to-Calm none port s h = ground arith
  open_to-Calm (some text) port s h =
      ground (arith, connect_by_type-Calm s.socket_type text port s h)
