-- ===== src/Programs/RecvAsync/Stuck.antt =====
-- The loop of the server thread of examples/RecvAsync.cpp once its client has gone.
use clsocket.Base.{
  Bool, ℕ, zero, suc, ◌≤◌, ℤ, pos, minus_one, ◌==ℤ◌, ◌+ℤ◌, not, ◌≡◌, ◌≢◌, refl, sym, ap, subst, ◌∙◌,
  none, List, [], ◌∷◌, length, true, false, inl, inr, arith,
}
use clsocket.Net.{CString, Call, Env}
use clsocket.Socket.{SocketType, State, Ends, is_valid_handle, when, pure, ◌>>◌}
use clsocket.Socket.Steps.{Ends-map, >>-returned}
use clsocket.Socket.Receive.{Target, receive}
use clsocket.Socket.Receive.Memory.{IsSized}
use clsocket.Socket.Receive.Method.{recv_trace, receive_once}
use clsocket.Socket.Send.Method.{cleared, send_refused}
use clsocket.Passive.Retry.{waited}
use clsocket.Programs.{send_back, read_block, to_size}
use clsocket.Programs.Steps.{Spends, Spends-map, Spends->>=}
use clsocket.Programs.Chunk.{IsCalm}
use clsocket.Programs.RecvAsync.{echo_loop}
use clsocket.Programs.RecvAsync.Server.{Holds-Sized, thread_data}

-- The peer has closed its end: each recv(2) gives 0, and no byte.
pub record PeerClosed (env : Env) (c : Call) : Type 0 where
  pub ends_of_file : (cs : List Call) → (env.reply (c ∷ cs)).ret ≡ pos 0
  pub brings_nothing : (cs : List Call) → (env.reply (c ∷ cs)).bytes ≡ []
  pub is_calm : (cs : List Call) → (env.reply (c ∷ cs)).errno ≡ none

add_none : (total : ℕ) (got : ℤ) → got ≡ pos 0 → pos total +ℤ got ≡ pos total
unfolding ◌+ℤ◌
add_none total got e = ground arith

module _ (env : Env) (fuel stale max : ℕ) where
  abbrev Waited : State → State → Type 0
  Waited s u =
      (u.trace ≡ Call.recv s.socket (pos 0) (pos max) s.flags ∷ s.trace)
      × (u.socket ≡ s.socket)
      × (u.flags ≡ s.flags)
      × (u.bytes_received ≡ pos 0)
      × IsSized u.sock
      × (u.socket_type ≡ SocketType.tcp)
      × IsCalm u.errno

  receive-PeerClosed :
      (s : State)
      → PeerClosed env (Call.recv s.socket (pos 0) (pos max) s.flags)
      → is_valid_handle s.sock ≡ true
      → IsSized s.sock
      → s.socket_type ≡ SocketType.tcp
      → IsCalm s.errno
      → Ends
          (receive (suc fuel) (pos max) Target.internal env s)
          λ got u. (got ≡ pos 0) × Waited s u
  receive-PeerClosed s gone valid sized tcp fine =
      let r = env.reply (recv_trace max s) in
      let nothing = gone.brings_nothing s.trace in
      let calm = gone.is_calm s.trace in
      let ret = gone.ends_of_file s.trace in
      let fits : length r.bytes ≤ max = rw nothing (omega arith) in
      let test : (r.ret ==ℤ minus_one) ≡ false = rw ret refl in
      Ends-map (receive (suc fuel) (pos max) Target.internal env s)
        (receive_once env fuel max s sized valid tcp fits (rw calm fine))
        λ got u p. (
          p.0 ∙ ret,
          (
            p.1,
            p.5,
            p.9,
            p.2 ∙ ret,
            Holds-Sized r.bytes max u.buffer u.buffer_size (rw test at p.4) p.10,
            p.6 ∙ tcp,
            rw (p.8, calm) fine,
          ),
        )

  -- The answer to nothing is not sent, and leaves the client as it was.
  abbrev Same : State → State → Type 0
  Same u v =
      (v.trace ≡ u.trace)
      × (v.socket ≡ u.socket)
      × (v.flags ≡ u.flags)
      × (v.buffer ≡ u.buffer)
      × (v.buffer_size ≡ u.buffer_size)
      × (v.socket_type ≡ u.socket_type)
      × (v.errno ≡ u.errno)

  answer-Same :
      (b : Bool) (u : State)
      → u.bytes_received ≡ pos 0
      → Ends (when b (do send_back (suc fuel) stale; pure tt) env u) λ z v. Same u v
  unfolding send_back
  answer-Same false u e = (refl, refl, refl, refl, refl, refl, refl)
  answer-Same true u e =
      let refused =
        send_refused env (suc fuel) (to_size u.bytes_received) (read_block stale u.buffer) u
          (inr (inl (ap to_size e))) in
      subst (λ o. Ends o λ z v. Same u v)
        (sym (>>-returned env u (cleared u) (pos 0) (send_back (suc fuel) stale) (pure tt) refused))
        (refl, refl, refl, refl, refl, refl, refl)

  -- When the client has closed its end before the whole payload came, so that each recv(2) on its
  -- valid TCP handle gives 0 and leaves errno alone, the loop of the server thread of RecvAsync
  -- does not end with any number of rounds: each round makes one recv(2), and nothing is sent.
  pub echo_loop_stuck :
      (addr : CString) (port rounds total size : ℕ) (s : State)
      → let c = Call.recv s.socket (pos 0) (pos max) s.flags in
        total ≢ size
        → PeerClosed env c
        → is_valid_handle s.sock ≡ true
        → IsSized s.sock
        → s.socket_type ≡ SocketType.tcp
        → IsCalm s.errno
        → Spends
            (echo_loop rounds (suc fuel) stale (thread_data addr port max size) (pos total) env s)
            λ s'. s'.trace ≡ waited c rounds s.trace
  unfolding echo_loop
  echo_loop_stuck addr port zero total size s ne gone valid sized tcp fine = refl
  echo_loop_stuck addr port (suc rounds) total size s ne gone valid sized tcp fine =
      let c = Call.recv s.socket (pos 0) (pos max) s.flags in
      let unfinished : (pos total ==ℤ pos size) ≡ false = ground (arith, ne) in
      let again = echo_loop rounds (suc fuel) stale (thread_data addr port max size) in
      let Q : State → Type 0 = λ s'. s'.trace ≡ waited c (suc rounds) s.trace in
      rw unfinished (
        Spends->>= (λ got u. (got ≡ pos 0) × Waited s u) Q env s
          (receive (suc fuel) (pos max) Target.internal)
          (λ n. do
            when (not (pos total +ℤ n ==ℤ pos 0)) (do send_back (suc fuel) stale; pure tt)
            again (pos total +ℤ n))
          (receive-PeerClosed s gone valid sized tcp fine)
          λ got u p.
            Spends->>= (λ z v. Same u v) Q env u
              (when (not (pos total +ℤ got ==ℤ pos 0)) (do send_back (suc fuel) stale; pure tt))
              (λ z. again (pos total +ℤ got))
              (answer-Same (not (pos total +ℤ got ==ℤ pos 0)) u p.1.3)
              λ z v q.
                let socket : v.socket ≡ s.socket = q.1 ∙ p.1.1 in
                let flags : v.flags ≡ s.flags = q.2 ∙ p.1.2 in
                let same_call : Call.recv v.socket (pos 0) (pos max) v.flags ≡ c = cc in
                let trace : v.trace ≡ c ∷ s.trace = q.0 ∙ p.1.0 in
                subst (λ t. Spends (again t env v) Q) (sym (add_none total got p.0))
                  (Spends-map (again (pos total) env v)
                    (echo_loop_stuck addr port rounds total size v ne
                      (subst (λ d. PeerClosed env d) (sym same_call) gone) (rw socket valid)
                      (rw (q.3, q.4) p.1.4) (q.5 ∙ p.1.5) (rw q.6 p.1.6))
                    λ s' e. e ∙ rw (same_call, trace) refl))
