-- ===== src/History/Owning.antt =====
-- The methods that open and close handles as steps: `Initialize` and `Close` of src/SimpleSocket.cpp,
-- `Listen`, `BindMulticast` and `Accept` of src/PassiveSocket.cpp.
use clsocket.Base.{
  ℕ, zero, suc, ◌+◌, ◌≤◌, ℤ, ◌==ℤ◌, ◌&&◌, true, false, Option, none, some, [], ◌∷◌, if◌then◌else◌,
  inl, inr, Bool-cases, arith,
}
use clsocket.Net.{Env, CString}
use clsocket.Timer.{set_start_time, initialize as initialize_timer}
use clsocket.Error.{SocketError, is_interrupted, is_success}
use clsocket.Socket.{
  SocketType, SimpleSocket, State, Op, Outcome, returned, exhausted, fault, ◌>>◌, branch, pure, on,
  end_timer, is_valid_handle,
}
use clsocket.Socket.Lifecycle.{initialize, close}
use clsocket.Socket.Receive.Memory.{IsSized}
use clsocket.Active.{construct_active, destruct_active}
use clsocket.Passive.{
  is_tcp, attempt_listen, close_keeping_error, listen, bind_multicast, accept_round, accept_loop,
  accept,
}
use clsocket.Passive.Multicast.{local_address_lem}
use clsocket.History.{Unless, After, Lands}
use clsocket.History.Calm.{Calm, opened, closed}
use clsocket.History.Outcomes.{After-map, Unless-map, Lands->>=}
use clsocket.History.Buffers.{Tame}

-- Whether an object holds this handle, as a number.
abbrev pub held : ℤ → SimpleSocket → ℕ
held watched s = if is_valid_handle s && s.socket ==ℤ watched then 1 else 0

-- The buffer has its size on record, and what has been closed, what the object holds and what the
-- rest of the program holds were opened.
abbrev pub Kept : Env → ℤ → ℕ → State → Type 0
Kept env watched rest s =
    IsSized s.sock
    × (closed env watched s.trace + (held watched s.sock + rest) ≤ opened env watched s.trace)

pub Calm-Kept :
    {A : Type 0} (reason : Type 0) (env : Env) (watched : ℤ) (rest : ℕ) (s : State) (o : Outcome A)
    → Unless reason o (Calm env watched s)
    → Kept env watched rest s
    → Unless reason o (Kept env watched rest)
Calm-Kept reason env watched rest s o h k = Unless-map reason o h λ t p. ground (arith, p, k)

module _ (env : Env) (watched : ℤ) (rest : ℕ) where
  pub Tame-Kept :
      {A : Type 0} (s : State) (o : Outcome A)
      → After o (Tame env watched s)
      → Kept env watched rest s
      → After o (Kept env watched rest)
  Tame-Kept s o h k = After-map o h λ t p. (p.1 k.0, ground (arith, p.0, p.2, p.3, k.1))

  pub close-Kept :
      (s : State) → Kept env watched rest s → Lands (close env s) (Kept env watched rest)
  unfolding close
  close-Kept s k = ground (arith, k)

  pub initialize-Kept :
      (s : State) → Kept env watched rest s → Lands (initialize env s) (Kept env watched rest)
  unfolding initialize
  initialize-Kept s k = ground (arith, k)

  close_keeping_error-Kept :
      (s : State)
      → Kept env watched rest s
      → Lands (close_keeping_error env s) (Kept env watched rest)
  unfolding close_keeping_error close
  close_keeping_error-Kept s k = ground (arith, k)

  attempt_listen-Calm :
      (addr : Option CString) (port : ℕ) (backlog : ℤ) (s : State)
      → Lands (attempt_listen addr port backlog env s) (Calm env watched s)
  unfolding attempt_listen
  attempt_listen-Calm none port backlog s = ground arith
  attempt_listen-Calm (some []) port backlog s = ground arith
  attempt_listen-Calm (some (c ∷ text)) port backlog s = ground arith

  pub listen-Kept :
      (addr : Option CString) (port : ℕ) (backlog : ℤ) (s : State)
      → Kept env watched rest s
      → Lands (listen addr port backlog env s) (Kept env watched rest)
  unfolding listen
  listen-Kept addr port backlog s k =
      Lands->>= (Kept env watched rest) (Kept env watched rest) env s
        (attempt_listen addr port backlog)
        (λ listening. branch listening (pure true) (do close_keeping_error; pure false))
        (Calm-Kept ⊥ env watched rest s _ (attempt_listen-Calm addr port backlog s) k)
        λ listening t p. ground (arith, p, close_keeping_error-Kept t p)

  pub bind_multicast-Kept :
      (interface : Option CString) (group : CString) (port : ℕ) (s : State)
      → Kept env watched rest s
      → Lands (bind_multicast interface group port env s) (Kept env watched rest)
  unfolding bind_multicast close
  bind_multicast-Kept interface group port s k =
      ground (arith, k, local_address_lem env s interface)

  -- While `Accept` works: the new object may hold a handle too.
  abbrev pub Pending : SimpleSocket → State → Type 0
  Pending client s =
      IsSized s.sock
      × IsSized client
      × (closed env watched s.trace + (held watched s.sock + held watched client + rest)
          ≤ opened env watched s.trace)

  abbrev Accepted : Outcome (SimpleSocket × SocketError) → Type 0
  Accepted (returned (client, e) s) = Pending client s
  Accepted (exhausted s) = Unit {0}
  Accepted fault = ⊥

  accept_round-Accepted :
      (client : SimpleSocket) (s : State) → Pending client s → Accepted (accept_round client env s)
  unfolding accept_round
  accept_round-Accepted client s p = ground (arith, p)

  -- What follows the loop has its result to work on.
  Accepted-then :
      {B : Type 0} (Q : Outcome B → Type 0) (f : SimpleSocket × SocketError → Op B)
      (o : Outcome (SimpleSocket × SocketError))
      → Accepted o
      → ((t : State) → Q (exhausted t))
      → ((a : SimpleSocket × SocketError) (t : State) → Pending a.0 t → Q (f a env t))
      → Q (elim o [ returned a t ↦ f a env t | exhausted t ↦ exhausted t | fault ↦ fault ])
  Accepted-then Q f (returned a t) p spent go = go a t p
  Accepted-then Q f (exhausted t) p spent go = spent t
  Accepted-then Q f fault p spent go = absurd p

  accept_loop-Accepted :
      (fuel : ℕ) (client : SimpleSocket) (s : State)
      → Pending client s
      → Accepted (accept_loop fuel client env s)
  unfolding accept_loop
  accept_loop-Accepted zero client s p = tt
  accept_loop-Accepted (suc fuel) client s p =
      Accepted-then Accepted
        (λ a. branch (is_interrupted a.1) (accept_loop fuel a.0) (pure (a.0, a.1)))
        (accept_round client env s) (accept_round-Accepted client s p) (λ t. tt)
        λ a t q. ground (arith, q, accept_loop-Accepted fuel a.0 t q)

  -- The outcome of `Accept`: the new object, or none.
  abbrev pub Given : Outcome (Option SimpleSocket) → Type 0
  Given (returned none s) = Kept env watched rest s
  Given (returned (some client) s) = Pending client s
  Given (exhausted s) = Unit {0}
  Given fault = ⊥

  -- `delete` of the new object closes what it holds.
  settle-Given :
      (a : SimpleSocket × SocketError) (t : State)
      → Pending a.0 t
      → Given (
          (do
            end_timer
            branch (is_success a.1) (pure (some a.0)) (do on a.0 destruct_active; pure none))
            env t)
  unfolding destruct_active
  settle-Given a t q = ground (arith, q)

  pub accept-Given :
      (fuel : ℕ) (memory : SimpleSocket) (s : State)
      → Kept env watched rest s
      → Given (accept fuel memory env s)
  unfolding accept construct_active
  accept-Given fuel memory s k =
      let client = construct_active memory SocketType.tcp in
      let t : State = record s {
        sock = record s.sock {
          timer = set_start_time (env.clock s.ticks) (initialize_timer s.timer);
        };
        ticks = suc s.ticks;
      } in
      elim (Bool-cases (is_tcp s.socket_type)) [
        | inl tcp ↦ rw tcp (
            Accepted-then Given
              (λ a. do
                end_timer
                branch (is_success a.1) (pure (some a.0)) (do on a.0 destruct_active; pure none))
              (accept_loop fuel client env t)
              (accept_loop-Accepted fuel client t (ground (arith, k))) (λ u. tt) settle-Given)
        | inr other ↦ rw other (ground (arith, k))
      ]

  Given-Kept : (o : Outcome (Option SimpleSocket)) → Given o → Lands o (Kept env watched rest)
  Given-Kept (returned none s) h = h
  Given-Kept (returned (some client) s) h = (h.0, omega (arith, h.2))
  Given-Kept (exhausted s) h = tt
  Given-Kept fault h = absurd h

  pub accept-Kept :
      (fuel : ℕ) (memory : SimpleSocket) (s : State)
      → Kept env watched rest s
      → Lands (accept fuel memory env s) (Kept env watched rest)
  accept-Kept fuel memory s k = Given-Kept (accept fuel memory env s) (accept-Given fuel memory s k)
