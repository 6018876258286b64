-- ===== src/History/Moves.antt =====
-- The methods of the three classes that send, select and shut down, as steps.
use clsocket.Base.{
  ℕ, zero, suc, ◌+◌, ℤ, pos, minus_one, ◌+ℤ◌, ◌==ℤ◌, Bool, true, false, none, some, length, ◌≤◌,
  ◌⊎◌, ◌≡◌, refl, List, [], ◌∷◌, inl, inr, ltb, Bool-cases, ◌&&◌, arith,
}
use clsocket.Net.{ShutdownMode, SockOpt, OptLen, OptValue, Call, Env, Bytes}
use clsocket.Socket.{
  SocketType, State, Op, ◌>>=◌, ◌>>◌, gets, start_timer, end_timer, or_else, pure, branch, within,
  is_valid_handle,
}
use clsocket.Socket.Lifecycle.{is_not_null, shutdown}
use clsocket.Socket.Send.{
  Pointer, is_readable, send_loop, send_guarded, send_by_type, send, send_vector, flush, writev,
  writev_loop,
}
use clsocket.Socket.Send.Retry.{after_round}
use clsocket.Socket.Select.{is_settable, select}
use clsocket.History.{Unless, Lands}
use clsocket.History.Outcomes.{Unless-map, Unless->>=}
use clsocket.History.Calm.{Calm, opened, closed}
use clsocket.Socket.Send.Method.{cleared}

Calm-trans :
    (env : Env) (watched : ℤ) (s t u : State)
    → Calm env watched s t
    → Calm env watched t u
    → Calm env watched s u
Calm-trans env watched s t u p q = ground arith

-- A method that is calm anywhere is calm after a calm step.
pub Calm->>= :
    {A B : Type 0} (reason : Type 0) (env : Env) (watched : ℤ) (s : State) (m : Op A) (f : A → Op B)
    → Unless reason (m env s) (Calm env watched s)
    → ((a : A) (s' : State) → Unless reason (f a env s') (Calm env watched s'))
    → Unless reason ((m >>= f) env s) (Calm env watched s)
Calm->>= reason env watched s m f h k =
    Unless->>= reason (Calm env watched s) (Calm env watched s) env s m f h
      λ a s' p. Unless-map reason (f a env s') (k a s') λ u q. Calm-trans env watched s s' u p q

-- The bytes are there, or there is no pointer.
abbrev pub Readable : Pointer → ℕ → Type 0
Readable none n = Unit {0}
Readable (some block) n = n ≤ length block

abbrev pub AllReadable : List (Pointer × ℕ) → Type 0
AllReadable [] = Unit {0}
AllReadable ((base, len) ∷ v) = Readable base len × AllReadable v

module _ (env : Env) (watched : ℤ) where
  pub shutdown-Calm :
      (how : ShutdownMode) (s : State) → Lands (shutdown how env s) (Calm env watched s)
  unfolding shutdown
  shutdown-Calm how s = ground arith

  pub send_vector-Calm :
      (v : List Bytes) (s : State) → Lands (send_vector v env s) (Calm env watched s)
  unfolding send_vector
  send_vector-Calm v s = ground arith

-- The methods that make no fault but for the reason given.
module _ (reason : Type 0) (env : Env) (watched : ℤ) where
  pub select-Calm :
      (sec usec : ℤ) (s : State)
      → (is_settable env s.socket ≡ true) ⊎ reason
      → Unless reason (select sec usec env s) (Calm env watched s)
  unfolding select
  select-Calm sec usec s h = elim (Bool-cases (is_settable env s.socket)) [
    | inl settable ↦ ground (arith, settable)
    | inr out_of_range ↦ elim h [ inl settable ↦ cc | inr r ↦ ground (arith, out_of_range, r) ]
  ]

  -- A call that opens and closes nothing, at whatever point it is made.
  abbrev Harmless : Call → Type 0
  Harmless c =
      (cs : List Call)
      → (opened env watched (c ∷ cs) ≡ opened env watched cs)
        × (closed env watched (c ∷ cs) ≡ closed env watched cs)

  send_loop-Calm :
      (fuel : ℕ) (c : Call) (s : State)
      → Harmless c
      → Unless reason (send_loop fuel c env s) (Calm env watched s)
  unfolding send_loop
  send_loop-Calm zero c s h = tt
  send_loop-Calm (suc fuel) c s h =
      ground (arith, h s.trace, send_loop-Calm fuel c (after_round env c s) h)

  -- What `Send` does once its guards have let it.
  send_there-Calm :
      (fuel : ℕ) (there : Bool) (c : Call) (s : State)
      → Harmless c
      → (there ≡ true) ⊎ reason
      → Unless reason
          ((do within there; start_timer; send_loop fuel c; end_timer) env s)
          (Calm env watched s)
  send_there-Calm fuel true c s h r =
      Calm->>= reason env watched s start_timer (λ _. send_loop fuel c >> end_timer) (ground arith)
        λ _ t.
          Calm->>= reason env watched t (send_loop fuel c) (λ _. end_timer)
            (send_loop-Calm fuel c t h) λ _ u. ground arith
  send_there-Calm fuel false c s h (inl e) = cc
  send_there-Calm fuel false c s h (inr r) = r

  send_guarded-Calm :
      (fuel : ℕ) (given there : Bool) (c : Call) (s : State)
      → Harmless c
      → (given ≡ true → (there ≡ true) ⊎ reason)
      → Unless reason (send_guarded fuel given there c env s) (Calm env watched s)
  unfolding send_guarded
  send_guarded-Calm fuel given there c s h r = elim (Bool-cases (is_valid_handle s.sock && given)) [
    | inl going ↦ rw going (send_there-Calm fuel there c s h (r (ground (arith, going))))
    | inr refused ↦ rw refused (ground arith)
  ]

  -- The guards of `Send` let only a pointer through that is not null.
  pub there_lem :
      (buf : Pointer) (n : ℕ)
      → Readable buf n ⊎ reason
      → (ltb 0 n && is_not_null buf) ≡ true
      → (is_readable buf n ≡ true) ⊎ reason
  there_lem none n h e = absurd (ground (arith, e))
  there_lem (some block) n (inl h) e = inl (ground (arith, h))
  there_lem (some block) n (inr r) e = inr r

  send_by_type-Calm :
      (fuel : ℕ) (type : SocketType) (buf : Pointer) (n : ℕ) (s : State)
      → Readable buf n ⊎ reason
      → Unless reason (send_by_type fuel type buf n env s) (Calm env watched s)
  unfolding send_by_type
  send_by_type-Calm fuel SocketType.tcp buf n s h =
      send_guarded-Calm fuel _ _ _ s (λ cs. (refl, refl)) (there_lem buf n h)
  send_by_type-Calm fuel SocketType.udp buf n s h =
      send_guarded-Calm fuel _ _ _ s (λ cs. (refl, refl)) (there_lem buf n h)
  send_by_type-Calm fuel _ buf n s h = ground arith

  pub send-Calm :
      (fuel : ℕ) (buf : Pointer) (n : ℕ) (s : State)
      → Readable buf n ⊎ reason
      → Unless reason (send fuel buf n env s) (Calm env watched s)
  unfolding send
  send-Calm fuel buf n s h =
      Calm->>= reason env watched (cleared s) (send_by_type fuel s.socket_type buf n)
        (λ _. gets λ t. t.bytes_sent) (send_by_type-Calm fuel s.socket_type buf n (cleared s) h)
        λ _ u. ground arith

  pub flush-Calm :
      (fuel : ℕ) (s : State) → Unless reason (flush (send fuel) env s) (Calm env watched s)
  unfolding flush
  flush-Calm fuel s =
      let get = Call.getsockopt s.socket SockOpt.tcp_nodelay (OptLen.cast_integer 4) in
      let set = Call.setsockopt s.socket SockOpt.tcp_nodelay (OptValue.int_value (pos 1)) in
      let t : State = record s {
        trace = set ∷ get ∷ s.trace;
        errno =
            or_else (env.reply (set ∷ get ∷ s.trace)).errno
              (or_else (env.reply (get ∷ s.trace)).errno s.errno);
      } in
      ground (arith, send-Calm fuel (some (0 ∷ [])) 0 t (inl (omega arith)))

  -- What is left of the elements, where the first has been taken.
  rest-Readable :
      (base : Pointer) (len : ℕ) (v : List (Pointer × ℕ))
      → AllReadable ((base, len) ∷ v) ⊎ reason
      → (Readable base len ⊎ reason) × (AllReadable v ⊎ reason)
  rest-Readable base len v (inl h) = (inl h.0, inl h.1)
  rest-Readable base len v (inr r) = (inr r, inr r)

  writev_loop-Calm :
      (fuel : ℕ) (v : List (Pointer × ℕ)) (total : ℤ) (i : ℕ) (s : State)
      → AllReadable v ⊎ reason
      → Unless reason (writev_loop (send fuel) v total i env s) (Calm env watched s)
  unfolding writev_loop
  writev_loop-Calm fuel [] total i s h = ground arith
  writev_loop-Calm fuel ((base, len) ∷ v) total i s h =
      let p = rest-Readable base len v h in
      Calm->>= reason env watched s (send fuel base len)
        (λ n.
          branch (n ==ℤ minus_one) (pure (total, i))
            (writev_loop (send fuel) v (total +ℤ n) (i + 1)))
        (send-Calm fuel base len s p.0)
        λ n t. ground (arith, writev_loop-Calm fuel v (total +ℤ n) (i + 1) t p.1)

  pub writev-Calm :
      (fuel : ℕ) (v : List (Pointer × ℕ)) (s : State)
      → AllReadable v ⊎ reason
      → Unless reason (writev (send fuel) v env s) (Calm env watched s)
  unfolding writev
  writev-Calm fuel v s h =
      Calm->>= reason env watched s (writev_loop (send fuel) v (pos 0) 0)
        (λ p. branch (ltb 0 p.1) (flush (send fuel)) (pure false) >> pure p.0)
        (writev_loop-Calm fuel v (pos 0) 0 s h) λ p t. ground (arith, flush-Calm fuel t)
