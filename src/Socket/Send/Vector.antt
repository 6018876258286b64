-- ===== src/Socket/Send/Vector.antt =====
-- `Writev` of src/SimpleSocket.cpp: its total, whatever the class's own `Send` returns.
use clsocket.Base.{
  ℕ, ◌+◌, ℤ, pos, minus_one, ◌==ℤ◌, ◌+ℤ◌, false, ◌≡◌, sym, List, [], ◌∷◌, if◌then◌else◌, inl, inr,
  Bool-cases, some, ltb, arith,
}
use clsocket.Net.{Env, Call, SockOpt, OptLen, OptValue}
use clsocket.Socket.{State, Ends, or_else, ◌>>◌, branch, pure}
use clsocket.Socket.Steps.{Ends->>=}
use clsocket.Socket.Send.{Pointer, SendMethod, flush, writev_loop, writev}

-- The method always returns, and what it returns depends on its arguments alone.
abbrev pub Returns : SendMethod → (Pointer → ℕ → ℤ) → Env → Type 0
Returns send_method result env =
    (base : Pointer) (len : ℕ) (s : State)
    → Ends (send_method base len env s) λ n s'. n ≡ result base len

-- The results of the elements before the first that fails, added up.
abbrev pub sum_sent : (Pointer → ℕ → ℤ) → List (Pointer × ℕ) → ℤ
sum_sent result [] = pos 0
sum_sent result ((base, len) ∷ vector) =
    if result base len ==ℤ minus_one then pos 0 else result base len +ℤ sum_sent result vector

add_zero : (a : ℤ) → a +ℤ pos 0 ≡ a
unfolding ◌+ℤ◌
add_zero a = ground arith

zero_add : (a : ℤ) → pos 0 +ℤ a ≡ a
unfolding ◌+ℤ◌
zero_add a = ground arith

add_assoc : (a b c : ℤ) → (a +ℤ b) +ℤ c ≡ a +ℤ (b +ℤ c)
unfolding ◌+ℤ◌
add_assoc a b c = ground arith

module _ (send_method : SendMethod) (result : Pointer → ℕ → ℤ) (env : Env)
    (h : Returns send_method result env) where
  writev_loop_lem :
      (vector : List (Pointer × ℕ)) (total : ℤ) (i : ℕ) (s : State)
      → Ends
          (writev_loop send_method vector total i env s)
          λ p s'. p.0 ≡ total +ℤ sum_sent result vector
  unfolding writev_loop
  writev_loop_lem [] total i s = sym (add_zero total)
  writev_loop_lem ((base, len) ∷ vector) total i s =
      Ends->>= (λ n s'. n ≡ result base len)
        (λ p s'. p.0 ≡ total +ℤ sum_sent result ((base, len) ∷ vector)) env s (send_method base len)
        (λ n.
          branch (n ==ℤ minus_one) (pure (total, i))
            (writev_loop send_method vector (total +ℤ n) (i + 1)))
        (h base len s)
        λ n t e. elim (Bool-cases (result base len ==ℤ minus_one)) [
          | inl failed ↦ rw (e, failed) (sym (add_zero total))
          | inr went ↦
              rw (e, went)
                (rw (sym (add_assoc total (result base len) (sum_sent result vector)))
                  (writev_loop_lem vector (total +ℤ result base len) (i + 1) t))
        ]

  flush-Ends : (s : State) → Ends (flush send_method env s) λ done s'. Unit {0}
  unfolding flush
  flush-Ends s =
      let get = Call.getsockopt s.socket SockOpt.tcp_nodelay (OptLen.cast_integer 4) in
      let set = Call.setsockopt s.socket SockOpt.tcp_nodelay (OptValue.int_value (pos 1)) in
      let t : State = record s {
        trace = set ∷ get ∷ s.trace;
        errno =
            or_else (env.reply (set ∷ get ∷ s.trace)).errno
              (or_else (env.reply (get ∷ s.trace)).errno s.errno);
      } in
      ground (arith, h (some (0 ∷ [])) 0 t)

  -- If the class's own `Send` always returns a result that depends on its arguments alone, `writev`
  -- returns the sum of the results of the elements before the first that gives -1.
  writev_sum :
      (vector : List (Pointer × ℕ)) (s : State)
      → Ends (writev send_method vector env s) λ n s'. n ≡ sum_sent result vector
  unfolding writev
  writev_sum vector s =
      Ends->>= (λ p s'. p.0 ≡ pos 0 +ℤ sum_sent result vector) (λ n s'. n ≡ sum_sent result vector)
        env s (writev_loop send_method vector (pos 0) 0)
        (λ p. branch (ltb 0 p.1) (flush send_method) (pure false) >> pure p.0)
        (writev_loop_lem vector (pos 0) 0 s)
        λ p t e. ground (arith, flush-Ends t, zero_add (sum_sent result vector))
