-- ===== src/Socket/Send/Method.antt =====
-- `Send` of src/SimpleSocket.cpp as a whole: with its guards, its loop and its result.
use clsocket.Base.{
  ℕ, suc, ◌<◌, ◌≤◌, leb, length, ℤ, pos, true, false, ◌≡◌, ◌⊎◌, refl, ap, Option, none, some, [],
  ◌∷◌, ◌++◌, arith, replicate, take, lt→ltb,
}
use clsocket.Net.{Errno, Call, Env, Bytes, SockAddr}
use clsocket.Socket.Steps.{>>-returned, >>-same}
use clsocket.Timer.{initialize, set_start_time, set_end_time}
use clsocket.Error.{SocketError}
use clsocket.Socket.{
  or_else, SocketType, State, Ends, returned, ◌>>◌, gets, start_timer, end_timer, is_valid_handle,
}
use clsocket.Socket.Send.{send_loop, send_by_type, send}
use clsocket.Socket.Send.Retry.{
  Interrupts, SuccessKeepsErrno, Accepts, Spins, Spins->>, rounds, send_loop_ends,
  send_loop_interrupted, rounds_lem, Unsent, rounds-Unsent,
}

-- The system call of `Send` on this object, if its type has one.
abbrev pub message : SocketType → ℤ → SockAddr → Bytes → ℕ → Option Call
message SocketType.tcp fd server bytes n = some (Call.send fd (take n bytes))
message SocketType.udp fd server bytes n = some (Call.sendto fd (take n bytes) server)
message _ fd server bytes n = none

-- The state in which the loop starts.
abbrev pub sending : Env → State → State
sending env s = record s {
  sock = record s.sock {
    socket_errno = SocketError.success;
    bytes_sent = pos 0;
    timer = set_start_time (env.clock s.ticks) (initialize s.timer);
  };
  ticks = suc s.ticks;
}

module _ (env : Env) (c : Call) (fuel n : ℕ) (bytes : Bytes) (s : State) where
  -- Behind the guards `Send` is its loop, between two readings of the clock.
  abbrev stopped : State → State
  stopped u = record u {
    sock = record u.sock { timer = set_end_time (env.clock u.ticks) u.timer };
    ticks = suc u.ticks;
  }

  same :
      {d : Call}
      → some d ≡ some c
      → (start_timer >> send_loop fuel d >> end_timer) env s
        ≡ ((start_timer >> send_loop fuel c >> end_timer) env s)
  same {d} e =
      let p : d ≡ c = cc in ap (λ b. (start_timer >> send_loop fuel b >> end_timer) env s) p

  send_by_type-loop :
      (t : SocketType)
      → message t s.socket s.server_sockaddr bytes n ≡ some c
      → is_valid_handle s.sock ≡ true
      → 0 < n
      → n ≤ length bytes
      → send_by_type fuel t (some bytes) n env s
        ≡ ((start_timer >> send_loop fuel c >> end_timer) env s)
  unfolding send_by_type
  send_by_type-loop SocketType.tcp e v h r =
      let there : leb n (length bytes) ≡ true = ground arith in rw (v, lt→ltb 0 n h, there) (same e)
  send_by_type-loop SocketType.udp e v h r =
      let there : leb n (length bytes) ≡ true = ground arith in rw (v, lt→ltb 0 n h, there) (same e)
  send_by_type-loop _ e v h r = cc

-- The object once `Send` has cleared the last result.
abbrev pub cleared : State → State
cleared s = record s {
  sock = record s.sock { socket_errno = SocketError.success; bytes_sent = pos 0 };
}

send-loop :
    (env : Env) (c : Call) (fuel n : ℕ) (bytes : Bytes) (s : State)
    → message s.socket_type s.socket s.server_sockaddr bytes n ≡ some c
    → is_valid_handle s.sock ≡ true
    → 0 < n
    → n ≤ length bytes
    → send fuel (some bytes) n env s
      ≡ ((send_loop fuel c >> end_timer >> gets λ t. t.bytes_sent) env (sending env s))
unfolding send
send-loop env c fuel n bytes s e v h r =
    >>-same env (cleared s) (cleared s) (send_by_type fuel s.socket_type (some bytes) n)
      (start_timer >> send_loop fuel c >> end_timer) (gets λ t. t.bytes_sent)
      (send_by_type-loop env c fuel n bytes (cleared s) s.socket_type e v h r)

-- On a valid handle of type TCP or UDP, with a buffer that has the positive length given, `send`
-- ends if its first k calls of the kernel leave the error at interrupted and the next one does not:
-- given more than k rounds of fuel it makes the same call of send(2) or sendto(2) k + 1 times, and
-- returns and stores what the last of them returned; it keeps the handle, the type, the flags and
-- the buffer, and errno is the last call's, or what the calls before left.
pub send_ends :
    (env : Env) (c : Call) (fuel k n : ℕ) (bytes : Bytes) (s : State)
    → message s.socket_type s.socket s.server_sockaddr bytes n ≡ some c
    → is_valid_handle s.sock ≡ true
    → 0 < n
    → n ≤ length bytes
    → k < fuel
    → Interrupts env c k (sending env s)
    → let cs = replicate (suc k) c ++ s.trace in
      Ends (send fuel (some bytes) n env s) λ sent s'.
        (s'.trace ≡ cs)
        × (sent ≡ (env.reply cs).ret)
        × (s'.bytes_sent ≡ sent)
        × Unsent s s'
        × (s'.errno ≡ or_else (env.reply cs).errno (rounds env c k (sending env s)).errno)
send_ends env c fuel k n bytes s e v h r lt i =
    let u = rounds env c (suc k) (sending env s) in
    let ended = send_loop_ends env c fuel k (sending env s) lt i in
    rw
      (
        send-loop env c fuel n bytes s e v h r,
        >>-returned env (sending env s) _ tt _ _
            (>>-returned env (sending env s) u tt (send_loop fuel c) end_timer ended),
      )
      (
        (rounds_lem env c (suc k) (sending env s)).0,
        (rounds_lem env c k (sending env s)).1,
        refl,
        rounds-Unsent env c (suc k) (sending env s),
        (rounds_lem env c k (sending env s)).2,
      )

-- If calls that succeed leave errno alone, the first call of `send` on a valid TCP or UDP handle,
-- with a buffer that has the positive length given, is interrupted, and every later one is
-- accepted, then `send` does not return with any fuel: it makes the same call again in every round
-- and errno stays EINTR.
pub send_interrupted_stuck :
    (env : Env) (c : Call) (fuel n : ℕ) (bytes : Bytes) (s : State)
    → message s.socket_type s.socket s.server_sockaddr bytes n ≡ some c
    → is_valid_handle s.sock ≡ true
    → 0 < n
    → n ≤ length bytes
    → SuccessKeepsErrno env
    → (env.reply (c ∷ s.trace)).errno ≡ some Errno.eintr
    → Accepts env c (c ∷ s.trace)
    → Spins (replicate (suc fuel) c ++ s.trace) (send (suc fuel) (some bytes) n env s)
send_interrupted_stuck env c fuel n bytes s e v h r keeps eintr accepts =
    let spins = send_loop_interrupted env c fuel (sending env s) keeps eintr accepts in
    rw (send-loop env c (suc fuel) n bytes s e v h r) (
      Spins->> _ env (sending env s) (send_loop (suc fuel) c >> end_timer) (gets λ t. t.bytes_sent)
        (Spins->> _ env (sending env s) (send_loop (suc fuel) c) end_timer spins))

-- Why `Send` would not send: the guards of the source, and a type with no case.
abbrev pub Refuses : State → Option Bytes → ℕ → Type 0
Refuses s buf n =
    (is_valid_handle s.sock ≡ false)
    ⊎ (n ≡ 0)
    ⊎ (buf ≡ none)
    ⊎ (message s.socket_type s.socket s.server_sockaddr [] n ≡ none)

send_by_type-refused :
    (env : Env) (fuel n : ℕ) (buf : Option Bytes) (s : State) (t : SocketType)
    → ((is_valid_handle s.sock ≡ false)
        ⊎ (n ≡ 0)
        ⊎ (buf ≡ none)
        ⊎ (message t s.socket s.server_sockaddr [] n ≡ none))
    → send_by_type fuel t buf n env s ≡ returned tt s
unfolding send_by_type
send_by_type-refused env fuel n buf s SocketType.tcp h = ground arith
send_by_type-refused env fuel n buf s SocketType.udp h = ground arith
send_by_type-refused env fuel n buf s _ h = refl

-- `send` with an invalid handle, a length of 0, no buffer, or a type other than TCP and UDP returns
-- 0 without a call of the kernel, with the error success and the count at 0.
pub send_refused :
    (env : Env) (fuel n : ℕ) (buf : Option Bytes) (s : State)
    → Refuses s buf n
    → send fuel buf n env s ≡ returned (pos 0) (cleared s)
unfolding send
send_refused env fuel n buf s h =
    >>-returned env (cleared s) (cleared s) tt (send_by_type fuel s.socket_type buf n)
      (gets λ t. t.bytes_sent) (send_by_type-refused env fuel n buf (cleared s) s.socket_type h)
