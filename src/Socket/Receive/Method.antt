-- ===== src/Socket/Receive/Method.antt =====
-- `Receive` of src/SimpleSocket.cpp as a whole.
use clsocket.Base.{
  ℕ, suc, ◌≤◌, ℤ, pos, minus_one, ◌==ℤ◌, true, false, ◌≡◌, refl, ap, ◌∙◌, Option, none, some, List,
  ◌∷◌, ◌++◌, map, take, drop, length, length-append, take-append, length-drop, if◌then◌else◌, arith,
}
use clsocket.Net.{Call, Env, Bytes}
use clsocket.Error.{SocketError, translate_errno, is_interrupted}
use clsocket.Timer.{initialize, set_start_time}
use clsocket.Socket.{SocketType, Buffer, State, Ends, returned, is_valid_handle, or_else, ◌>>◌}
use clsocket.Socket.Steps.{>>-returned}
use clsocket.Socket.Receive.{Target, store, recv_round, recv_loop, receive_by_type, finish, receive}
use clsocket.Socket.Receive.Memory.{
  IsSized, prepared, length-prepared, prepare_lem, write_at_start, length-map-some,
}

-- The block begins with these bytes and has this length.
abbrev pub Holds : Bytes → ℕ → Option Buffer → Type 0
Holds bytes n none = ⊥
Holds bytes n (some block) = (take (length bytes) block ≡ map some bytes) × (length block ≡ n)

abbrev delivered : Bytes → Buffer → Buffer
delivered bytes block = map some bytes ++ drop (length bytes) block

store_start :
    (env : Env) (u : State) (offset : ℤ) (bytes : Bytes) (block : Buffer)
    → offset ≡ pos 0
    → u.buffer ≡ some block
    → length bytes ≤ length block
    → store Target.internal offset bytes env u
      ≡ returned tt (record u { sock = record u.sock { buffer = some (delivered bytes block) } })
unfolding store
store_start env u offset bytes block z e h = ground (arith, write_at_start bytes block h)

-- The state after one round that received at the start of the block.
abbrev pub received : Env → Call → Buffer → State → State
received env c block u =
    let r = env.reply (c ∷ u.trace) in
    record u {
      sock = record u.sock {
        buffer = some (delivered r.bytes block);
        bytes_received = r.ret;
        socket_errno = translate_errno (or_else r.errno u.errno);
      };
      trace = c ∷ u.trace;
      errno = or_else r.errno u.errno;
    }

recv_round_start :
    (env : Env) (max : ℤ) (u : State) (block : Buffer)
    → u.buffer ≡ some block
    → u.bytes_received ≡ pos 0
    → let c = Call.recv u.socket u.bytes_received max u.flags in
      length (env.reply (c ∷ u.trace)).bytes ≤ length block
      → recv_round Target.internal max env u ≡ returned tt (received env c block u)
unfolding recv_round
recv_round_start env max u block e z h =
    let c = Call.recv u.socket u.bytes_received max u.flags in
    let r = env.reply (c ∷ u.trace) in
    let u' : State = record u { trace = c ∷ u.trace; errno = or_else r.errno u.errno } in
    ground (arith, store_start env u' u.bytes_received r.bytes block z e h)

recv_loop_once :
    (env : Env) (fuel : ℕ) (max : ℤ) (u : State) (block : Buffer)
    → u.buffer ≡ some block
    → u.bytes_received ≡ pos 0
    → let c = Call.recv u.socket u.bytes_received max u.flags in
      let r = env.reply (c ∷ u.trace) in
      length r.bytes ≤ length block
      → is_interrupted (translate_errno (or_else r.errno u.errno)) ≡ false
      → recv_loop (suc fuel) Target.internal max env u ≡ returned tt (received env c block u)
unfolding recv_loop
recv_loop_once env fuel max u block e z h calm =
    ground (arith, recv_round_start env max u block e z h)

-- The state in which the switch of `Receive` starts, with a buffer of the size asked for.
abbrev pub receiving : Env → ℕ → State → State
receiving env n s = record s {
  sock = record s.sock {
    buffer = some (prepared s.buffer n);
    buffer_size = pos n;
    bytes_received = pos 0;
    socket_errno = SocketError.success;
    timer = set_start_time (env.clock s.ticks) (initialize s.timer);
  };
  ticks = suc s.ticks;
}

pub receive-switch :
    (env : Env) (fuel n : ℕ) (s : State)
    → IsSized s.sock
    → is_valid_handle s.sock ≡ true
    → receive fuel (pos n) Target.internal env s
      ≡ (receive_by_type fuel s.socket_type Target.internal (pos n) >> finish) env
          (receiving env n s)
unfolding receive
receive-switch env fuel n s sized valid =
    let s0 : State = record s { sock = record s.sock { bytes_received = pos 0 } } in
    ground (arith, prepare_lem env s0 n s.buffer refl sized)

delivered-Holds :
    (bytes : Bytes) (n : ℕ) (block : Buffer)
    → length bytes ≤ n
    → length block ≡ n
    → Holds bytes n (some (delivered bytes block))
delivered-Holds bytes n block h e = (
  rw (length-map-some bytes) at (take-append (map some bytes) (drop (length bytes) block)),
  omega (
    arith,
    length-append (map some bytes) (drop (length bytes) block),
    length-map-some bytes,
    length-drop (length bytes) block,
  ),
)

-- The calls once the first recv(2) of `Receive` has been made.
abbrev pub recv_trace : ℕ → State → List Call
recv_trace n s = Call.recv s.socket (pos 0) (pos n) s.flags ∷ s.trace

module _ (env : Env) (fuel n : ℕ) (s : State) where
  -- On a valid TCP socket whose buffer has the size it records, `receive` into the internal buffer
  -- whose first recv(2) is not interrupted makes that one call with the bytes asked for, returns
  -- and stores its result and the translation of errno, and leaves either no buffer, if the call
  -- failed, or a buffer of the size asked for that begins with the bytes that came; the handle, the
  -- type, the server's address and the flags stay, the size on record is the one asked for, and
  -- errno is the call's, or the one before.
  pub receive_once :
      IsSized s.sock
      → is_valid_handle s.sock ≡ true
      → s.socket_type ≡ SocketType.tcp
      → let r = env.reply (recv_trace n s) in
        length r.bytes ≤ n
        → is_interrupted (translate_errno (or_else r.errno s.errno)) ≡ false
        → Ends (receive (suc fuel) (pos n) Target.internal env s) λ got s'.
          (got ≡ r.ret)
          × (s'.trace ≡ recv_trace n s)
          × (s'.bytes_received ≡ r.ret)
          × (s'.socket_errno ≡ translate_errno (or_else r.errno s.errno))
          × (if r.ret ==ℤ minus_one then s'.buffer ≡ none else Holds r.bytes n s'.buffer)
          × (s'.socket ≡ s.socket)
          × (s'.socket_type ≡ s.socket_type)
          × (s'.server_sockaddr ≡ s.server_sockaddr)
          × (s'.errno ≡ or_else r.errno s.errno)
          × (s'.flags ≡ s.flags)
          × (s'.buffer_size ≡ pos n)
  unfolding receive_by_type finish
  receive_once sized valid tcp fits calm =
      let u = receiving env n s in
      let block = prepared s.buffer n in
      let e = length-prepared s.buffer n in
      let looped =
        ap (λ t. receive_by_type (suc fuel) t Target.internal (pos n) env u) tcp
        ∙ recv_loop_once env fuel (pos n) u block refl refl (rw e fits) calm in
      rw
        (
          receive-switch env (suc fuel) n s sized valid,
          >>-returned env u (received env (Call.recv s.socket (pos 0) (pos n) s.flags) block u) tt _
              finish looped,
        )
        (ground (arith, delivered-Holds (env.reply (recv_trace n s)).bytes n block fits e))
