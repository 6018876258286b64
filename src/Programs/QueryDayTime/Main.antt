-- ===== src/Programs/QueryDayTime/Main.antt =====
-- `main` of examples/QueryDayTime.cpp, from its first call to its last.
use clsocket.Base.{
  ℕ, suc, ℤ, minus_one, ◌==ℤ◌, true, false, ◌≡◌, ◌≢◌, refl, ◌∙◌, Option, none, some, List, arith,
}
use clsocket.Net.{Bytes, Reply, Call, Env}
use clsocket.Socket.{SocketType, State, Outcome, fault, Ends, pure, branch, ◌>>=◌, ◌>>◌}
use clsocket.Socket.Steps.{after->>=, >>=-fault, Ends-map, Ends->>=}
use clsocket.Socket.Lifecycle.{initialize}
use clsocket.Socket.Receive.Memory.{IsSized}
use clsocket.Active.{open_to, destruct_active}
use clsocket.Programs.QueryDayTime.{time_server, ask_time, query_day_time}
use clsocket.Programs.QueryDayTime.Connection.{
  answer_trace, closed_trace, opened_trace, opened_errno, Serves, Stands, Created,
  initialize-Created, open_to-Stands,
}
use clsocket.Programs.QueryDayTime.Answer.{
  ask_time-refused, answered, Asks, Prints, ask_time-answered,
}

module _ (env : Env) (s : State) (fd : ℤ) (addr fuel : ℕ) (old : ℕ → ℕ)
    (x : Serves env s fd addr) where
  -- The object once its connection is open, and the calls that follow.
  abbrev Ready : State → Type 0
  Ready = Stands env s fd addr (opened_trace env s fd addr) (opened_errno env s fd addr)

  abbrev last_trace : List Call
  last_trace = closed_trace env s fd addr

  abbrev answer_reply : Reply
  answer_reply = env.reply (answer_trace env s fd addr)

  Ready-Asks : (v : State) → IsSized s.sock → Ready v → Asks env v
  Ready-Asks v sized p = record {
    open_handle = ground (arith, p.0, x.is_open);
    is_tcp = p.2;
    is_sized = rw (p.4, p.5) sized;
    leaves = rw (p.0, p.1) x.leaves;
    leaves_calmly = rw (p.0, p.1, p.6) x.leaves_calmly;
    fits = rw (p.0, p.1, p.3) x.fits;
    comes_calmly = rw (p.0, p.1, p.3, p.6) x.comes_calmly;
  }

  ask_time-Ready :
      (v : State)
      → IsSized s.sock
      → answer_reply.ret ≢ minus_one
      → (env.reply last_trace).ret ≢ minus_one
      → Ready v
      → Ends (ask_time (suc fuel) old env v) λ printed w.
        Prints old answer_reply.bytes printed × (w.trace ≡ last_trace) × (w.socket ≡ minus_one)
  ask_time-Ready v sized comes closes p =
      let same : answered v ≡ last_trace = rw (p.0, p.1, p.3) refl in
      let closed : ((env.reply last_trace).ret ==ℤ minus_one) ≡ false = ground (arith, closes) in
      Ends-map (ask_time (suc fuel) old env v)
        (ask_time-answered env fuel old v (Ready-Asks v sized p) (rw (p.0, p.1, p.3) comes))
        λ printed w q. (rw (p.0, p.1, p.3) at q.0, q.1 ∙ same, rw (same, closed) at q.2)

  destruct-Closed :
      (w : State) → w.socket ≡ minus_one → Ends (destruct_active env w) λ z t. t.trace ≡ w.trace
  unfolding destruct_active
  destruct-Closed w e = ground (arith, e)

  -- The program is what it does on an open connection, and its end.
  query_day_time-Ready :
      (R : Outcome (Option Bytes) → Type 0)
      → s.socket_type ≡ SocketType.tcp
      → ((v : State)
          → Ready v
          → R ((do printed ← ask_time (suc fuel) old; destruct_active; pure printed) env v))
      → R (query_day_time (suc fuel) old env s)
  unfolding query_day_time
  query_day_time-Ready R tcp k =
      after->>= (λ done u. Created env s fd addr u) R env s initialize
        (λ done. do
          opened ← open_to (some time_server) 13
          printed ← branch opened (ask_time (suc fuel) old) (pure none)
          destruct_active
          pure printed)
        (initialize-Created env s fd addr fuel x tcp)
        λ done u p.
          after->>= (λ done v. (done ≡ true) × Ready v) R env u (open_to (some time_server) 13)
            (λ opened. do
              printed ← branch opened (ask_time (suc fuel) old) (pure none)
              destruct_active
              pure printed)
            (open_to-Stands env s fd addr fuel x u p) λ done v q. rw q.0 (k v q.1)

  -- `main` of QueryDayTime on its TCP object, whose buffer has the size on record: when the kernel
  -- gives a handle, the server's name resolves to an address other than INADDR_NONE, connect(2)
  -- does not fail, the request leaves, the calls of send(2) and recv(2) leave no EINTR, recv(2)
  -- does not fail and brings no more than the 49 bytes it is asked for, and the handle can be
  -- closed, the program ends and prints, up to its first zero, a block of 49 bytes that begins with
  -- the bytes that came, however few they are, and behind them whatever stood in that memory where
  -- nothing was written; its calls are socket(2), gethostbyname(3), connect(2), the two that name
  -- the addresses, one send(2), one recv(2) and one close(2).
  pub query_day_time-answered :
      s.socket_type ≡ SocketType.tcp
      → IsSized s.sock
      → answer_reply.ret ≢ minus_one
      → (env.reply last_trace).ret ≢ minus_one
      → Ends
          (query_day_time (suc fuel) old env s)
          λ printed t. Prints old answer_reply.bytes printed × (t.trace ≡ last_trace)
  query_day_time-answered tcp sized comes closes =
      let Q : Option Bytes → State → Type 0 =
        λ printed t. Prints old answer_reply.bytes printed × (t.trace ≡ last_trace) in
      query_day_time-Ready (λ o. Ends o Q) tcp
        λ v p.
          Ends->>=
            (λ printed w.
              Prints old answer_reply.bytes printed
              × (w.trace ≡ last_trace)
              × (w.socket ≡ minus_one))
            Q env v (ask_time (suc fuel) old) (λ printed. destruct_active >> pure printed)
            (ask_time-Ready v sized comes closes p)
            λ printed w r.
              Ends->>= (λ z t. t.trace ≡ w.trace) Q env w destruct_active (λ z. pure printed)
                (destruct-Closed w r.2) λ z t e. (r.0, e ∙ r.1)

  -- `main` of QueryDayTime on its TCP object, whose buffer has the size on record: when the kernel
  -- gives a handle, the server's name resolves to an address other than INADDR_NONE, connect(2)
  -- does not fail, the request leaves, and send(2) and recv(2) leave no EINTR, if recv(2) fails,
  -- and brings no more than 49 bytes, then the program copies from a null pointer.
  pub query_day_time-refused :
      s.socket_type ≡ SocketType.tcp
      → IsSized s.sock
      → answer_reply.ret ≡ minus_one
      → query_day_time (suc fuel) old env s ≡ fault
  query_day_time-refused tcp sized failed =
      query_day_time-Ready (λ o. o ≡ fault) tcp
        λ v p.
          >>=-fault env v (ask_time (suc fuel) old) (λ printed. destruct_active >> pure printed)
            (ask_time-refused env fuel old v (Ready-Asks v sized p) (rw (p.0, p.1, p.3) failed))
