-- ===== src/History/Running.antt =====
-- What every public method of the three classes keeps, one method after the other.
use clsocket.Base.{refl, ℕ, Bool, true, false, ◌≡◌, ℤ, subst, ◌⊎◌, inr}
use clsocket.Net.{Env}
use clsocket.Socket.{State, Op, ◌>>◌, pure}
use clsocket.Socket.Lifecycle
use clsocket.Socket.Lifecycle.{construct}
use clsocket.Socket.Send
use clsocket.Socket.Receive
use clsocket.Socket.SendFile
use clsocket.Socket.Select
use clsocket.Socket.Select.{is_settable}
use clsocket.Socket.Options
use clsocket.Active
use clsocket.Active.{destruct_active}
use clsocket.Passive.{destruct_passive}
use clsocket.Passive
use clsocket.History.{After, Lands, Unless, Method, run, Reaches, here, step}
use clsocket.History.Calm.{
  Calm, bind_interface-Calm, disable_nagle_algoritm-Calm, enable_nagle_algoritm-Calm,
  get_socket_dscp-Calm, get_window_size-Calm, set_blocking-Calm, set_multicast-Calm,
  set_nonblocking-Calm, set_option_linger-Calm, set_option_reuse_addr-Calm,
  set_receive_timeout-Calm, set_send_timeout-Calm, set_socket_dscp-Calm, set_window_size-Calm,
}
use clsocket.History.Outcomes.{After->>=, Unless->>=, Lands-Unless}
use clsocket.History.Answers.{passive_send-Calm}
use clsocket.History.Moves.{
  Readable, AllReadable, flush-Calm, select-Calm, send-Calm, send_vector-Calm, shutdown-Calm,
  writev-Calm,
}
use clsocket.History.Opening.{open_to-Calm, send_file-Calm}
use clsocket.History.Buffers.{receive-Tame}
use clsocket.History.Owning.{
  Kept, Calm-Kept, Tame-Kept, accept-Kept, bind_multicast-Kept, close-Kept, initialize-Kept,
  listen-Kept,
}

done :
    {A : Type 0} (reason : Type 0) (env : Env) (watched : ℤ) (rest : ℕ) (s : State) (m : Op A)
    → Unless reason (m env s) (Kept env watched rest)
    → Unless reason ((m >> pure tt) env s) (Kept env watched rest)
done reason env watched rest s m h =
    Unless->>= reason (Kept env watched rest) (Kept env watched rest) env s m (λ _. pure tt) h
      λ a t p. p

done_kept :
    {A : Type 0} (reason : Type 0) (env : Env) (watched : ℤ) (rest : ℕ) (s : State) (m : Op A)
    → Lands (m env s) (Kept env watched rest)
    → Unless reason ((m >> pure tt) env s) (Kept env watched rest)
done_kept reason env watched rest s m h =
    done reason env watched rest s m (Lands-Unless reason (Kept env watched rest) (m env s) h)

done_calm :
    {A : Type 0} (reason : Type 0) (env : Env) (watched : ℤ) (rest : ℕ) (s : State) (m : Op A)
    → Lands (m env s) (Calm env watched s)
    → Kept env watched rest s
    → Unless reason ((m >> pure tt) env s) (Kept env watched rest)
done_calm reason env watched rest s m h k =
    done_kept reason env watched rest s m (Calm-Kept ⊥ env watched rest s (m env s) h k)

-- Whether a method is `Receive`, the one that writes through a pointer.
abbrev pub is_receive : Method → Bool
is_receive (Method.receive fuel max_bytes target) = true
is_receive _ = false

-- What a method reads of the caller's memory and of its descriptor sets is there.
abbrev pub Reads : Env → State → Method → Type 0
Reads env s (Method.select sec usec) = is_settable env s.socket ≡ true
Reads env s (Method.open_to addr port) = is_settable env s.socket ≡ true
Reads env s (Method.send fuel buf n) = Readable buf n
Reads env s (Method.passive_send fuel buf n) = Readable buf n
Reads env s (Method.writev fuel vector) = AllReadable vector
Reads env s m = Unit {0}

pub run-Unless :
    (reason : Type 0) (env : Env) (watched : ℤ) (rest : ℕ) (m : Method)
    → is_receive m ≡ false
    → (s : State) → Kept env watched rest s
    → Reads env s m ⊎ reason
    → Unless reason (run m env s) (Kept env watched rest)
unfolding run
run-Unless reason env watched rest Method.initialize b s k h =
    done_kept reason env watched rest s Lifecycle.initialize (initialize-Kept env watched rest s k)
run-Unless reason env watched rest Method.close b s k h =
    done_kept reason env watched rest s Lifecycle.close (close-Kept env watched rest s k)
run-Unless reason env watched rest (Method.flush fuel) b s k h =
    done reason env watched rest s (Send.flush (Send.send fuel))
      (Calm-Kept reason env watched rest s _ (flush-Calm reason env watched fuel s) k)
run-Unless reason env watched rest (Method.shutdown how) b s k h =
    done_calm reason env watched rest s (Lifecycle.shutdown how) (shutdown-Calm env watched how s) k
run-Unless reason env watched rest (Method.select sec usec) b s k h =
    done reason env watched rest s (Select.select sec usec)
      (Calm-Kept reason env watched rest s _ (select-Calm reason env watched sec usec s h) k)
run-Unless reason env watched rest (Method.send fuel buf n) b s k h =
    done reason env watched rest s (Send.send fuel buf n)
      (Calm-Kept reason env watched rest s _ (send-Calm reason env watched fuel buf n s h) k)
run-Unless reason env watched rest (Method.passive_send fuel buf n) b s k h =
    done reason env watched rest s (Passive.passive_send fuel buf n) (
      Calm-Kept reason env watched rest s _ (passive_send-Calm reason env watched fuel buf n s h) k)
run-Unless reason env watched rest (Method.send_vector vector) b s k h =
    done_calm reason env watched rest s (Send.send_vector vector)
      (send_vector-Calm env watched vector s) k
run-Unless reason env watched rest (Method.writev fuel vector) b s k h =
    done reason env watched rest s (Send.writev (Send.send fuel) vector)
      (Calm-Kept reason env watched rest s _ (writev-Calm reason env watched fuel vector s h) k)
run-Unless reason env watched rest (Method.receive fuel max_bytes target) b s k h = cc
run-Unless reason env watched rest (Method.send_file fuel out_fd in_fd offset count) b s k h =
    done_calm reason env watched rest s (SendFile.send_file fuel out_fd in_fd offset count)
      (send_file-Calm env watched fuel out_fd in_fd offset count s) k
run-Unless reason env watched rest (Method.bind_interface interface) b s k h =
    done_calm reason env watched rest s (Options.bind_interface interface)
      (bind_interface-Calm env watched s interface) k
run-Unless reason env watched rest (Method.set_multicast enable ttl) b s k h =
    done_calm reason env watched rest s (Options.set_multicast enable ttl)
      (set_multicast-Calm env watched s enable ttl) k
run-Unless reason env watched rest (Method.set_socket_dscp dscp) b s k h =
    done_calm reason env watched rest s (Options.set_socket_dscp dscp)
      (set_socket_dscp-Calm env watched s dscp) k
run-Unless reason env watched rest Method.get_socket_dscp b s k h =
    done_calm reason env watched rest s Options.get_socket_dscp (get_socket_dscp-Calm env watched s)
      k
run-Unless reason env watched rest (Method.get_window_size opt) b s k h =
    done_calm reason env watched rest s (Options.get_window_size opt)
      (get_window_size-Calm env watched s opt) k
run-Unless reason env watched rest (Method.set_window_size opt size) b s k h =
    done_calm reason env watched rest s (Options.set_window_size opt size)
      (set_window_size-Calm env watched s opt size) k
run-Unless reason env watched rest Method.disable_nagle_algoritm b s k h =
    done_calm reason env watched rest s Options.disable_nagle_algoritm
      (disable_nagle_algoritm-Calm env watched s) k
run-Unless reason env watched rest Method.enable_nagle_algoritm b s k h =
    done_calm reason env watched rest s Options.enable_nagle_algoritm
      (enable_nagle_algoritm-Calm env watched s) k
run-Unless reason env watched rest (Method.set_receive_timeout sec usec) b s k h =
    done_calm reason env watched rest s (Options.set_receive_timeout sec usec)
      (set_receive_timeout-Calm env watched s sec usec) k
run-Unless reason env watched rest (Method.set_send_timeout sec usec) b s k h =
    done_calm reason env watched rest s (Options.set_send_timeout sec usec)
      (set_send_timeout-Calm env watched s sec usec) k
run-Unless reason env watched rest Method.set_option_reuse_addr b s k h =
    done_calm reason env watched rest s Options.set_option_reuse_addr
      (set_option_reuse_addr-Calm env watched s) k
run-Unless reason env watched rest (Method.set_option_linger enable time) b s k h =
    done_calm reason env watched rest s (Options.set_option_linger enable time)
      (set_option_linger-Calm env watched s enable time) k
run-Unless reason env watched rest Method.set_nonblocking b s k h =
    done_calm reason env watched rest s Options.set_nonblocking (set_nonblocking-Calm env watched s)
      k
run-Unless reason env watched rest Method.set_blocking b s k h =
    done_calm reason env watched rest s Options.set_blocking (set_blocking-Calm env watched s) k
run-Unless reason env watched rest (Method.open_to addr port) b s k h =
    done reason env watched rest s (Active.open_to addr port)
      (Calm-Kept reason env watched rest s _ (open_to-Calm reason env watched addr port s h) k)
run-Unless reason env watched rest (Method.listen addr port backlog) b s k h =
    done_kept reason env watched rest s (Passive.listen addr port backlog)
      (listen-Kept env watched rest addr port backlog s k)
run-Unless reason env watched rest (Method.bind_multicast interface group port) b s k h =
    done_kept reason env watched rest s (Passive.bind_multicast interface group port)
      (bind_multicast-Kept env watched rest interface group port s k)
run-Unless reason env watched rest (Method.accept fuel memory) b s k h =
    done_kept reason env watched rest s (Passive.accept fuel memory)
      (accept-Kept env watched rest fuel memory s k)

pub run-Kept :
    (env : Env) (watched : ℤ) (rest : ℕ) (m : Method) (s : State)
    → Kept env watched rest s
    → After (run m env s) (Kept env watched rest)
unfolding run
run-Kept env watched rest (Method.receive fuel max_bytes target) s k =
    After->>= (Kept env watched rest) (Kept env watched rest) env s
      (Receive.receive fuel max_bytes target) (λ _. pure tt)
      (Tame-Kept env watched rest s _ (receive-Tame env watched fuel max_bytes target s) k)
      λ a t p. p
run-Kept env watched rest m s k = run-Unless (Unit {0}) env watched rest m refl s k (inr tt)

pub reaches-Kept :
    (env : Env) (watched : ℤ) (rest : ℕ) {s t : State}
    → Kept env watched rest s
    → Reaches env s t
    → Kept env watched rest t
reaches-Kept env watched rest k here = k
reaches-Kept env watched rest k (step {t} {u} m r e) =
    subst (λ o. After o (Kept env watched rest)) e
      (run-Kept env watched rest m t (reaches-Kept env watched rest k r))
