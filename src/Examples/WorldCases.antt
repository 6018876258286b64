-- ===== src/Examples/WorldCases.antt =====
-- Several objects at concrete calls: a listening object, and the one that `Accept` gives.
use clsocket.Base.{
  ℕ, suc, ◌+◌, ◌≤◌, ◌<◌, pos, ◌≡◌, refl, Option, some, List, [], ◌∷◌, length, arith,
}
use clsocket.Net.{Call, Reply, Env}
use clsocket.Error.{is_interrupted, is_success, translate_errno}
use clsocket.Socket.{fault, SocketType, SimpleSocket, State, Outcome, returned, on}
use clsocket.Socket.Lifecycle.{initialize, close, construct}
use clsocket.Active.{construct_active, destruct_active}
use clsocket.Passive.{accept, accept_loop, accept_round, adopt}
use clsocket.History.{Method, run}
use clsocket.History.Calm.{opened, closed}
use clsocket.History.World.{World, Runs, Steps}
use clsocket.History.World.Holders.{AllSized, holders}
use clsocket.History.World.Sharing.{Issues, nothing_yet, world_lem, unshared_lem}
use clsocket.Base.{◌≢◌}
use clsocket.Socket.Receive.{Target}
use clsocket.History.Writes.{Modest}
use clsocket.History.World.Memory.{world_fault_free}
use clsocket.Examples.{connected, start, answering, quiet, returning}

-- A kernel that numbers its handles by the calls made, and so never gives one out twice.
abbrev numbering_reply : List Call → Reply
numbering_reply (Call.socket domain type protocol ∷ cs) = returning (pos (suc (length cs)))
numbering_reply (Call.accept fd ∷ cs) = returning (pos (suc (length cs)))
numbering_reply _ = quiet

abbrev numbering : Env
numbering = answering numbering_reply

unopened : (n : ℕ) (cs : List Call) → length cs < n → opened numbering (pos n) cs ≡ 0
unopened n [] h = refl
unopened n (Call.socket domain type protocol ∷ cs) h = ground (arith, h, unopened n cs)
unopened n (Call.accept fd ∷ cs) h = ground (arith, h, unopened n cs)
unopened n (c ∷ cs) h = unopened n cs (omega (arith, h))

numbering-Issues : (n : ℕ) → Issues numbering (pos n)
numbering-Issues n = record {
  by_socket = λ domain type protocol cs e. ground (arith, e, unopened n cs);
  by_accept = λ fd cs e. ground (arith, e, unopened n cs);
}

-- What a run with `on` leaves.
abbrev object_of : {A : Type 0} → Outcome (A × SimpleSocket) → SimpleSocket
object_of (returned (a, object) t) = object
object_of _ = connected

abbrev shared_of : {A : Type 0} → Outcome (A × SimpleSocket) → State
shared_of (returned (a, object) t) = t
shared_of _ = start

abbrev client_of : Outcome (Option SimpleSocket × SimpleSocket) → SimpleSocket
client_of (returned (some client, object) t) = client
client_of _ = connected

abbrev declared : SimpleSocket
declared = construct connected SocketType.tcp

abbrev blank : State
blank = (nothing_yet start).shared

abbrev initialized : Outcome (Unit {0} × SimpleSocket)
initialized = on declared (run Method.initialize) numbering blank

abbrev accepted : Outcome (Option SimpleSocket × SimpleSocket)
accepted = on (object_of initialized) (accept 1 connected) numbering (shared_of initialized)

abbrev deleted : Outcome (Unit {0} × SimpleSocket)
deleted = on (client_of accepted) destruct_active numbering (shared_of accepted)

-- The listener and its client are alive.
abbrev two_alive : World
two_alive = record {
  objects = client_of accepted ∷ object_of accepted ∷ [];
  shared = shared_of accepted;
}

runs_two : Runs numbering (nothing_yet start) two_alive
unfolding run initialize construct construct_active accept accept_loop accept_round adopt
    is_interrupted is_success translate_errno
runs_two =
    Runs.next
      (Runs.next (Runs.next Runs.start (Steps.declare connected SocketType.tcp)) (
        Steps.call [] [] declared (object_of initialized) {t = shared_of initialized}
          Method.initialize refl))
      (Steps.adopt [] [] (object_of initialized) (object_of accepted) (client_of accepted) 1
        connected refl)

-- The client has been deleted.
abbrev one_alive : World
one_alive = record { objects = object_of accepted ∷ []; shared = shared_of deleted }

runs_one : Runs numbering (nothing_yet start) one_alive
unfolding run initialize construct construct_active accept accept_loop accept_round adopt
    is_interrupted is_success translate_errno destruct_active close
runs_one =
    Runs.next runs_two (
      Steps.delete_active [] (object_of accepted ∷ []) (client_of accepted) (object_of deleted)
        refl)

world_lem_example :
    AllSized one_alive.objects
    × (closed numbering (pos 2) one_alive.shared.trace + holders (pos 2) one_alive.objects
        ≤ opened numbering (pos 2) one_alive.shared.trace)
world_lem_example = world_lem numbering (pos 2) start one_alive runs_one

unshared_lem_example : holders (pos 2) two_alive.objects ≤ 1
unshared_lem_example = unshared_lem numbering (pos 2) start two_alive runs_two (numbering-Issues 2)

numbering-Modest : Modest numbering
numbering-Modest = record {
  recv_fits = λ fd offset n flags cs. omega arith;
  recvfrom_fits = λ fd n cs. omega arith;
}

world_fault_free_example :
    on
      (client_of accepted)
      (run (Method.receive 1 (pos 8) Target.internal))
      numbering
      (shared_of accepted)
    ≢ fault
unfolding is_interrupted is_success translate_errno initialize construct construct_active accept
    accept_loop accept_round adopt run
world_fault_free_example =
    world_fault_free numbering start [] (object_of accepted ∷ []) (client_of accepted)
      (shared_of accepted) (Method.receive 1 (pos 8) Target.internal) numbering-Modest runs_two
      (tt, λ e. refl)
