-- ===== src/History/World/Memory.antt =====
-- What the methods of several objects of src/ need in order to keep within their memory.
use clsocket.Base.{ℕ, ℤ, pos, negsuc, ◌≢◌, refl, subst, inl, List, ◌∷◌, ◌++◌}
use clsocket.Net.{Env}
use clsocket.Socket.{SimpleSocket, State, Op, fault, on, pure}
use clsocket.Socket.Receive.{receive}
use clsocket.History.{Lands, Method, run}
use clsocket.History.Outcomes.{Lands-map, Lands->>=}
use clsocket.History.Owning.{Kept}
use clsocket.History.Running.{run-Unless, Reads}
use clsocket.History.Writes.{Modest, Supplies}
use clsocket.History.Reading.{IsUninterrupted, receive-Lands}
use clsocket.History.World.{Runs}
use clsocket.History.World.Holders.{holders, OnObject, on-OnObject}
use clsocket.History.World.Sharing.{nothing_yet, world_lem, IsSound, IsSound-Kept}

-- `Receive` is asked for no negative number of bytes, has that room in the caller's memory, and is
-- not interrupted. `Send`, `Writev`, `Select` and `Open` find what they read and set. The other
-- methods are given what they like.
abbrev pub IsAllowed : Env → State → Method → Type 0
IsAllowed env t (Method.receive fuel (pos n) target) =
    Supplies target n t.caller_buffer × IsUninterrupted env n t
IsAllowed env t (Method.receive fuel (negsuc n) target) = ⊥
IsAllowed env t m = Reads env t m

run-IsAllowed :
    (env : Env) (watched : ℤ) (rest : ℕ) (m : Method) (t : State)
    → Modest env
    → Kept env watched rest t
    → IsAllowed env t m
    → Lands (run m env t) λ u. Unit {0}
unfolding run
run-IsAllowed env watched rest (Method.receive fuel (pos n) target) t modest k h =
    Lands->>= (λ u. Unit {0}) (λ u. Unit {0}) env t (receive fuel (pos n) target) (λ _. pure tt)
      (receive-Lands env fuel n target t modest k.0 h.0 h.1) λ _ u p. tt
run-IsAllowed env watched rest (Method.receive fuel (negsuc n) target) t modest k h = absurd h
run-IsAllowed env watched rest m t modest k h =
    Lands-map (run m env t) (run-Unless ⊥ env watched rest m refl t k (inl h)) λ u p. tt

-- A method that keeps within its memory does so on an object among others.
on-Lands :
    {A : Type 0} (env : Env) (object : SimpleSocket) (m : Op A) (t : State)
    → Lands (m env (record t { sock = object })) (λ u. Unit {0})
    → on object m env t ≢ fault
on-Lands {A} env object m t h e =
    subst (λ o. OnObject (λ b. Lands b (λ u. Unit {0})) o) e
      (on-OnObject (λ b. Lands b (λ u. Unit {0})) env t object m h)

-- In every world that such a program reaches, if recv(2) and recvfrom(2) give no more bytes than
-- they are asked for, a call of any method of `Method` on any of the objects makes no fault,
-- whatever the system replies: neither the buffer, the memory of the caller nor a descriptor set is
-- read or written outside its bounds (the static block of `SendFile` is not among them), and `new`
-- does not throw. `Receive` needs for that a size that is not negative, a memory of the caller's,
-- where one is passed, with that room, and, on a TCP object, a first recv(2) after which the error
-- is not interrupted; `Send`, in both classes, and each element of `Writev` a null pointer or a
-- buffer that has the length given, where the vector form of `Send` is given bytes and not
-- pointers; `Select` and `Open` a handle from 0 to below FD_SETSIZE.
pub world_fault_free :
    (env : Env) (s : State) (before after : List SimpleSocket) (object : SimpleSocket) (t : State)
    (m : Method)
    → Modest env
    → Runs env (nothing_yet s) (record { objects = before ++ object ∷ after; shared = t })
    → IsAllowed env (record t { sock = object }) m
    → on object (run m) env t ≢ fault
world_fault_free env s before after object t m modest r h =
    let sound : IsSound env (pos 0) (record { objects = before ++ object ∷ after; shared = t }) =
      world_lem env (pos 0) s (record { objects = before ++ object ∷ after; shared = t }) r in
    let k = IsSound-Kept env (pos 0) before after object t sound in
    on-Lands env object (run m) t (
      run-IsAllowed env (pos 0) (holders (pos 0) (before ++ after)) m (record t { sock = object })
        modest k.0 h)
