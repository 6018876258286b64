-- ===== src/History/Invariant.antt =====
-- The invariant of histories, method by method, for the public methods of the three classes.
use clsocket.Base.{none, if◌then◌else◌, ◌∷◌, ◌≡◌, ℤ, ◌+◌, ◌≤◌, arith}
use clsocket.Net.{Env, Call}
use clsocket.Socket.{SocketType, SimpleSocket, State, Ends, is_valid_handle}
use clsocket.Socket.Lifecycle.{construct}
use clsocket.Active.{destruct_active}
use clsocket.Passive.{destruct_passive}
use clsocket.Socket.Lifecycle.Handle.{fresh}
use clsocket.Socket.Receive.Memory.{IsSized}
use clsocket.History.{Reaches}
use clsocket.History.Calm.{opened, closed}
use clsocket.History.Owning.{held, Kept}
use clsocket.History.Running.{reaches-Kept}

-- In every state that a newly constructed object, in a program that has made no call, reaches by
-- methods of `Method` that returned, in any order, with any arguments and any replies of the
-- system: the receive buffer, if there is one, has the size on record; and for every valid handle,
-- the calls of close(2) on it that did not fail, plus one if the object holds it, are no more than
-- the calls of socket(2) and accept(2) that gave it.
history_lem :
    (env : Env) (watched : ℤ) (s : State) (memory : SimpleSocket) (type : SocketType) (t : State)
    → Reaches env (fresh s memory type) t
    → IsSized t.sock
      × (closed env watched t.trace + held watched t.sock ≤ opened env watched t.trace)
unfolding construct
history_lem env watched s memory type t r =
    let k : Kept env watched 0 t = reaches-Kept env watched 0 (ground arith) r in
    (k.0, omega (arith, k.1))

-- What is left of an object at the end of its life.
abbrev pub Gone : Env → ℤ → Call → State → State → Type 0
Gone env watched c t u =
    (u.buffer ≡ none)
    × (closed env watched u.trace ≤ opened env watched u.trace)
    × (u.trace ≡ (if is_valid_handle t.sock then c ∷ t.trace else t.trace))

destruct-Gone :
    (env : Env) (watched : ℤ) (t : State)
    → Kept env watched 0 t
    → Ends (destruct_active env t) λ x u. Gone env watched (Call.close t.socket) t u
unfolding destruct_active
destruct-Gone env watched t k = ground (arith, k)

-- The destructors of `CActiveSocket` and `CPassiveSocket`, run on an object in any state that it
-- reaches, newly constructed in a program that has made no call, by methods of `Method` that
-- returned, in any order, with any arguments and any replies of the system, return; then there is
-- no buffer, close(2) has been called once more if the handle was valid and not otherwise, and for
-- every valid handle, the calls of close(2) on it that did not fail are no more than the calls of
-- socket(2) and accept(2) that gave it.
pub lifetime_lem :
    (env : Env) (watched : ℤ) (s : State) (memory : SimpleSocket) (type : SocketType) (t : State)
    → Reaches env (fresh s memory type) t
    → (Ends (destruct_active env t) λ x u. Gone env watched (Call.close t.socket) t u)
      × (Ends (destruct_passive env t) λ x u. Gone env watched (Call.close t.socket) t u)
unfolding construct destruct_active destruct_passive
lifetime_lem env watched s memory type t r =
    let gone = destruct-Gone env watched t (reaches-Kept env watched 0 (ground arith) r) in
    (gone, gone)
