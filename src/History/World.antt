-- ===== src/History/World.antt =====
-- Runs of a program that has several objects of the classes of src/: it declares them, calls their
-- methods in any order, gets new ones from `Accept`, and deletes them.
pub mod Holders
pub mod Sharing
pub mod Memory
use clsocket.Base.{ℕ, Option, none, some, ◌≡◌, List, [], ◌∷◌, ◌++◌}
use clsocket.Net.{Env}
use clsocket.Socket.{SocketType, SimpleSocket, State, Op, returned, on}
use clsocket.Socket.Lifecycle.{construct}
use clsocket.Active.{destruct_active}
use clsocket.Passive.{accept, destruct_passive}
use clsocket.History.{Method, run}

-- The objects that are alive, and what they share: errno, the caller's buffer, the calls and the
-- clock. The object of that state stands for none of them.
pub record World : Type 0 where
  pub objects : List SimpleSocket
  pub shared : State

-- What the program does in a step, the object that it works on among the others.
pub data Steps (env : Env) : World → World → Type 0 where
  declare :
      {objects : List SimpleSocket} {s : State} (memory : SimpleSocket) (type : SocketType)
      → Steps env
          (record { objects = objects; shared = s })
          (record { objects = construct memory type ∷ objects; shared = s })
  call :
      (before after : List SimpleSocket) (object object' : SimpleSocket) {s t : State} (m : Method)
      → on object (run m) env s ≡ returned (tt, object') t
      → Steps env
          (record { objects = before ++ object ∷ after; shared = s })
          (record { objects = before ++ object' ∷ after; shared = t })
  adopt :
      (before after : List SimpleSocket) (object object' client : SimpleSocket) {s t : State}
      (fuel : ℕ) (memory : SimpleSocket)
      → on object (accept fuel memory) env s ≡ returned (some client, object') t
      → Steps env
          (record { objects = before ++ object ∷ after; shared = s })
          (record { objects = client ∷ before ++ object' ∷ after; shared = t })
  delete_active :
      (before after : List SimpleSocket) (object object' : SimpleSocket) {s t : State}
      → on object destruct_active env s ≡ returned (tt, object') t
      → Steps env
          (record { objects = before ++ object ∷ after; shared = s })
          (record { objects = before ++ after; shared = t })
  delete_passive :
      (before after : List SimpleSocket) (object object' : SimpleSocket) {s t : State}
      → on object destruct_passive env s ≡ returned (tt, object') t
      → Steps env
          (record { objects = before ++ object ∷ after; shared = s })
          (record { objects = before ++ after; shared = t })

-- The worlds that such steps lead to.
pub data Runs (env : Env) (w : World) : World → Type 0 where
  start : Runs env w w
  next : {v u : World} → Runs env w v → Steps env v u → Runs env w u
