-- ===== src/History/World/Sharing.antt =====
-- The handles of several objects of src/: no handle is closed behind the back of its owner.
use clsocket.Base.{ℕ, suc, ◌+◌, ◌≤◌, ℤ, ◌≡◌, some, List, [], ◌∷◌, ◌++◌, arith}
use clsocket.Net.{Family, Call, Env}
use clsocket.Socket.{SocketType, SimpleSocket, State, returned, on}
use clsocket.Socket.Lifecycle.{construct}
use clsocket.Active.{destruct_active}
use clsocket.Passive.{accept, destruct_passive}
use clsocket.History.{After, Lands, Method, run}
use clsocket.History.Calm.{opened, closed}
use clsocket.History.Owning.{Kept, Pending, Given, accept-Given}
use clsocket.History.Running.{run-Kept}
use clsocket.History.World.{
  World, Steps, declare, call, adopt, delete_active, delete_passive, Runs, start, next,
}
use clsocket.History.World.Holders.{
  holders, AllSized, holders-split, AllSized-split, AllSized-join, left_by,
}

-- The invariant of a world.
abbrev pub IsSound : Env → ℤ → World → Type 0
IsSound env watched w =
    AllSized w.objects
    × (closed env watched w.shared.trace + holders watched w.objects
        ≤ opened env watched w.shared.trace)

module _ (env : Env) (watched : ℤ) where
  -- One object of a sound world, with what the others hold.
  pub IsSound-Kept :
      (before after : List SimpleSocket) (object : SimpleSocket) (s : State)
      → IsSound env watched (record { objects = before ++ object ∷ after; shared = s })
      → Kept env watched (holders watched (before ++ after)) (record s { sock = object })
        × AllSized (before ++ after)
  IsSound-Kept before after object s h =
      let k = AllSized-split before after object h.0 in
      ((k.0, omega (arith, h.1, holders-split watched before after object)), k.1)

  Kept-IsSound :
      (before after : List SimpleSocket) (object : SimpleSocket) (t : State)
      → Kept env watched (holders watched (before ++ after)) (record t { sock = object })
      → AllSized (before ++ after)
      → IsSound env watched (record { objects = before ++ object ∷ after; shared = t })
  Kept-IsSound before after object t k h = (
    AllSized-join before after object k.0 h,
    omega (arith, k.1, holders-split watched before after object),
  )

  -- A deleted object holds nothing any more.
  abbrev Freed : ℕ → State → Type 0
  Freed rest u = closed env watched u.trace + rest ≤ opened env watched u.trace

  destruct-Freed :
      (rest : ℕ) (u : State) → Kept env watched rest u → Lands (destruct_active env u) (Freed rest)
  unfolding destruct_active
  destruct-Freed rest u k = ground (arith, k)

  delete-IsSound :
      (before after : List SimpleSocket) (object object' : SimpleSocket) (s t : State)
      → on object destruct_active env s ≡ returned (tt, object') t
      → IsSound env watched (record { objects = before ++ object ∷ after; shared = s })
      → IsSound env watched (record { objects = before ++ after; shared = t })
  delete-IsSound before after object object' s t e h =
      let k = IsSound-Kept before after object s h in
      (
        k.1,
        left_by (λ o. Lands o (Freed (holders watched (before ++ after)))) env s t object object'
            destruct_active tt e
            (destruct-Freed (holders watched (before ++ after)) (record s { sock = object }) k.0),
      )

  declare-IsSound :
      (objects : List SimpleSocket) (s : State) (memory : SimpleSocket) (type : SocketType)
      → IsSound env watched (record { objects = objects; shared = s })
      → IsSound env watched (record { objects = construct memory type ∷ objects; shared = s })
  unfolding construct
  declare-IsSound objects s memory type h = ground (arith, h)

  call-IsSound :
      (before after : List SimpleSocket) (object object' : SimpleSocket) (s t : State) (m : Method)
      → on object (run m) env s ≡ returned (tt, object') t
      → IsSound env watched (record { objects = before ++ object ∷ after; shared = s })
      → IsSound env watched (record { objects = before ++ object' ∷ after; shared = t })
  call-IsSound before after object object' s t m e h =
      let k = IsSound-Kept before after object s h in
      let rest = holders watched (before ++ after) in
      Kept-IsSound before after object' t
        (left_by (λ o. After o (Kept env watched rest)) env s t object object' (run m) tt e
          (run-Kept env watched rest m (record s { sock = object }) k.0))
        k.1

  adopt-IsSound :
      (before after : List SimpleSocket) (object object' client : SimpleSocket) (s t : State)
      (fuel : ℕ) (memory : SimpleSocket)
      → on object (accept fuel memory) env s ≡ returned (some client, object') t
      → IsSound env watched (record { objects = before ++ object ∷ after; shared = s })
      → IsSound env watched (record { objects = client ∷ before ++ object' ∷ after; shared = t })
  adopt-IsSound before after object object' client s t fuel memory e h =
      let k = IsSound-Kept before after object s h in
      let rest = holders watched (before ++ after) in
      let p : Pending env watched rest client (record t { sock = object' }) =
        left_by (Given env watched rest) env s t object object' (accept fuel memory) (some client) e
          (accept-Given env watched rest fuel memory (record s { sock = object }) k.0) in
      (
        (p.1, AllSized-join before after object' p.0 k.1),
        omega (arith, p.2, holders-split watched before after object'),
      )

  Steps-IsSound : (v u : World) → IsSound env watched v → Steps env v u → IsSound env watched u
  unfolding destruct_passive destruct_active
  Steps-IsSound v u h (declare {objects} {s} memory type) = declare-IsSound objects s memory type h
  Steps-IsSound v u h (call before after object object' {s} {t} m e) =
      call-IsSound before after object object' s t m e h
  Steps-IsSound v u h (adopt before after object object' client {s} {t} fuel memory e) =
      adopt-IsSound before after object object' client s t fuel memory e h
  Steps-IsSound v u h (delete_active before after object object' {s} {t} e) =
      delete-IsSound before after object object' s t e h
  Steps-IsSound v u h (delete_passive before after object object' {s} {t} e) =
      delete-IsSound before after object object' s t e h

-- A program that has made no call and has no object.
abbrev pub nothing_yet : State → World
nothing_yet s = record { objects = []; shared = record s { trace = [] } }

-- In every world that a program reaches which starts without objects and calls and, in any order,
-- declares objects, calls methods of `Method` on any of them that return, takes new objects from
-- `Accept`, and deletes objects, with any arguments and any replies of the system: every object's
-- buffer, if there is one, has the size on record; and for every valid handle, the calls of
-- close(2) on it that did not fail, plus the objects that hold it, are no more than the calls of
-- socket(2) and accept(2) that gave it.
pub world_lem :
    (env : Env) (watched : ℤ) (s : State) (w : World)
    → Runs env (nothing_yet s) w
    → AllSized w.objects
      × (closed env watched w.shared.trace + holders watched w.objects
          ≤ opened env watched w.shared.trace)
world_lem env watched s w start = (tt, omega arith)
world_lem env watched s w (next {v} r st) =
    Steps-IsSound env watched v w (world_lem env watched s v r) st

-- The kernel gives out a handle only when every earlier one of that number has been closed.
pub record Issues (env : Env) (watched : ℤ) : Type 0 where
  pub by_socket :
      (domain : Family) (type protocol : ℕ) (cs : List Call)
      → (env.reply (Call.socket domain type protocol ∷ cs)).ret ≡ watched
      → opened env watched cs ≤ closed env watched cs
  pub by_accept :
      (fd : ℤ) (cs : List Call)
      → (env.reply (Call.accept fd ∷ cs)).ret ≡ watched
      → opened env watched cs ≤ closed env watched cs

opened-closed :
    (env : Env) (watched : ℤ) (cs : List Call)
    → Issues env watched
    → opened env watched cs ≤ suc (closed env watched cs)
opened-closed env watched [] x = omega arith
opened-closed env watched (Call.socket domain type protocol ∷ cs) x =
    ground (arith, opened-closed env watched cs x, x.by_socket domain type protocol cs)
opened-closed env watched (Call.accept fd ∷ cs) x =
    ground (arith, opened-closed env watched cs x, x.by_accept fd cs)
opened-closed env watched (c ∷ cs) x = ground (arith, opened-closed env watched cs x)

-- In every world that such a program reaches, if the kernel gives a handle out only when all
-- earlier ones of that number have been closed, then no two objects hold the same valid handle.
pub unshared_lem :
    (env : Env) (watched : ℤ) (s : State) (w : World)
    → Runs env (nothing_yet s) w
    → Issues env watched
    → holders watched w.objects ≤ 1
unshared_lem env watched s w r x =
    omega (arith, opened-closed env watched w.shared.trace x, (world_lem env watched s w r).1)
