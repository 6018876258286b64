-- ===== src/History/World/Holders.antt =====
-- What several objects of src/ hold together, and what a method of one of them leaves.
use clsocket.Base.{ℕ, ◌+◌, ℤ, refl, subst, ◌≡◌, List, [], ◌∷◌, ◌++◌, arith}
use clsocket.Net.{Env}
use clsocket.Socket.{SimpleSocket, State, Op, Outcome, returned, exhausted, fault, on}
use clsocket.Socket.Receive.Memory.{IsSized}
use clsocket.History.Owning.{held}

-- How many of the objects hold this handle.
abbrev pub holders : ℤ → List SimpleSocket → ℕ
holders watched [] = 0
holders watched (object ∷ objects) = held watched object + holders watched objects

abbrev pub AllSized : List SimpleSocket → Type 0
AllSized [] = Unit {0}
AllSized (object ∷ objects) = IsSized object × AllSized objects

-- An object may be counted first, wherever it stands.
pub holders-split :
    (watched : ℤ) (before after : List SimpleSocket) (object : SimpleSocket)
    → holders watched (before ++ object ∷ after)
      ≡ held watched object + holders watched (before ++ after)
holders-split watched [] after object = refl
holders-split watched (b ∷ before) after object =
    omega (arith, holders-split watched before after object)

pub AllSized-split :
    (before after : List SimpleSocket) (object : SimpleSocket)
    → AllSized (before ++ object ∷ after)
    → IsSized object × AllSized (before ++ after)
AllSized-split [] after object h = h
AllSized-split (b ∷ before) after object h =
    let k = AllSized-split before after object h.1 in (k.0, (h.0, k.1))

pub AllSized-join :
    (before after : List SimpleSocket) (object : SimpleSocket)
    → IsSized object
    → AllSized (before ++ after)
    → AllSized (before ++ object ∷ after)
AllSized-join [] after object a h = (a, h)
AllSized-join (b ∷ before) after object a h = (h.0, AllSized-join before after object a h.1)

-- A property of what a method leaves, of the outcome of running it with `on`.
abbrev pub OnObject : {A : Type 0} → (Outcome A → Type 0) → Outcome (A × SimpleSocket) → Type 0
OnObject Q (returned (a, object) t) = Q (returned a (record t { sock = object }))
OnObject Q (exhausted t) = Q (exhausted t)
OnObject Q fault = Q fault

pub on-OnObject :
    {A : Type 0} (Q : Outcome A → Type 0) (env : Env) (s : State) (object : SimpleSocket) (m : Op A)
    → Q (m env (record s { sock = object }))
    → OnObject Q (on object m env s)
on-OnObject {A} Q env s object m h = follow (m env (record s { sock = object })) h
  where
    follow :
        (o : Outcome A)
        → Q o
        → OnObject Q (elim o [
          | returned a u ↦ returned (a, u.sock) (record u { sock = s.sock })
          | exhausted u ↦ exhausted u
          | fault ↦ fault
        ])
    follow (returned a u) p = p
    follow (exhausted u) p = p
    follow fault p = p

-- What the method was shown to leave is what `on` gave.
pub left_by :
    {A : Type 0} (Q : Outcome A → Type 0) (env : Env) (s t : State) (object object' : SimpleSocket)
    (m : Op A) (a : A)
    → on object m env s ≡ returned (a, object') t
    → Q (m env (record s { sock = object }))
    → Q (returned a (record t { sock = object' }))
left_by Q env s t object object' m a e h =
    subst (λ o. OnObject Q o) e (on-OnObject Q env s object m h)
