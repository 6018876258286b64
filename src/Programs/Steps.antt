-- ===== src/Programs/Steps.antt =====
-- Runs that spend their rounds.
use clsocket.Net.{Env}
use clsocket.Socket.{State, Op, Outcome, returned, exhausted, fault, Ends, ◌>>=◌}
use clsocket.Socket.Steps.{after->>=}

-- The rounds are spent in such a state.
abbrev pub Spends : {A : Type 0} → Outcome A → (State → Type 0) → Type 0
Spends (exhausted s') P = P s'
Spends (returned a s') P = ⊥
Spends fault P = ⊥

pub Spends-map :
    {A : Type 0} {P Q : State → Type 0} (o : Outcome A)
    → Spends o P
    → ((s : State) → P s → Q s)
    → Spends o Q
Spends-map (exhausted s) h f = f s h
Spends-map (returned a s) h f = absurd h
Spends-map fault h f = absurd h

pub Spends->>= :
    {A B : Type 0} (P : A → State → Type 0) (Q : State → Type 0) (env : Env) (s : State) (m : Op A)
    (f : A → Op B)
    → Ends (m env s) P
    → ((a : A) (s' : State) → P a s' → Spends (f a env s') Q)
    → Spends ((m >>= f) env s) Q
Spends->>= P Q = after->>= P (λ o. Spends o Q)

-- What follows a run that spends its rounds is not reached.
pub Spends-before :
    {A B : Type 0} (Q : State → Type 0) (env : Env) (s : State) (m : Op A) (f : A → Op B)
    → Spends (m env s) Q
    → Spends ((m >>= f) env s) Q
Spends-before {A} {B} Q env s m f h = follow (m env s) h
  where
    follow :
        (o : Outcome A)
        → Spends o Q
        → Spends
            (elim o [ returned a s' ↦ f a env s' | exhausted s' ↦ exhausted s' | fault ↦ fault ])
            Q
    follow (exhausted s') p = p
    follow (returned a s') p = absurd p
    follow fault p = absurd p
