-- ===== src/History/Outcomes.antt =====
-- How what holds after a method carries over to the methods that call it.
use clsocket.Net.{Env}
use clsocket.Socket.{State, Op, Outcome, returned, exhausted, fault, ◌>>=◌}
use clsocket.History.{Unless, After, Lands}

pub After-map :
    {A : Type 0} {P Q : State → Type 0} (o : Outcome A)
    → After o P
    → ((s : State) → P s → Q s)
    → After o Q
After-map (returned a s) h f = f s h
After-map (exhausted s) h f = tt
After-map fault h f = tt

-- Nothing is asked of the state.
pub After-any : {A : Type 0} (o : Outcome A) → After o λ s. Unit {0}
After-any (returned a s) = tt
After-any (exhausted s) = tt
After-any fault = tt

pub After->>= :
    {A B : Type 0} (P Q : State → Type 0) (env : Env) (s : State) (m : Op A) (f : A → Op B)
    → After (m env s) P
    → ((a : A) (s' : State) → P s' → After (f a env s') Q)
    → After ((m >>= f) env s) Q
After->>= {A} {B} P Q env s m f h k = follow (m env s) h
  where
    follow :
        (o : Outcome A)
        → After o P
        → After
            (elim o [ returned a s' ↦ f a env s' | exhausted s' ↦ exhausted s' | fault ↦ fault ])
            Q
    follow (returned a s') p = k a s' p
    follow (exhausted s') p = tt
    follow fault p = tt

pub Unless-map :
    {A : Type 0} {P Q : State → Type 0} (reason : Type 0) (o : Outcome A)
    → Unless reason o P
    → ((s : State) → P s → Q s)
    → Unless reason o Q
Unless-map reason (returned a s) h f = f s h
Unless-map reason (exhausted s) h f = tt
Unless-map reason fault h f = h

pub Unless->>= :
    {A B : Type 0} (reason : Type 0) (P Q : State → Type 0) (env : Env) (s : State) (m : Op A)
    (f : A → Op B)
    → Unless reason (m env s) P
    → ((a : A) (s' : State) → P s' → Unless reason (f a env s') Q)
    → Unless reason ((m >>= f) env s) Q
Unless->>= {A} {B} reason P Q env s m f h k = follow (m env s) h
  where
    follow :
        (o : Outcome A)
        → Unless reason o P
        → Unless reason
            (elim o [ returned a s' ↦ f a env s' | exhausted s' ↦ exhausted s' | fault ↦ fault ])
            Q
    follow (returned a s') p = k a s' p
    follow (exhausted s') p = tt
    follow fault p = p

-- What keeps within its memory needs no reason.
pub Lands-Unless :
    {A : Type 0} (reason : Type 0) (P : State → Type 0) (o : Outcome A)
    → Lands o P
    → Unless reason o P
Lands-Unless reason P (returned a s) h = h
Lands-Unless reason P (exhausted s) h = tt
Lands-Unless reason P fault h = absurd h

pub Lands-map :
    {A : Type 0} {P Q : State → Type 0} (o : Outcome A)
    → Lands o P
    → ((s : State) → P s → Q s)
    → Lands o Q
Lands-map (returned a s) h f = f s h
Lands-map (exhausted s) h f = tt
Lands-map fault h f = absurd h

pub Lands->>= :
    {A B : Type 0} (P Q : State → Type 0) (env : Env) (s : State) (m : Op A) (f : A → Op B)
    → Lands (m env s) P
    → ((a : A) (s' : State) → P s' → Lands (f a env s') Q)
    → Lands ((m >>= f) env s) Q
Lands->>= {A} {B} P Q env s m f h k = follow (m env s) h
  where
    follow :
        (o : Outcome A)
        → Lands o P
        → Lands
            (elim o [ returned a s' ↦ f a env s' | exhausted s' ↦ exhausted s' | fault ↦ fault ])
            Q
    follow (returned a s') p = k a s' p
    follow (exhausted s') p = tt
    follow fault p = absurd p

-- The same with what the method returns.
abbrev pub Yields : {A : Type 0} → Outcome A → (A → State → Type 0) → Type 0
Yields (returned a s) P = P a s
Yields (exhausted s) P = Unit {0}
Yields fault P = ⊥

-- What follows has the result to work on.
pub Yields-then :
    {A B : Type 0} (P : A → State → Type 0) (R : Outcome B → Type 0) (env : Env) (s : State)
    (m : Op A) (f : A → Op B)
    → Yields (m env s) P
    → ((t : State) → R (exhausted t))
    → ((a : A) (t : State) → P a t → R (f a env t))
    → R ((m >>= f) env s)
Yields-then {A} {B} P R env s m f h spent k = follow (m env s) h
  where
    follow :
        (o : Outcome A)
        → Yields o P
        → R (elim o [ returned a t ↦ f a env t | exhausted t ↦ exhausted t | fault ↦ fault ])
    follow (returned a t) p = k a t p
    follow (exhausted t) p = spent t
    follow fault p = absurd p

pub Yields->>= :
    {A B : Type 0} (P : A → State → Type 0) (Q : B → State → Type 0) (env : Env) (s : State)
    (m : Op A) (f : A → Op B)
    → Yields (m env s) P
    → ((a : A) (t : State) → P a t → Yields (f a env t) Q)
    → Yields ((m >>= f) env s) Q
Yields->>= P Q env s m f h = Yields-then P (λ o. Yields o Q) env s m f h λ t. tt

-- What holds after a method that keeps within its memory.
pub Lands-both :
    {A : Type 0} (P Q : State → Type 0) (o : Outcome A)
    → Lands o P
    → After o Q
    → Lands o λ s. P s × Q s
Lands-both P Q (returned a s) h k = (h, k)
Lands-both P Q (exhausted s) h k = tt
Lands-both P Q fault h k = absurd h

-- A method that keeps within its memory is one of those that may not.
pub Lands-After : {A : Type 0} (P : State → Type 0) (o : Outcome A) → Lands o P → After o P
Lands-After P (returned a s) h = h
Lands-After P (exhausted s) h = tt
Lands-After P fault h = tt
