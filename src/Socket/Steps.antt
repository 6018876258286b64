-- ===== src/Socket/Steps.antt =====
-- How the parts of a method compose: a step that returns hands its state on.
use clsocket.Base.{◌≡◌, ap}
use clsocket.Net.{Env}
use clsocket.Socket.{
  SimpleSocket, State, Op, Outcome, returned, exhausted, fault, Ends, on, ◌>>=◌, ◌>>◌,
}

module _ {A B : Type 0} (env : Env) (s u : State) (a : A) where
  pub >>=-returned :
      (m : Op A) (f : A → Op B) → m env s ≡ returned a u → (m >>= f) env s ≡ f a env u
  >>=-returned m f e = ap (λ o. follow o) e
    where
      follow : Outcome A → Outcome B
      follow (returned b v) = f b env v
      follow (exhausted v) = exhausted v
      follow fault = fault

  pub >>-returned : (m : Op A) (k : Op B) → m env s ≡ returned a u → (m >> k) env s ≡ k env u
  >>-returned m k e = >>=-returned m (λ b. k) e

-- Two runs that end alike go on alike.
pub >>-same :
    {A B : Type 0} (env : Env) (s t : State) (m n : Op A) (k : Op B)
    → m env s ≡ n env t
    → (m >> k) env s ≡ (n >> k) env t
>>-same {A} {B} env s t m n k e = ap (λ o. follow o) e
  where
    follow : Outcome A → Outcome B
    follow (returned b v) = k env v
    follow (exhausted v) = exhausted v
    follow fault = fault

-- Nothing runs after a fault.
pub >>=-fault :
    {A B : Type 0} (env : Env) (s : State) (m : Op A) (f : A → Op B)
    → m env s ≡ fault
    → (m >>= f) env s ≡ fault
>>=-fault {A} {B} env s m f e = ap (λ o. follow o) e
  where
    follow : Outcome A → Outcome B
    follow (returned b v) = f b env v
    follow (exhausted v) = exhausted v
    follow fault = fault

pub >>-fault :
    {A B : Type 0} (env : Env) (s : State) (m : Op A) (k : Op B)
    → m env s ≡ fault
    → (m >> k) env s ≡ fault
>>-fault env s m k = >>=-fault env s m (λ a. k)

-- What a method ensures implies more.
pub Ends-map :
    {A : Type 0} {P Q : A → State → Type 0} (o : Outcome A)
    → Ends o P
    → ((a : A) (s : State) → P a s → Q a s)
    → Ends o Q
Ends-map (returned a s) h f = f a s h
Ends-map (exhausted s) h f = absurd h
Ends-map fault h f = absurd h

-- What a step ensures is what the rest may count on, whatever is asked of the outcome of the rest.
pub after->>= :
    {A B : Type 0} (P : A → State → Type 0) (R : Outcome B → Type 0) (env : Env) (s : State)
    (m : Op A) (f : A → Op B)
    → Ends (m env s) P
    → ((a : A) (s' : State) → P a s' → R (f a env s'))
    → R ((m >>= f) env s)
after->>= {A} {B} P R env s m f h k = follow (m env s) h
  where
    follow :
        (o : Outcome A)
        → Ends o P
        → R (elim o [ returned a s' ↦ f a env s' | exhausted s' ↦ exhausted s' | fault ↦ fault ])
    follow (returned a s') p = k a s' p
    follow (exhausted s') p = absurd p
    follow fault p = absurd p

pub Ends->>= :
    {A B : Type 0} (P : A → State → Type 0) (Q : B → State → Type 0) (env : Env) (s : State)
    (m : Op A) (f : A → Op B)
    → Ends (m env s) P
    → ((a : A) (s' : State) → P a s' → Ends (f a env s') Q)
    → Ends ((m >>= f) env s) Q
Ends->>= P Q = after->>= P (λ o. Ends o Q)

-- A sequence may be read from either side.
pub >>-assoc :
    {A B C : Type 0} (Q : C → State → Type 0) (env : Env) (s : State) (m : Op A) (k : Op B)
    (l : Op C)
    → Ends ((m >> (k >> l)) env s) Q
    → Ends ((m >> k >> l) env s) Q
>>-assoc {A} {B} {C} Q env s m k l = follow (m env s)
  where
    follow :
        (o : Outcome A)
        → Ends
            (elim o [
              | returned a s' ↦ (k >> l) env s'
              | exhausted s' ↦ exhausted s'
              | fault ↦ fault
            ])
            Q
        → Ends
            (elim (elim o as (λ x. Outcome B) [
              | returned a s' ↦ k env s'
              | exhausted s' ↦ exhausted s'
              | fault ↦ fault
            ]) [ returned b s' ↦ l env s' | exhausted s' ↦ exhausted s' | fault ↦ fault ])
            Q
    follow (returned a s') h = h
    follow (exhausted s') h = h
    follow fault h = h

-- What the method ensures on the object holds of the pair, and the other object is as it was.
pub Ends-on :
    {A : Type 0} (P : A × SimpleSocket → State → Type 0) (env : Env) (s : State)
    (object : SimpleSocket) (m : Op A)
    → Ends (m env (record s { sock = object })) (λ a u. P (a, u.sock) (record u { sock = s.sock }))
    → Ends (on object m env s) P
Ends-on {A} P env s object m h = follow (m env (record s { sock = object })) h
  where
    follow :
        (o : Outcome A)
        → Ends o (λ a u. P (a, u.sock) (record u { sock = s.sock }))
        → Ends
            (elim o [
              | returned a u ↦ returned (a, u.sock) (record u { sock = s.sock })
              | exhausted u ↦ exhausted u
              | fault ↦ fault
            ])
            P
    follow (returned a u) p = p
    follow (exhausted u) p = absurd p
    follow fault p = absurd p
