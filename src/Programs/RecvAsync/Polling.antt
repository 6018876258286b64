-- ===== src/Programs/RecvAsync/Polling.antt =====
-- What the rounds of the client of examples/RecvAsync.cpp get, and the client between two of them.
use clsocket.Base.{
  map, ℕ, suc, ◌+◌, ◌≤◌, ℤ, pos, minus_one, ◌==ℤ◌, ◌≡◌, refl, sym, ap, subst, ◌∙◌, Option, none,
  some, List, [], ◌∷◌, length, true, inl, inr, Option-cases, arith,
}
use clsocket.Net.{Errno, Call, Bytes, Env}
use clsocket.Socket.{State, Buffer, Ends, returned, is_valid_handle, or_else}
use clsocket.Socket.Steps.{Ends-map}
use clsocket.Socket.Receive.{Target, receive}
use clsocket.Socket.Receive.Method.{Holds, recv_trace, receive_once}
use clsocket.Socket.Receive.Memory.{Sized}
use clsocket.Socket.Access.{get_data}
use clsocket.Programs.{copy_data}
use clsocket.Programs.Chunk.{Arrival, IsCalm, asked, Received}
use clsocket.Programs.RecvAsync.{copy_result}
use clsocket.Programs.RecvAsync.Server.{IsReady, Holds-Sized}

-- Nothing has come yet: recv(2) fails, and not because of a signal.
pub record Misses (env : Env) (cs : List Call) : Type 0 where
  pub fails : (env.reply cs).ret ≡ minus_one
  pub no_bytes : (env.reply cs).bytes ≡ []
  pub fails_calmly : (e : Errno) → IsCalm e → IsCalm (or_else (env.reply cs).errno e)

-- What each round of the loop gets: a chunk, or nothing.
abbrev pub Arrivals : Env → ℤ → List (Option Bytes) → List Call → Type 0
Arrivals env fd [] cs = Unit {0}
Arrivals env fd (none ∷ tries) cs =
    Misses env (asked 4096 fd cs) × Arrivals env fd tries (asked 4096 fd cs)
Arrivals env fd (some chunk ∷ tries) cs =
    Arrival env 4096 fd chunk cs × Arrivals env fd tries (asked 4096 fd cs)

abbrev pub bytes_of : List (Option Bytes) → ℕ
bytes_of [] = 0
bytes_of (none ∷ tries) = bytes_of tries
bytes_of (some chunk ∷ tries) = length chunk + bytes_of tries

-- The blocks that are printed, latest first.
abbrev pub prints : List (Option Bytes) → List Buffer → List Buffer
prints [] printed = printed
prints (none ∷ tries) printed = prints tries printed
prints (some chunk ∷ tries) printed = prints tries (map some chunk ∷ printed)

-- Where every byte has come, nothing is left to print.
pub prints-empty :
    (env : Env) (fd : ℤ) (tries : List (Option Bytes)) (cs : List Call) (printed : List Buffer)
    → Arrivals env fd tries cs
    → bytes_of tries ≡ 0
    → prints tries printed ≡ printed
prints-empty env fd [] cs printed x e = refl
prints-empty env fd (none ∷ tries) cs printed x e =
    prints-empty env fd tries (asked 4096 fd cs) printed x.1 e
prints-empty env fd (some chunk ∷ tries) cs printed x e = absurd (omega (arith, x.0.some_bytes, e))

module _ (env : Env) (fuel : ℕ) where
  -- The client between two rounds, with a handle that can be read.
  abbrev pub IsPolling : State → Type 0
  IsPolling s = IsReady s × (is_valid_handle s.sock ≡ true)

  -- After a round that got nothing.
  abbrev pub Missed : State → ℤ → State → Type 0
  Missed s got u =
      (got ≡ minus_one)
      × (u.trace ≡ asked 4096 s.socket s.trace)
      × (u.socket ≡ s.socket)
      × IsPolling u

  pub receive-Misses :
      (s : State)
      → Misses env (asked 4096 s.socket s.trace)
      → IsPolling s
      → Ends (receive (suc fuel) (pos 4096) Target.internal env s) (Missed s)
  receive-Misses s x ready =
      let t : recv_trace 4096 s ≡ asked 4096 s.socket s.trace =
        ap (λ f. Call.recv s.socket (pos 0) (pos 4096) f ∷ s.trace) ready.0.2 in
      let r = env.reply (recv_trace 4096 s) in
      let ret : r.ret ≡ minus_one = rw t x.fails in
      let nothing : r.bytes ≡ [] = rw t x.no_bytes in
      let calm : IsCalm (or_else r.errno s.errno) = rw t (x.fails_calmly s.errno ready.0.3) in
      let test : (r.ret ==ℤ minus_one) ≡ true = rw ret refl in
      Ends-map (receive (suc fuel) (pos 4096) Target.internal env s)
        (receive_once env fuel 4096 s ready.0.0 ready.1 ready.0.1 (rw nothing (omega arith)) calm)
        λ got u p.
          let empty : u.buffer ≡ none = rw test at p.4 in
          (
            p.0 ∙ ret,
            p.1 ∙ t,
            p.5,
            (
              (
                subst (λ b. Sized b u.buffer_size) (sym empty) tt,
                p.6 ∙ ready.0.1,
                p.9 ∙ ready.0.2,
                rw p.8 calm,
              ),
              rw p.5 ready.1,
            ),
          )

  pub Received-IsPolling :
      (chunk : Bytes) (s : State) (got : ℤ) (u : State)
      → IsPolling s
      → Received env fuel 0 4096 chunk s got u
      → IsPolling u
  Received-IsPolling chunk s got u ready p = (
    (Holds-Sized chunk 4096 u.buffer u.buffer_size p.3 p.8, p.5, p.7, rw p.6 ready.0.3),
    rw p.4 ready.1,
  )

  pub copy_result-Holds :
      (chunk : Bytes) (u : State)
      → Holds chunk 4096 u.buffer
      → length chunk ≤ 1024
      → copy_result (length chunk) env u ≡ returned (map some chunk) u
  unfolding copy_result copy_data get_data
  copy_result-Holds chunk u h fits = elim (Option-cases u.buffer) [
    | inl e ↦ absurd (rw e at h)
    | inr (block, e) ↦
        let held : Holds chunk 4096 (some block) = rw e at h in rw e (ground (arith, held))
  ]
