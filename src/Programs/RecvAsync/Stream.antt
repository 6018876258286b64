-- ===== src/Programs/RecvAsync/Stream.antt =====
-- The bytes that the two threads of examples/RecvAsync.cpp send and get, however they are cut.
use clsocket.Programs.Chunk.{answered, went, went-whole}
use clsocket.Base.{
  ℕ, ℤ, pos, ◌≡◌, refl, sym, ap, ◌∙◌, Option, none, some, List, [], ◌∷◌, ◌++◌, map, length,
  length-append, append_assoc, append_nil, arith,
}
use clsocket.Net.{Call, Env, Bytes}
use clsocket.Socket.{Buffer}
use clsocket.Programs.RecvAsync.Server.{echoed, total_length}
use clsocket.Programs.RecvAsync.Polling.{bytes_of, prints}

-- What has been sent, by what each send(2) took, in the order in which it was.
abbrev pub written : Env → List Call → Bytes
written env [] = []
written env (Call.send fd bytes ∷ cs) =
    written env cs ++ went (env.reply (Call.send fd bytes ∷ cs)).ret bytes
written env (c ∷ cs) = written env cs

-- The kernel takes the whole of each chunk that goes back.
abbrev pub Takes : Env → ℕ → ℤ → List Bytes → List Call → Type 0
Takes env max fd [] cs = Unit {0}
Takes env max fd (chunk ∷ chunks) cs =
    ((env.reply (answered max fd chunk cs)).ret ≡ pos (length chunk))
    × Takes env max fd chunks (answered max fd chunk cs)

abbrev pub joined : List Bytes → Bytes
joined [] = []
joined (chunk ∷ chunks) = chunk ++ joined chunks

abbrev pub brought : List (Option Bytes) → Bytes
brought [] = []
brought (none ∷ tries) = brought tries
brought (some chunk ∷ tries) = chunk ++ brought tries

-- What the blocks say one after the other; the latest comes first in the list.
abbrev pub said : List Buffer → Buffer
said [] = []
said (block ∷ blocks) = said blocks ++ block

map-append : (xs ys : Bytes) → map some (xs ++ ys) ≡ map some xs ++ map some ys
map-append [] ys = refl
map-append (x ∷ xs) ys = rw (map-append xs ys)

pub length-joined : (chunks : List Bytes) → length (joined chunks) ≡ total_length chunks
length-joined [] = refl
length-joined (chunk ∷ chunks) =
    omega (arith, length-append chunk (joined chunks), length-joined chunks)

pub length-brought : (tries : List (Option Bytes)) → length (brought tries) ≡ bytes_of tries
length-brought [] = refl
length-brought (none ∷ tries) = length-brought tries
length-brought (some chunk ∷ tries) =
    omega (arith, length-append chunk (brought tries), length-brought tries)

-- The server sends what it gets.
pub written-echoed :
    (env : Env) (max : ℕ) (fd : ℤ) (chunks : List Bytes) (cs : List Call)
    → Takes env max fd chunks cs
    → written env (echoed max fd chunks cs) ≡ written env cs ++ joined chunks
written-echoed env max fd [] cs h = sym (append_nil (written env cs))
written-echoed env max fd (chunk ∷ chunks) cs h =
    written-echoed env max fd chunks (answered max fd chunk cs) h.1
    ∙ ap (λ sent. (written env cs ++ sent) ++ joined chunks)
        (went-whole (env.reply (answered max fd chunk cs)).ret chunk h.0)
    ∙ append_assoc (written env cs) chunk (joined chunks)

-- The client prints what it gets.
pub said-prints :
    (tries : List (Option Bytes)) (printed : List Buffer)
    → said (prints tries printed) ≡ said printed ++ map some (brought tries)
said-prints [] printed = sym (append_nil (said printed))
said-prints (none ∷ tries) printed = said-prints tries printed
said-prints (some chunk ∷ tries) printed =
    said-prints tries (map some chunk ∷ printed)
    ∙ append_assoc (said printed) (map some chunk) (map some (brought tries))
    ∙ ap (λ block. said printed ++ block) (sym (map-append chunk (brought tries)))
