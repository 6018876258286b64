-- ===== src/Socket/Receive/Memory.antt =====
-- The internal receive buffer of src/SimpleSocket.cpp: its size, and the writes to it.
use clsocket.Base.{
  ℕ, ◌+◌, ◌≤◌, ℤ, pos, negsuc, ◌==ℤ◌, ◌≡◌, refl, Option, none, some, [], ◌∷◌, ◌++◌, map, take, drop,
  length, replicate, length-replicate, length-append, length-drop, length-take, if◌then◌else◌,
  arith,
}
use clsocket.Net.{Bytes, Env}
use clsocket.Socket.{SimpleSocket, Buffer, State, returned}
use clsocket.Socket.Receive.{Target, write_at, prepare}

-- The buffer, if there is one, is as long as `m_nBufferSize` says.
abbrev pub Sized : Option Buffer → ℤ → Type 0
Sized none n = Unit {0}
Sized (some block) n = n ≡ pos (length block)

abbrev pub IsSized : SimpleSocket → Type 0
IsSized s = Sized s.buffer s.buffer_size

pub length-map-some : (bytes : Bytes) → length (map some bytes) ≡ length bytes
length-map-some [] = refl
length-map-some (b ∷ bytes) = omega (arith, length-map-some bytes)

pub length-write_at :
    (offset : ℤ) (bytes : Bytes) (block : Buffer) {written : Buffer}
    → write_at offset bytes block ≡ some written
    → length written ≡ length block
unfolding write_at
length-write_at offset [] block e = ground arith
length-write_at (pos i) (b ∷ bytes) block e = ground (
  arith,
  length-append (take i block ++ map some (b ∷ bytes)) (drop (i + length (b ∷ bytes)) block),
  length-append (take i block) (map some (b ∷ bytes)),
  length-map-some (b ∷ bytes),
  length-take i block,
  length-drop (i + length (b ∷ bytes)) block,
)
length-write_at (negsuc i) (b ∷ bytes) block e = cc

pub write_at_start :
    (bytes : Bytes) (block : Buffer)
    → length bytes ≤ length block
    → write_at (pos 0) bytes block ≡ some (map some bytes ++ drop (length bytes) block)
unfolding write_at
write_at_start [] block h = refl
write_at_start (b ∷ bytes) block h = ground arith

-- Bytes that have room replace as many of the block.
pub length-overwritten :
    (bytes : Bytes) (block : Buffer)
    → length bytes ≤ length block
    → length (map some bytes ++ drop (length bytes) block) ≡ length block
length-overwritten bytes block h =
    length-write_at (pos 0) bytes block (write_at_start bytes block h)

-- The block that `Receive` works on: the one at hand if it has the size asked for, or a new one.
abbrev pub prepared : Option Buffer → ℕ → Buffer
prepared none n = replicate n none
prepared (some block) n = if pos n ==ℤ pos (length block) then block else replicate n none

pub length-prepared : (buffer : Option Buffer) (n : ℕ) → length (prepared buffer n) ≡ n
length-prepared none n = length-replicate n none
length-prepared (some block) n = ground (arith, length-replicate {0} {A = Option ℕ} n none)

pub prepare_lem :
    (env : Env) (s : State) (n : ℕ) (buffer : Option Buffer)
    → s.buffer ≡ buffer
    → Sized buffer s.buffer_size
    → prepare Target.internal (pos n) env s
      ≡ returned tt (record s {
        sock = record s.sock { buffer = some (prepared buffer n); buffer_size = pos n };
      })
unfolding prepare
prepare_lem env s n none e h = ground arith
prepare_lem env s n (some block) e h = ground arith
