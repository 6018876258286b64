-- ===== src/Socket/Lifecycle/Copy.antt =====
-- The copy constructor and the assignment of `CSimpleSocket` (src/SimpleSocket.cpp).
use clsocket.Base.{
  take-length, ℕ, zero, suc, ℤ, pos, ◌==ℤ◌, ◌≡◌, refl, Option, negsuc, none, some, [], ◌∷◌,
  if◌then◌else◌, arith,
}
use clsocket.Net.{Env}
use clsocket.Socket.{SimpleSocket, Buffer, State, Outcome, Ends, returned, fault}
use clsocket.Socket.Lifecycle.{close, copied_buffer, copy_construct, assign}
use clsocket.Socket.Receive.Memory.{Sized, IsSized}

-- The bytes that there are to copy. `Close` frees the buffer and leaves its size on record.
abbrev pub content : Option Buffer → ℤ → Option Buffer
content none size = if size ==ℤ pos 0 then some [] else none
content (some block) size = some block

copied_buffer-content :
    (buffer : Option Buffer) (size : ℤ)
    → Sized buffer size
    → copied_buffer buffer size ≡ content buffer size
unfolding copied_buffer
copied_buffer-content none (pos zero) sized = refl
copied_buffer-content none (pos (suc n)) sized = ground arith
copied_buffer-content none (negsuc n) sized = ground arith
copied_buffer-content (some []) (pos zero) sized = refl
copied_buffer-content (some (b ∷ block)) (pos zero) sized = ground arith
copied_buffer-content (some block) (pos (suc n)) sized = ground (arith, take-length block)
copied_buffer-content (some block) (negsuc n) sized = ground arith

-- What a copy of the object is, or the fault of making one.
abbrev pub copied : SimpleSocket → SimpleSocket → State → Outcome SimpleSocket
copied memory other s = elim (content other.buffer other.buffer_size) [
  | none ↦ fault
  | some block ↦ returned (record memory { buffer = some block; buffer_size = other.buffer_size }) s
]

-- The copy constructor, on an object whose buffer has the size it records, gives the memory it is
-- run in with a buffer of the same bytes and the same size, and every other member as the memory
-- had it; without a buffer it does so with an empty one if the size on record is 0, and otherwise
-- it reads from a null pointer or asks for a negative size.
pub copy_construct_lem :
    (env : Env) (s : State) (memory other : SimpleSocket)
    → IsSized other
    → copy_construct memory other env s ≡ copied memory other s
unfolding copy_construct
copy_construct_lem env s memory other sized =
    ground (arith, copied_buffer-content other.buffer other.buffer_size sized)

-- After `close` of an object with a positive size on record, the copy constructor applied to it
-- reads from a null pointer.
copy_construct-close :
    (env : Env) (s : State) (memory : SimpleSocket) (n : ℕ)
    → s.buffer_size ≡ pos (suc n)
    → Ends (close env s) λ done s'. copy_construct memory s'.sock env s' ≡ fault
unfolding close copy_construct copied_buffer
copy_construct-close env s memory n e = ground arith

assign-same_size :
    (env : Env) (s : State) (other : SimpleSocket)
    → s.buffer_size ≡ other.buffer_size
    → assign other env s ≡ returned tt s
unfolding assign
assign-same_size env s other e = ground arith
