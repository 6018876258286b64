-- ===== src/Socket/SendFile.antt =====
-- `SendFile` of src/SimpleSocket.cpp: the loop that stands in for sendfile(2).
pub mod Count
pub mod Total
use clsocket.Base.{
  ℕ, zero, suc, ℤ, pos, minus_one, ◌==ℤ◌, ◌+ℤ◌, ◌-ℤ◌, as_int32, to_uint32, ltb_ℤ, Option, none,
  some, if◌then◌else◌,
}
use clsocket.Net.{Call}
use clsocket.Socket.{Op, exhausted, pure, ◌>>=◌, ◌>>◌, branch, call, translate_socket_error}

abbrev pub socket_sendfile_blocksize : ℕ
socket_sendfile_blocksize = 8192

-- `nInCount`: what is left, in one block at most. The difference keeps 32 bits.
unfoldable pub block_size : ℤ → ℤ → ℤ
unfolding as_int32 to_uint32 ◌-ℤ◌
block_size count out_count =
    let left = as_int32 (to_uint32 (count -ℤ out_count)) in
    if ltb_ℤ left (pos socket_sendfile_blocksize) then left else pos socket_sendfile_blocksize

-- The body of the loop: the count after it, or `none` where the source returns -1.
unfoldable pub copy_block : ℤ → ℤ → ℤ → ℤ → Op (Option ℤ)
copy_block out_fd in_fd in_count out_count = do
  r ← call (Call.read in_fd in_count)
  branch (r.ret ==ℤ in_count)
      (do
        w ← call (Call.send_block out_fd r.bytes)
        branch (w.ret ==ℤ in_count) (pure (some (out_count +ℤ in_count))) (pure none))
      (pure none)

-- `return -1` leaves the loop; otherwise it goes on with the new count.
abbrev pub unless_failed : (ℤ → Op (Option ℤ)) → Option ℤ → Op (Option ℤ)
unless_failed rest none = pure none
unless_failed rest (some out_count) = rest out_count

unfoldable pub send_file_loop : ℕ → ℤ → ℤ → ℤ → ℤ → Op (Option ℤ)
send_file_loop zero out_fd in_fd count out_count env s = exhausted s
send_file_loop (suc fuel) out_fd in_fd count out_count env s =
    let rest = send_file_loop fuel out_fd in_fd count in
    branch (ltb_ℤ out_count count)
      (do
        copied ← copy_block out_fd in_fd (block_size count out_count) out_count
        unless_failed rest copied)
      (pure (some out_count)) env s

-- The result and the offset afterwards. `nOutCount` starts at `SocketError`, which is -1.
unfoldable pub send_file : ℕ → ℤ → ℤ → ℤ → ℤ → Op (ℤ × ℤ)
send_file fuel out_fd in_fd offset count = do
  r ← call (Call.lseek in_fd offset)
  branch (r.ret ==ℤ minus_one) (pure (minus_one, offset)) (do
    ended ← send_file_loop fuel out_fd in_fd count minus_one
    elim ended [
      | none ↦ pure (minus_one, offset)
      | some out_count ↦ do translate_socket_error; pure (out_count, offset +ℤ out_count)
    ])
