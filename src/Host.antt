-- ===== src/Host.antt =====
-- The 64-bit conversions of src/Host.h, as a little-endian host compiles them.
pub mod Conversions
use clsocket.Base.{ℕ, ◌+◌, ◌*◌, ◌/◌, ◌%◌, ◌^◌}
use clsocket.Net.{Env}

-- The swap that both macros spell: the argument of the 32-bit conversion is a `uint32`.
unfoldable swap_words : (ℕ → ℕ) → ℕ → ℕ
swap_words convert x =
    (convert (x % 2 ^ 32) * 2 ^ 32 % 2 ^ 64 + convert (x / 2 ^ 32 % 2 ^ 32)) % 2 ^ 64

unfoldable pub htonll : Env → ℕ → ℕ
unfolding swap_words
htonll env x = swap_words env.htonl x

unfoldable pub ntohll : Env → ℕ → ℕ
unfolding swap_words
ntohll env x = swap_words env.ntohl x
