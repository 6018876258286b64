-- ===== src/Host/Conversions.antt =====
-- The 64-bit conversions of src/Host.h, there and back.
use clsocket.Base.{ℕ, ◌+◌, ◌*◌, ◌/◌, ◌%◌, ◌^◌, ◌<◌, ◌≡◌, arith}
use clsocket.Net.{Env}
use clsocket.Host.{htonll, ntohll}

-- What the C library documents of its 32-bit conversions.
pub record Inverts (env : Env) : Type 0 where
  pub htonl_fits : (w : ℕ) → w < 2 ^ 32 → env.htonl w < 2 ^ 32
  pub ntohl-htonl : (w : ℕ) → w < 2 ^ 32 → env.ntohl (env.htonl w) ≡ w

-- If the 32-bit conversions of the C library fit 32 bits and undo each other there, `ntohll` after
-- `htonll` gives back every number below 2 ^ 64.
pub ntohll-htonll : (env : Env) (x : ℕ) → Inverts env → x < 2 ^ 64 → ntohll env (htonll env x) ≡ x
unfolding htonll ntohll
ntohll-htonll env x inv h =
    let lo = x % 2 ^ 32 in
    let hi = x / 2 ^ 32 % 2 ^ 32 in
    let a = env.htonl lo in
    let b = env.htonl hi in
    let y = (a * 2 ^ 32 % 2 ^ 64 + b) % 2 ^ 64 in
    let fa : a < 2 ^ 32 = inv.htonl_fits lo (omega arith) in
    let fb : b < 2 ^ 32 = inv.htonl_fits hi (omega arith) in
    let low : y % 2 ^ 32 ≡ b = omega arith in
    let high : y / 2 ^ 32 % 2 ^ 32 ≡ a = omega arith in
    rw (low, high, inv.ntohl-htonl lo (omega arith), inv.ntohl-htonl hi (omega arith)) (omega arith)
