-- ===== src/Socket/Options/Bits.antt =====
-- What `|` and `& ~` of src/SimpleSocket.cpp do to the flags, for any mask.
use Prim.Native.Nat.{min, max, digits, bit_and-bitwise, bit_or-bitwise, bit_and, bit_or}
use clsocket.Base.{ℕ, zero, suc, ◌+◌, ◌*◌, ◌/◌, ◌%◌, ◌≤◌, ◌≡◌, refl, ap, arith}
use clsocket.Socket.Options.{clear_bits}

-- Once there are digits enough to go, their number is of no matter.
enough_digits :
    (z : ℕ → ℕ) (f : ℕ → ℕ → ℕ) (a b k l : ℕ) → a ≤ k → a ≤ l → digits z f k a b ≡ digits z f l a b
enough_digits z f zero b zero zero h i = refl
enough_digits z f zero b zero (suc l) h i = refl
enough_digits z f zero b (suc k) zero h i = refl
enough_digits z f zero b (suc k) (suc l) h i = refl
enough_digits z f (suc a) b zero l h i = absurd (omega (arith, h))
enough_digits z f (suc a) b (suc k) zero h i = absurd (omega (arith, i))
enough_digits z f (suc a) b (suc k) (suc l) h i =
    ap (λ t. t * 2 + f (suc a % 2) (b % 2))
      (enough_digits z f (suc a / 2) (b / 2) k l (omega (arith, h)) (omega (arith, i)))

-- The lowest digit, and the others.
lowest_or : (a b : ℕ) → bit_or a b ≡ bit_or (a / 2) (b / 2) * 2 + max (a % 2) (b % 2)
lowest_or zero b = omega (arith, bit_or-bitwise 0 b, bit_or-bitwise 0 (b / 2))
lowest_or (suc a) b = omega (
  arith,
  bit_or-bitwise (suc a) b,
  bit_or-bitwise (suc a / 2) (b / 2),
  enough_digits (λ t. t) max (suc a / 2) (b / 2) a (suc a / 2) (omega arith) (omega arith),
)

lowest_and : (a b : ℕ) → bit_and a b ≡ bit_and (a / 2) (b / 2) * 2 + min (a % 2) (b % 2)
lowest_and zero b = omega (arith, bit_and-bitwise 0 b, bit_and-bitwise 0 (b / 2))
lowest_and (suc a) b = omega (
  arith,
  bit_and-bitwise (suc a) b,
  bit_and-bitwise (suc a / 2) (b / 2),
  enough_digits (λ t. 0) min (suc a / 2) (b / 2) a (suc a / 2) (omega arith) (omega arith),
)

-- Both at once, on the digits that are left: the union contains the mask, and counts what they share
-- once.
abbrev Facts : ℕ → ℕ → Type 0
Facts a m = (bit_and (bit_or a m) m ≡ m) × (bit_or a m + bit_and a m ≡ a + m)

half-Facts : (a m : ℕ) → Facts (a / 2) (m / 2) → Facts a m
half-Facts a m h =
    let digit : bit_or a m / 2 ≡ bit_or (a / 2) (m / 2) = omega (arith, lowest_or a m) in
    (
      omega
          (arith, lowest_and (bit_or a m) m, ap (λ t. bit_and t (m / 2)) digit, h.0, lowest_or a m),
      omega (arith, lowest_or a m, lowest_and a m, h.1),
    )

all-Facts : (n a m : ℕ) → a + m ≤ n → Facts a m
all-Facts zero zero zero h = (refl, refl)
all-Facts zero zero (suc m) h = absurd (omega (arith, h))
all-Facts zero (suc a) m h = absurd (omega (arith, h))
all-Facts (suc n) zero zero h = (refl, refl)
all-Facts (suc n) zero (suc m) h =
    half-Facts 0 (suc m) (all-Facts n 0 (suc m / 2) (omega (arith, h)))
all-Facts (suc n) (suc a) m h =
    half-Facts (suc a) m (all-Facts n (suc a / 2) (m / 2) (omega (arith, h)))

-- Taking away the bits that were put in leaves what there was beside them.
pub clear_bits-bit_or : (a m : ℕ) → clear_bits (bit_or a m) m ≡ clear_bits a m
unfolding clear_bits
clear_bits-bit_or a m =
    omega (arith, (all-Facts (a + m) a m (omega arith)).0, (all-Facts (a + m) a m (omega arith)).1)
