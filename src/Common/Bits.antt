-- ===== src/Common/Bits.antt =====
-- `&` and `|` of the native numbers as arithmetic: a low mask is a remainder, and fields that do
-- not overlap add up. Both go digit by digit, over a bound on the number of digits.
use Prim.Native.Nat.{digits, bit_and-bitwise, bit_or-bitwise}
use native.Mathlib.Nat.{pow-suc, one-le-pow, mod-lt, div-div-eq-div-mul, div-add-mod'}
use winterjs.Common.{
  ℕ, zero, suc, ◌+◌, ◌-◌, ◌*◌, ◌/◌, ◌%◌, ◌^◌, ◌≤◌, ◌<◌, min, max, bit_and, bit_or,
}
use winterjs.Common.{◌≡◌, refl, ap, ap₂, arith, Bool, true, ◌&&◌, ◌==◌}

-- The digit recursion does not depend on its fuel, once there is enough.
module _ (g : ℕ → ℕ) (f : ℕ → ℕ → ℕ) where
  digits_enough : (n m a b : ℕ) → a ≤ n → a ≤ m → digits g f n a b ≡ digits g f m a b
  digits_enough zero zero a b h k = refl
  digits_enough zero (suc m) zero b h k = refl
  digits_enough zero (suc m) (suc a) b h k = absurd (omega arith)
  digits_enough (suc n) zero zero b h k = refl
  digits_enough (suc n) zero (suc a) b h k = absurd (omega arith)
  digits_enough (suc n) (suc m) zero b h k = refl
  digits_enough (suc n) (suc m) (suc a) b h k =
      omega (arith, digits_enough n m (suc a / 2) (b / 2) (omega arith) (omega arith))

and_step : (a b : ℕ) → bit_and a b ≡ bit_and (a / 2) (b / 2) * 2 + min (a % 2) (b % 2)
and_step zero b = omega (arith, bit_and-bitwise 0 b, bit_and-bitwise 0 (b / 2))
and_step (suc a) b = omega (
  arith,
  bit_and-bitwise (suc a) b,
  bit_and-bitwise (suc a / 2) (b / 2),
  digits_enough (λ b. zero) min a (suc a / 2) (suc a / 2) (b / 2) (omega arith) (omega arith),
)

or_step : (a b : ℕ) → bit_or a b ≡ bit_or (a / 2) (b / 2) * 2 + max (a % 2) (b % 2)
or_step zero b = omega (arith, bit_or-bitwise 0 b, bit_or-bitwise 0 (b / 2))
or_step (suc a) b = omega (
  arith,
  bit_or-bitwise (suc a) b,
  bit_or-bitwise (suc a / 2) (b / 2),
  digits_enough (λ b. b) max a (suc a / 2) (suc a / 2) (b / 2) (omega arith) (omega arith),
)

pub zero-bit_or : (b : ℕ) → bit_or 0 b ≡ b
zero-bit_or b = bit_or-bitwise 0 b

or-zero_below : (n a : ℕ) → a ≤ n → bit_or a 0 ≡ a
or-zero_below n zero h = refl
or-zero_below zero (suc a) h = absurd (omega arith)
or-zero_below (suc n) (suc a) h =
    omega (arith, or_step (suc a) 0, or-zero_below n (suc a / 2) (omega arith))

pub bit_or-zero : (a : ℕ) → bit_or a 0 ≡ a
bit_or-zero a = or-zero_below a a (omega arith)

and-zero_below : (n a : ℕ) → a ≤ n → bit_and a 0 ≡ 0
and-zero_below n zero h = refl
and-zero_below zero (suc a) h = absurd (omega arith)
and-zero_below (suc n) (suc a) h =
    omega (arith, and_step (suc a) 0, and-zero_below n (suc a / 2) (omega arith))

pub bit_and-zero : (a : ℕ) → bit_and a 0 ≡ 0
bit_and-zero a = and-zero_below a a (omega arith)

-- A field shifted left by `k`, joined with one that fits in `k` bits.
pub bit_or-add : (k q r : ℕ) → r < 2 ^ k → bit_or (q * 2 ^ k) r ≡ q * 2 ^ k + r
bit_or-add zero q r h = ground (arith, bit_or-zero q)
bit_or-add (suc k) q r h = ground (
  arith,
  or_step (q * 2 ^ suc k) r,
  ap (λ (t : ℕ). q * t) (pow-suc 2 k),
  pow-suc 2 k,
  bit_or-add k q (r / 2) (omega (arith, pow-suc 2 k)),
)

-- The same with the fields in the other order.
or_comm_below : (n a b : ℕ) → a ≤ n → bit_or a b ≡ bit_or b a
or_comm_below n zero b h = omega (arith, zero-bit_or b, bit_or-zero b)
or_comm_below zero (suc a) b h = absurd (omega arith)
or_comm_below (suc n) (suc a) b h =
    omega (
      arith,
      or_step (suc a) b,
      or_step b (suc a),
      or_comm_below n (suc a / 2) (b / 2) (omega arith),
    )

pub bit_or_comm : (a b : ℕ) → bit_or a b ≡ bit_or b a
bit_or_comm a b = or_comm_below a a b (omega arith)

-- Halving a number in fields, and halving a mask.
halves : (k q r : ℕ) → (q * 2 ^ suc k + r) / 2 ≡ q * 2 ^ k + r / 2
halves k q r = omega (arith, ap (λ (t : ℕ). q * t) (pow-suc 2 k))

half_mask : (k : ℕ) → (2 ^ suc k - 1) / 2 ≡ 2 ^ k - 1
half_mask k = omega (arith, pow-suc 2 k)

low_field : (k q r : ℕ) → r < 2 ^ k → bit_and (q * 2 ^ k + r) (2 ^ k - 1) ≡ r
low_field zero q r h = omega (arith, bit_and-zero (q * 2 ^ 0 + r))
low_field (suc k) q r h = omega (
  arith,
  and_step (q * 2 ^ suc k + r) (2 ^ suc k - 1),
  ap (λ (t : ℕ). q * t) (pow-suc 2 k),
  pow-suc 2 k,
  one-le-pow k 2 (omega arith),
  ap₂ bit_and (halves k q r) (half_mask k),
  low_field k q (r / 2) (omega (arith, pow-suc 2 k)),
)

-- A mask of `k` low bits keeps the remainder.
pub bit_and-mod : (k a : ℕ) → bit_and a (2 ^ k - 1) ≡ a % 2 ^ k
bit_and-mod k a = omega (
  arith,
  one-le-pow k 2 (omega arith),
  low_field k (a / 2 ^ k) (a % 2 ^ k) (mod-lt a (one-le-pow k 2 (omega arith))),
  ap (λ (t : ℕ). bit_and t (2 ^ k - 1)) (div-add-mod' a (2 ^ k)),
)

-- A mask of one bit.
pub bit_and-one_bit : (k a : ℕ) → bit_and a (2 ^ k) ≡ a / 2 ^ k % 2 * 2 ^ k
bit_and-one_bit zero a = omega (arith, and_step a 1, bit_and-zero (a / 2))
bit_and-one_bit (suc k) a = rw shifted (
    omega (
      arith,
      and_step a (2 ^ suc k),
      pow-suc 2 k,
      ap (bit_and (a / 2)) (let e : 2 ^ suc k / 2 ≡ 2 ^ k = omega (arith, pow-suc 2 k) in e),
      bit_and-one_bit k (a / 2),
      ap (λ (t : ℕ). a / 2 / 2 ^ k % 2 * t) (pow-suc 2 k),
    ))
  where
    shifted : a / 2 ^ suc k ≡ a / 2 / 2 ^ k
    shifted =
        rw (div-div-eq-div-mul a 2 (2 ^ k)) (ap (λ (t : ℕ). a / t) (omega (arith, pow-suc 2 k)))

-- Over a small range, two functions are compared by evaluation.
module _ (f g : ℕ → ℕ) where
  unfoldable pub agree_below : ℕ → Bool
  agree_below zero = true
  agree_below (suc n) = (f n == g n) && agree_below n

  pub agree_below-eq : (n i : ℕ) → agree_below n ≡ true → i < n → f i ≡ g i
  unfolding agree_below
  agree_below-eq zero i e h = absurd (omega arith)
  agree_below-eq (suc n) i e h = ground (arith, agree_below-eq n i)
