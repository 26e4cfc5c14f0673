-- ===== src/Prelude/Bits.antt =====
-- The bit operations that the source uses on words, as arithmetic: a mask of low bits is a
-- remainder, and `|` of fields that do not meet is a sum.
use Prim.Native.Nat.{
  ℕ, zero, suc, ◌+◌, ◌*◌, ◌/◌, ◌%◌, ◌^◌, ◌≤◌, ◌<◌, min, max, bit_and, bit_or, bitwise, digits,
  bit_and-bitwise, bit_or-bitwise,
}
use mathlib.Core.Path.{◌≡◌, refl, ap}
use mathlib.Core.WellFounded
use native.Mathlib.Omega.{arith}
use native.Mathlib.Nat.{pow-suc, le_refl}
use kv_mem.Prelude.Order.{lt_wf}

infixl 72 ◌<<<◌ ◌>>>◌
abbrev pub ◌<<<◌ : ℕ → ℕ → ℕ
x <<< k = x * 2 ^ k

abbrev pub ◌>>>◌ : ℕ → ℕ → ℕ
x >>> k = x / 2 ^ k

-- More fuel than the number needs changes nothing.
module _ (z : ℕ → ℕ) (f : ℕ → ℕ → ℕ) where
  enough_fuel : (n m a b : ℕ) → a ≤ n → a ≤ m → digits z f n a b ≡ digits z f m a b
  enough_fuel zero (suc m) zero b p q = refl
  enough_fuel (suc n) (suc m) zero b p q = refl
  enough_fuel (suc n) zero zero b p q = refl
  enough_fuel zero zero a b p q = refl
  enough_fuel (suc n) (suc m) (suc a) b p q =
      rw (enough_fuel n m (suc a / 2) (b / 2) (omega arith) (omega arith))
  enough_fuel _ _ (suc a) b p q = absurd (omega arith)

  lowest_digit :
      (a b : ℕ)
      → bitwise z f (suc a) b ≡ bitwise z f (suc a / 2) (b / 2) * 2 + f (suc a % 2) (b % 2)
  lowest_digit a b =
      omega (arith, enough_fuel a (suc a / 2) (suc a / 2) (b / 2) (omega arith) (le_refl _))

or_step : (a b : ℕ) → bit_or a b ≡ bit_or (a / 2) (b / 2) * 2 + max (a % 2) (b % 2)
or_step zero b = simp bit_or-bitwise (omega arith)
or_step (suc a) b = simp bit_or-bitwise (lowest_digit (λ y. y) max a b)

and_step : (a b : ℕ) → bit_and a b ≡ bit_and (a / 2) (b / 2) * 2 + min (a % 2) (b % 2)
and_step zero b = simp bit_and-bitwise (omega arith)
and_step (suc a) b = simp bit_and-bitwise (lowest_digit (λ y. 0) min a b)

zero-bit_or : (b : ℕ) → bit_or 0 b ≡ b
zero-bit_or b = simp bit_or-bitwise

-- Both go from `n / 2` to `n`.
bit_and-zero_step : (n : ℕ) → ((m : ℕ) → m < n → bit_and m 0 ≡ 0) → bit_and n 0 ≡ 0
bit_and-zero_step zero ih = refl
bit_and-zero_step (suc n) ih = omega (arith, and_step (suc n) 0, ih (suc n / 2) (omega arith))

bit_and-zero : (a : ℕ) → bit_and a 0 ≡ 0
bit_and-zero a = WellFounded.induction lt_wf a bit_and-zero_step

bit_or-zero_step : (n : ℕ) → ((m : ℕ) → m < n → bit_or m 0 ≡ m) → bit_or n 0 ≡ n
bit_or-zero_step zero ih = refl
bit_or-zero_step (suc n) ih = omega (arith, or_step (suc n) 0, ih (suc n / 2) (omega arith))

bit_or-zero : (a : ℕ) → bit_or a 0 ≡ a
bit_or-zero a = WellFounded.induction lt_wf a bit_or-zero_step

shifted : (q k : ℕ) → q * 2 ^ suc k ≡ 2 * (q * 2 ^ k)
shifted q k = omega (arith, ap (λ (t : ℕ). q * t) (pow-suc 2 k))

-- `r | (q << k)` is a sum when `r` fits `k` bits.
pub bit_or_high : (k r q : ℕ) → r < 2 ^ k → bit_or r (q <<< k) ≡ r + q * 2 ^ k
bit_or_high zero r q fits = ground (arith, zero-bit_or q)
bit_or_high (suc k) r q fits = ground (
  arith,
  or_step r (q * 2 ^ suc k),
  shifted q k,
  pow-suc 2 k,
  bit_or_high k (r / 2) q (omega (arith, pow-suc 2 k)),
)

-- `(q << k) | r` likewise.
pub bit_or_low : (k q r : ℕ) → r < 2 ^ k → bit_or (q <<< k) r ≡ q * 2 ^ k + r
bit_or_low zero q r fits = ground (arith, bit_or-zero q)
bit_or_low (suc k) q r fits = ground (
  arith,
  or_step (q * 2 ^ suc k) r,
  shifted q k,
  pow-suc 2 k,
  bit_or_low k q (r / 2) (omega (arith, pow-suc 2 k)),
)

-- `x & 0xff` keeps the low byte: the mask shrinks by a digit at a time.
and_1 : (x : ℕ) → bit_and x 1 ≡ x % 2
and_1 x = omega (arith, and_step x 1, bit_and-zero (x / 2))

and_3 : (x : ℕ) → bit_and x 3 ≡ x % 4
and_3 x = omega (arith, and_step x 3, and_1 (x / 2))

and_7 : (x : ℕ) → bit_and x 7 ≡ x % 8
and_7 x = omega (arith, and_step x 7, and_3 (x / 2))

and_15 : (x : ℕ) → bit_and x 15 ≡ x % 16
and_15 x = omega (arith, and_step x 15, and_7 (x / 2))

and_31 : (x : ℕ) → bit_and x 31 ≡ x % 32
and_31 x = omega (arith, and_step x 31, and_15 (x / 2))

and_63 : (x : ℕ) → bit_and x 63 ≡ x % 64
and_63 x = omega (arith, and_step x 63, and_31 (x / 2))

and_127 : (x : ℕ) → bit_and x 127 ≡ x % 128
and_127 x = omega (arith, and_step x 127, and_63 (x / 2))

pub bit_and_byte : (x : ℕ) → bit_and x 0xff ≡ x % 256
bit_and_byte x = omega (arith, and_step x 255, and_127 (x / 2))

-- A mask finds the bits that `|` put there, and `|` takes no bit away.
zero-bit_and : (b : ℕ) → bit_and 0 b ≡ 0
zero-bit_and b = simp bit_and-bitwise

or_half : (x y : ℕ) → bit_or x y / 2 ≡ bit_or (x / 2) (y / 2)
or_half x y = omega (arith, or_step x y)

and_or_step :
    (x y m : ℕ)
    → bit_and (bit_or x y) m
      ≡ bit_and (bit_or (x / 2) (y / 2)) (m / 2) * 2 + min (max (x % 2) (y % 2)) (m % 2)
and_or_step x y m =
    omega (arith, and_step (bit_or x y) m, ap (λ t. bit_and t (m / 2)) (or_half x y), or_step x y)

masked_step :
    (m : ℕ)
    → ((k : ℕ) → k < m → (x : ℕ) → bit_and (bit_or x k) k ≡ k)
    → (x : ℕ) → bit_and (bit_or x m) m ≡ m
masked_step zero ih x = bit_and-zero (bit_or x 0)
masked_step (suc m) ih x =
    omega (arith, and_or_step x (suc m) (suc m), ih (suc m / 2) (omega arith) (x / 2))

pub bit_and-bit_or : (x m : ℕ) → bit_and (bit_or x m) m ≡ m
bit_and-bit_or x m = WellFounded.induction lt_wf m masked_step x

kept_step :
    (x : ℕ)
    → ((k : ℕ) → k < x → (y m : ℕ) → bit_and k m ≤ bit_and (bit_or k y) m)
    → (y m : ℕ) → bit_and x m ≤ bit_and (bit_or x y) m
kept_step zero ih y m = omega (arith, zero-bit_and m)
kept_step (suc x) ih y m = omega (
  arith,
  and_step (suc x) m,
  and_or_step (suc x) y m,
  ih (suc x / 2) (omega arith) (y / 2) (m / 2),
)

pub bit_and-bit_or_le : (x y m : ℕ) → bit_and x m ≤ bit_and (bit_or x y) m
bit_and-bit_or_le x y m = WellFounded.induction lt_wf x kept_step y m
