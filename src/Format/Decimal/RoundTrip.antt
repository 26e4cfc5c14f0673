-- ===== src/Format/Decimal/RoundTrip.antt =====
-- Reading back the digits of a number gives the number.
use kv_mem.Prelude.{
  ℕ, zero, suc, ◌+◌, ◌-◌, ◌*◌, ◌/◌, ◌%◌, ◌^◌, ◌<◌, ◌≤◌, ◌≡◌, refl, ap, ◌∙◌, some, true, [], ◌∷◌,
  ◌++◌, All, replicate, arith, Bool-cases, inl, inr, ltb, ltb→lt,
}
use native.Mathlib.Nat.{pow-suc}
use kv_mem.Bytes.{Bytes, IsU64}
use kv_mem.Format.Decimal.{decimal_digits, decimal, all_digits, parse_digits}

abbrev pub IsDigit : ℕ → Type 0
IsDigit c = (48 ≤ c) × (c ≤ 57)

-- The number that digits stand for, behind those read so far.
abbrev value_of : ℕ → Bytes → ℕ
value_of acc [] = acc
value_of acc (c ∷ rest) = value_of (acc * 10 + (c - 48)) rest

value_of-append :
    (acc : ℕ) (xs : Bytes) (c : ℕ) → value_of acc (xs ++ (c ∷ [])) ≡ value_of acc xs * 10 + (c - 48)
value_of-append acc [] c = refl
value_of-append acc (x ∷ xs) c = value_of-append (acc * 10 + (x - 48)) xs c

value_of-decimal_digits : (fuel n : ℕ) → n < 10 ^ fuel → value_of 0 (decimal_digits fuel n) ≡ n
unfolding decimal_digits
value_of-decimal_digits zero n h = omega arith
value_of-decimal_digits (suc fuel) n h = ground (
  arith,
  value_of-append 0 (decimal_digits fuel (n / 10)) (48 + n % 10),
  value_of-decimal_digits fuel (n / 10),
  pow-suc 10 fuel,
)

All-snoc : (xs : Bytes) (c : ℕ) → All IsDigit xs → IsDigit c → All IsDigit (xs ++ (c ∷ []))
All-snoc [] c h k = (k, tt)
All-snoc (x ∷ xs) c h k = (h.0, All-snoc xs c h.1 k)

decimal_digits-IsDigit : (fuel n : ℕ) → All IsDigit (decimal_digits fuel n)
unfolding decimal_digits
decimal_digits-IsDigit zero n = tt
decimal_digits-IsDigit (suc fuel) n = elim (Bool-cases (ltb n 10)) [
  | inl small ↦ rw small (omega (arith, ltb→lt n 10 small))
  | inr more ↦ rw more (All-snoc _ _ (decimal_digits-IsDigit fuel (n / 10)) (omega arith))
]

value_of-le : (acc : ℕ) (xs : Bytes) → acc ≤ value_of acc xs
value_of-le acc [] = omega arith
value_of-le acc (x ∷ xs) = omega (arith, value_of-le (acc * 10 + (x - 48)) xs)

-- Digits whose value fits 64 bits pass the overflow test in every round.
parse_digits-value_of :
    (acc : ℕ) (xs : Bytes)
    → All IsDigit xs
    → IsU64 (value_of acc xs)
    → parse_digits acc xs ≡ some (value_of acc xs)
unfolding parse_digits
parse_digits-value_of acc [] d h = refl
parse_digits-value_of acc (x ∷ xs) d h = ground (
  arith,
  value_of-le (acc * 10 + (x - 48)) xs,
  parse_digits-value_of (acc * 10 + (x - 48)) xs d.1 h,
)

value_of_zeros : (n : ℕ) (xs : Bytes) → value_of 0 (replicate n 48 ++ xs) ≡ value_of 0 xs
value_of_zeros zero xs = refl
value_of_zeros (suc n) xs = value_of_zeros n xs

zeros-IsDigit : (n : ℕ) (xs : Bytes) → All IsDigit xs → All IsDigit (replicate n 48 ++ xs)
zeros-IsDigit zero xs h = h
zeros-IsDigit (suc n) xs h = (omega arith, zeros-IsDigit n xs h)

-- A number that fits 64 bits is read back from its decimal digits, padded with zeros or not.
pub parse_digits-decimal :
    (n padding : ℕ) → IsU64 n → parse_digits 0 (replicate padding 48 ++ decimal n) ≡ some n
unfolding decimal
parse_digits-decimal n padding h =
    let e : value_of 0 (replicate padding 48 ++ decimal_digits 20 n) ≡ n =
      value_of_zeros padding (decimal_digits 20 n) ∙ value_of-decimal_digits 20 n (omega arith) in
    parse_digits-value_of 0 _ (zeros-IsDigit padding _ (decimal_digits-IsDigit 20 n)) (rw e h)
    ∙ ap some e

all_digits_of_IsDigit : (xs : Bytes) → All IsDigit xs → all_digits xs ≡ true
unfolding all_digits
all_digits_of_IsDigit [] h = refl
all_digits_of_IsDigit (x ∷ xs) h = ground (arith, all_digits_of_IsDigit xs h.1)

pub all_digits-decimal : (n padding : ℕ) → all_digits (replicate padding 48 ++ decimal n) ≡ true
unfolding decimal
all_digits-decimal n padding =
    all_digits_of_IsDigit _ (zeros-IsDigit padding _ (decimal_digits-IsDigit 20 n))

-- What is read from digits fits 64 bits.
pub parse_digits-IsU64 :
    (acc : ℕ) (xs : Bytes) (n : ℕ)
    → IsU64 acc
    → all_digits xs ≡ true
    → parse_digits acc xs ≡ some n
    → IsU64 n
unfolding parse_digits all_digits
parse_digits-IsU64 acc [] n h d e = ground arith
parse_digits-IsU64 acc (x ∷ xs) n h d e =
    ground (arith, parse_digits-IsU64 (acc * 10 + (x - 48)) xs n)
