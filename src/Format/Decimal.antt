-- ===== src/Format/Decimal.antt =====
-- Decimal numbers: what `out << number` writes for an unsigned integer, and the reading of digits
-- in ParseNumberedName of src/format.cc.
pub mod RoundTrip
use kv_mem.Prelude.{
  ℕ, zero, suc, ◌+◌, ◌-◌, ◌*◌, ◌/◌, ◌%◌, ◌^◌, Option, none, some, Bool, true, ◌&&◌, List, [], ◌∷◌,
  ◌++◌, ltb, leb, if◌then◌else◌,
}
use kv_mem.Bytes.{Bytes}

-- The digits of a number below 10 ^ fuel, highest first.
unfoldable pub decimal_digits : ℕ → ℕ → Bytes
decimal_digits zero n = []
decimal_digits (suc fuel) n =
    let rest = decimal_digits fuel (n / 10) in
    if ltb n 10 then (48 + n) ∷ [] else rest ++ ((48 + n % 10) ∷ [])

-- A uint64_t has at most 20 digits.
unfoldable pub decimal : ℕ → Bytes
unfolding decimal_digits
decimal n = decimal_digits 20 n

abbrev pub is_digit : ℕ → Bool
is_digit c = leb 48 c && leb c 57

unfoldable pub all_digits : Bytes → Bool
all_digits [] = true
all_digits (c ∷ rest) = is_digit c && all_digits rest

-- `if (parsed > (max - value) / 10) return false; parsed = parsed * 10 + value;`
unfoldable pub parse_digits : ℕ → Bytes → Option ℕ
parse_digits parsed [] = some parsed
parse_digits parsed (digit ∷ rest) =
    let value = digit - 48 in
    let more = parse_digits (parsed * 10 + value) rest in
    if ltb ((2 ^ 64 - 1 - value) / 10) parsed then none else more
