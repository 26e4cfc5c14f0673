-- ===== src/Format/InternalKey/Laws.antt =====
-- Decoding an internal key is the inverse of encoding it, and the encoding keeps the order of
-- versions: by user key, and newer sequences first.
use native.Mathlib.Nat.{
  div-div-eq-div-mul, div-le_self, div-add-mod', mod-lt, add-mul-mod_self_right, mod-eq_of_lt,
  one-le-pow,
}
use native.Mathlib.Numerals.{towards_suc}
use kv_mem.Prelude.{
  ℕ, zero, suc, ◌+◌, ◌-◌, ◌*◌, ◌/◌, ◌%◌, ◌^◌, ◌<◌, ◌≡◌, refl, sym, ap, ◌∙◌, some, [], ◌∷◌, ◌++◌,
  true, false, ◌&&◌, ◌||◌, length, length-append, drop, take_front, drop_front, get_or,
  append_assoc, arith, bit_or, bit_or_low, bit_and_byte, ◌>>>◌, ◌<<<◌, ltb, if◌then◌else◌,
}
use kv_mem.Bytes.{Bytes, IsU64, bytes_ltb, bytes_eq}
use kv_mem.Format.InternalKey.{
  max_sequence, inverted_bytes, inverted_value, encode_internal_key, decode_internal_key, HasNoNul,
}

next_byte : (i : ℕ) → 2 ^ (suc i * 8) ≡ 2 ^ (i * 8) * 256
next_byte i = let e : suc i * 8 ≡ i * 8 + 8 = omega arith in rw e (simp towards_suc (omega arith))

shift_byte : (x i : ℕ) → x / 2 ^ (suc i * 8) ≡ x / 2 ^ (i * 8) / 256
shift_byte x i = rw (next_byte i) (sym (div-div-eq-div-mul x (2 ^ (i * 8)) 256))

pub length-inverted_bytes : (n x : ℕ) → length (inverted_bytes n x) ≡ n
unfolding inverted_bytes
length-inverted_bytes zero x = refl
length-inverted_bytes (suc n) x = ap suc (length-inverted_bytes n x)

read_byte : (q : ℕ) → IsU64 q → bit_or ((q / 256) <<< 8 % 2 ^ 64) (q % 256) ≡ q
read_byte q h =
    let e : q / 256 * 256 % 2 ^ 64 ≡ q / 256 * 256 = omega arith in
    rw e (rw (bit_or_low 8 (q / 256) (q % 256) (omega arith)) (omega arith))

-- After the rounds down to `n`, the value read is what lies above the bytes still to come.
inverted_value-bytes :
    (n x : ℕ) → IsU64 x → inverted_value (x / 2 ^ (n * 8)) (inverted_bytes n x) ≡ x
unfolding inverted_value inverted_bytes
inverted_value-bytes zero x h = omega arith
inverted_value-bytes (suc n) x h =
    rw (shift_byte x n, bit_and_byte)
      (rw (read_byte (x / 2 ^ (n * 8)) (omega (arith, div-le_self x (2 ^ (n * 8)))))
        (inverted_value-bytes n x h))

inverted_value-inverted_bytes : (x : ℕ) → IsU64 x → inverted_value 0 (inverted_bytes 8 x) ≡ x
inverted_value-inverted_bytes x h =
    let e : 0 ≡ x / 2 ^ 64 = omega arith in rw e (inverted_value-bytes 8 x h)

get_or_front : (xs ys : Bytes) (d : ℕ) → get_or (xs ++ ys) (length xs) d ≡ get_or ys 0 d
get_or_front [] ys d = refl
get_or_front (x ∷ xs) ys d = get_or_front xs ys d

-- The user key is what stands in front of the NUL and the last eight bytes.
decode_trailer :
    (key trailer : Bytes)
    → length trailer ≡ 8
    → decode_internal_key (key ++ (0 ∷ trailer))
      ≡ some (key, max_sequence - inverted_value 0 trailer)
unfolding decode_internal_key
decode_trailer key trailer h =
    let size : length (key ++ (0 ∷ trailer)) ≡ length key + 9 =
      omega (arith, length-append key (0 ∷ trailer)) in
    let cut : length key + 9 - 9 ≡ length key = omega arith in
    let low : length key + 9 - 8 ≡ length key + 1 = omega arith in
    let short : ltb (length key + 9) 9 ≡ false = ground arith in
    let nul : get_or (key ++ (0 ∷ trailer)) (length key) 0 ≡ 0 = get_or_front key (0 ∷ trailer) 0 in
    let tail : drop (length key + 1) (key ++ (0 ∷ trailer)) ≡ trailer =
      rw (← append_assoc key (0 ∷ []) trailer) (
        drop_front (length key + 1) (key ++ (0 ∷ [])) trailer
          (omega (arith, length-append key (0 ∷ [])))) in
    rw (size, cut, low, short, nul, tail) (rw (take_front (length key) key (0 ∷ trailer) refl))

-- Decoding gives back the user key and the sequence, whatever bytes the user key holds.
pub decode-encode_internal_key :
    (key : Bytes) (sequence : ℕ)
    → IsU64 sequence
    → decode_internal_key (encode_internal_key key sequence) ≡ some (key, sequence)
unfolding encode_internal_key
decode-encode_internal_key key sequence h =
    rw (decode_trailer key (inverted_bytes 8 (max_sequence - sequence)) (length-inverted_bytes 8 _))
      (rw (inverted_value-inverted_bytes (max_sequence - sequence) (omega arith))
        (let e : max_sequence - (max_sequence - sequence) ≡ sequence = omega arith in rw e))

digits_fit : (m a r : ℕ) → a < 256 → r < m → a * m + r < m * 256
digits_fit m a r ha hr = grind arith

digits_lt : (m a b r : ℕ) → r < m → a < b → a * m + r < b * m
digits_lt m a b r hr h = grind arith

-- Two-digit numbers compare by the high digit first.
ltb_digits :
    (m a b r s : ℕ)
    → r < m
    → s < m
    → (if ltb a b then true else if ltb b a then false else ltb r s) ≡ ltb (a * m + r) (b * m + s)
ltb_digits m a b r s hr hs = ground (arith, digits_lt m a b r hr, digits_lt m b a s hs)

-- A number below 256 * m, split at m.
split_at : (x m : ℕ) → 0 < m → x % (m * 256) ≡ x / m % 256 * m + x % m
split_at x m pos =
    let low : ℕ = x / m % 256 * m + x % m in
    let whole : x ≡ low + x / m / 256 * (m * 256) =
      omega (arith, div-add-mod' x m, ap (λ (t : ℕ). t * m) (div-add-mod' (x / m) 256)) in
    let fits : low < m * 256 = digits_fit m (x / m % 256) (x % m) (omega arith) (mod-lt x pos) in
    ap (λ (t : ℕ). t % (m * 256)) whole
    ∙ add-mul-mod_self_right low (x / m / 256) (m * 256)
    ∙ mod-eq_of_lt fits

-- Big-endian bytes compare as the numbers do.
bytes_ltb-inverted_bytes :
    (n x y : ℕ)
    → bytes_ltb (inverted_bytes n x) (inverted_bytes n y) ≡ ltb (x % 2 ^ (n * 8)) (y % 2 ^ (n * 8))
unfolding bytes_ltb inverted_bytes
bytes_ltb-inverted_bytes zero x y = ground arith
bytes_ltb-inverted_bytes (suc n) x y =
    let m : ℕ = 2 ^ (n * 8) in
    let pos : 0 < m = one-le-pow (n * 8) 2 (omega arith) in
    rw (bit_and_byte (x >>> (n * 8)), bit_and_byte (y >>> (n * 8)), bytes_ltb-inverted_bytes n x y)
      (rw (next_byte n, split_at x m pos, split_at y m pos)
        (ltb_digits m (x / m % 256) (y / m % 256) (x % m) (y % m) (mod-lt x pos) (mod-lt y pos)))

-- Both keys free of NUL, as ValidateKey has them: encoded internal keys compare by user key, and
-- for one user key the newer sequence comes first.
pub bytes_ltb-encode_internal_key :
    (k j : Bytes) (s t : ℕ)
    → HasNoNul k
    → HasNoNul j
    → IsU64 s
    → IsU64 t
    → bytes_ltb (encode_internal_key k s) (encode_internal_key j t)
      ≡ (bytes_ltb k j || (bytes_eq k j && ltb t s))
unfolding encode_internal_key bytes_ltb bytes_eq
bytes_ltb-encode_internal_key [] [] s t hk hj hs ht =
    rw (bytes_ltb-inverted_bytes 8 (max_sequence - s) (max_sequence - t)) (ground arith)
bytes_ltb-encode_internal_key [] (y ∷ ys) s t hk hj hs ht = ground arith
bytes_ltb-encode_internal_key (x ∷ xs) [] s t hk hj hs ht = ground arith
bytes_ltb-encode_internal_key (x ∷ xs) (y ∷ ys) s t hk hj hs ht =
    ground (arith, bytes_ltb-encode_internal_key xs ys s t hk.1 hj.1 hs ht)
