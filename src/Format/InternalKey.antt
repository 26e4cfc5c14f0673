-- ===== src/Format/InternalKey.antt =====
-- EncodeInternalKey and DecodeInternalKey of src/format.cc.
pub mod Laws
use kv_mem.Prelude.{
  ℕ, zero, suc, ◌+◌, ◌-◌, ◌*◌, ◌%◌, ◌^◌, ◌<◌, Option, none, some, List, [], ◌∷◌, ◌++◌, Bool, not,
  ◌||◌, length, take, drop, get_or, bit_and, bit_or, ◌<<<◌, ◌>>>◌, ltb, ◌==◌, if◌then◌else◌, All,
}
use kv_mem.Bytes.{Bytes}

abbrev pub max_sequence : ℕ
max_sequence = 2 ^ 64 - 1

-- for (int i = n - 1; i >= 0; --i) push_back((inverted >> (i * 8)) & 0xff)
unfoldable pub inverted_bytes : ℕ → ℕ → Bytes
inverted_bytes zero inverted = []
inverted_bytes (suc i) inverted = bit_and (inverted >>> (i * 8)) 0xff ∷ inverted_bytes i inverted

unfoldable pub encode_internal_key : Bytes → ℕ → Bytes
encode_internal_key user_key sequence = user_key ++ (0 ∷ inverted_bytes 8 (max_sequence - sequence))

-- inverted = (inverted << 8) | ptr[i], over the bytes from ptr on
unfoldable pub inverted_value : ℕ → Bytes → ℕ
inverted_value inverted [] = inverted
inverted_value inverted (b ∷ rest) = inverted_value (bit_or (inverted <<< 8 % 2 ^ 64) b) rest

abbrev pub trailer_size : ℕ
trailer_size = 9

unfoldable pub decode_internal_key : Bytes → Option (Bytes × ℕ)
decode_internal_key internal_key =
    let size = length internal_key in
    if ltb size trailer_size || not (get_or internal_key (size - trailer_size) 0 == 0)
    then none
    else some (
      take (size - trailer_size) internal_key,
      max_sequence - inverted_value 0 (drop (size - 8) internal_key),
    )

-- Keys that DB::ValidateKey lets pass hold no NUL.
abbrev pub HasNoNul : Bytes → Type 0
HasNoNul = All (λ b. 0 < b)
