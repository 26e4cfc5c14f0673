-- ===== src/Status.antt =====
-- include/status.h and src/status.cc. A message keeps the fixed text of the source; the paths and
-- system messages that the source appends to some of them are left out.
use Prim.Native.String.{String, ◌++◌}
use kv_mem.Prelude.{◌≡◌, refl, ◌⊎◌, inl, inr, Bool, true, false}

-- The codes other than kOk, each with its message.
pub data Error : Type 0 where
  not_found io_error corruption invalid_argument : String → Error

-- A function that returns a Status beside an output: the output stands with OK, and an error has
-- none. A function with no output is a `Status`.
pub data Result {ℓ} (A : Type ℓ) : Type ℓ where
  err : Error → Result A
  ok : A → Result A

abbrev pub Status : Type 0
Status = Result (Unit {0})

infixl 5 ◌>>=◌ ◌>>◌
-- `if (!status.ok()) return status;` between two steps.
abbrev pub ◌>>=◌ {ℓ κ} : {A : Type ℓ} {B : Type κ} → Result A → (A → Result B) → Result B
err e >>= next = err e
ok value >>= next = next value

abbrev pub ◌>>◌ {ℓ} : {B : Type ℓ} → Status → Result B → Result B
m >> k = m >>= λ _. k

-- `if (wrong) return error;`
abbrev pub reject_if : Bool → Error → Status
reject_if true e = err e
reject_if false e = ok tt

unfoldable pub is_not_found {ℓ} : {A : Type ℓ} → Result A → Bool
is_not_found (err (not_found m)) = true
is_not_found _ = false

unfoldable pub is_invalid_argument {ℓ} : {A : Type ℓ} → Result A → Bool
is_invalid_argument (err (invalid_argument m)) = true
is_invalid_argument _ = false

pub to_string : Status → String
to_string (ok u) = "OK"
to_string (err (not_found m)) = "NotFound: " ++ m
to_string (err (io_error m)) = "IOError: " ++ m
to_string (err (corruption m)) = "Corruption: " ++ m
to_string (err (invalid_argument m)) = "InvalidArgument: " ++ m

-- What a success says of the parts.
pub >>=-eq-ok {ℓ κ} :
    {A : Type ℓ} {B : Type κ} {answer : B} (first : Result A) (next : A → Result B)
    → (first >>= next) ≡ ok answer
    → (value : A) × (first ≡ ok value) × (next value ≡ ok answer)
>>=-eq-ok (err e) next h = cc
>>=-eq-ok (ok value) next h = (value, refl, h)

pub reject_if-eq-ok : (b : Bool) (e : Error) {u : Unit {0}} → reject_if b e ≡ ok u → b ≡ false
reject_if-eq-ok true e h = cc
reject_if-eq-ok false e h = refl

-- A result is a value or an error.
pub Result-cases {ℓ} :
    {A : Type ℓ} (r : Result A) → ((a : A) × (r ≡ ok a)) ⊎ ((e : Error) × (r ≡ err e))
Result-cases (ok a) = inl (a, refl)
Result-cases (err e) = inr (e, refl)
