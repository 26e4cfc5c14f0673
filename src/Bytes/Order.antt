-- ===== src/Bytes/Order.antt =====
-- The order of byte strings is a strict total order, and == decides equality.
use kv_mem.Prelude.{◌≡◌, refl, ◌↔◌, true, false, [], ◌∷◌, arith}
use kv_mem.Bytes.{Bytes, bytes_ltb, bytes_eq}

pub bytes_eq_refl : (xs : Bytes) → bytes_eq xs xs ≡ true
unfolding bytes_eq
bytes_eq_refl [] = refl
bytes_eq_refl (x ∷ xs) = ground (arith, bytes_eq_refl xs)

pub eq_of_bytes_eq : (xs ys : Bytes) → bytes_eq xs ys ≡ true → xs ≡ ys
unfolding bytes_eq
eq_of_bytes_eq [] [] h = refl
eq_of_bytes_eq [] (y ∷ ys) h = cc
eq_of_bytes_eq (x ∷ xs) [] h = cc
eq_of_bytes_eq (x ∷ xs) (y ∷ ys) h = ground (arith, eq_of_bytes_eq xs ys)

pub bytes_eq_iff : (xs ys : Bytes) → (bytes_eq xs ys ≡ true) ↔ (xs ≡ ys)
bytes_eq_iff xs ys = (eq_of_bytes_eq xs ys, λ e. rw e (bytes_eq_refl ys))

pub bytes_ltb_irrefl : (xs : Bytes) → bytes_ltb xs xs ≡ false
unfolding bytes_ltb
bytes_ltb_irrefl [] = refl
bytes_ltb_irrefl (x ∷ xs) = ground (arith, bytes_ltb_irrefl xs)

pub bytes_ltb_trans :
    (xs ys zs : Bytes) → bytes_ltb xs ys ≡ true → bytes_ltb ys zs ≡ true → bytes_ltb xs zs ≡ true
unfolding bytes_ltb
bytes_ltb_trans xs ys [] h k = cc
bytes_ltb_trans xs [] (z ∷ zs) h k = cc
bytes_ltb_trans [] (y ∷ ys) (z ∷ zs) h k = refl
bytes_ltb_trans (x ∷ xs) (y ∷ ys) (z ∷ zs) h k = ground (arith, bytes_ltb_trans xs ys zs)

-- Two strings of which neither is below the other are equal.
pub bytes_ltb_connex : (xs ys : Bytes) → bytes_ltb xs ys ≡ false → bytes_ltb ys xs ≡ false → xs ≡ ys
unfolding bytes_ltb
bytes_ltb_connex [] [] h k = refl
bytes_ltb_connex [] (y ∷ ys) h k = cc
bytes_ltb_connex (x ∷ xs) [] h k = cc
bytes_ltb_connex (x ∷ xs) (y ∷ ys) h k = ground (arith, bytes_ltb_connex xs ys)

pub bytes_ltb_asymm : (xs ys : Bytes) → bytes_ltb xs ys ≡ true → bytes_ltb ys xs ≡ false
unfolding bytes_ltb
bytes_ltb_asymm xs [] h = cc
bytes_ltb_asymm [] (y ∷ ys) h = refl
bytes_ltb_asymm (x ∷ xs) (y ∷ ys) h = ground (arith, bytes_ltb_asymm xs ys)
