-- ===== src/Db/Snapshots/Order.antt =====
-- The order of the snapshots of DB in src/db.cc, and what the operations on them do to it.
use kv_mem.Prelude.{ℕ, zero, suc, ◌≤◌, ◌≡◌, refl, true, false, List, [], ◌∷◌, ◌++◌, map, All, arith}
use kv_mem.Db.Snapshots.{Snapshot, deactivate, release_at}

-- The active snapshots of a list begin at a sequence, or end at one.
abbrev pub IsFrom : ℕ → List Snapshot → Type 0
IsFrom low = All (λ s. s.active ≡ true → low ≤ s.sequence)

abbrev pub IsBounded : ℕ → List Snapshot → Type 0
IsBounded high = All (λ s. s.active ≡ true → s.sequence ≤ high)

-- Active snapshots stand in the order in which they were taken; the others stand anywhere.
abbrev pub IsTakenInOrder : List Snapshot → Type 0
IsTakenInOrder [] = Unit
IsTakenInOrder (s ∷ rest) = (s.active ≡ true → IsFrom s.sequence rest) × IsTakenInOrder rest

abbrev pub AreInactive : List Snapshot → Type 0
AreInactive = All (λ s. s.active ≡ false)

pub IsBounded-mono : (a b : ℕ) (ss : List Snapshot) → a ≤ b → IsBounded a ss → IsBounded b ss
IsBounded-mono a b [] h k = tt
IsBounded-mono a b (s ∷ rest) h k = (λ live. omega (arith, k.0 live), IsBounded-mono a b rest h k.1)

pub IsBounded-snoc :
    (n : ℕ) (ss : List Snapshot) (s : Snapshot)
    → IsBounded n ss
    → s.sequence ≤ n
    → IsBounded n (ss ++ (s ∷ []))
IsBounded-snoc n [] s h k = (λ live. k, tt)
IsBounded-snoc n (t ∷ rest) s h k = (h.0, IsBounded-snoc n rest s h.1 k)

IsFrom-snoc :
    (low : ℕ) (ss : List Snapshot) (s : Snapshot)
    → IsFrom low ss
    → low ≤ s.sequence
    → IsFrom low (ss ++ (s ∷ []))
IsFrom-snoc low [] s h k = (λ live. k, tt)
IsFrom-snoc low (t ∷ rest) s h k = (h.0, IsFrom-snoc low rest s h.1 k)

pub IsTakenInOrder-snoc :
    (ss : List Snapshot) (s : Snapshot)
    → IsTakenInOrder ss
    → IsBounded s.sequence ss
    → IsTakenInOrder (ss ++ (s ∷ []))
IsTakenInOrder-snoc [] s h b = (λ live. tt, tt)
IsTakenInOrder-snoc (t ∷ rest) s h b = (
  λ live. IsFrom-snoc t.sequence rest s (h.0 live) (b.0 live),
  IsTakenInOrder-snoc rest s h.1 b.1,
)

-- A claim on the active snapshots only holds on after a release.
module _ (P : Snapshot → Type 0) where
  pub release_at-All :
      (handle : ℕ) (ss : List Snapshot)
      → All (λ s. s.active ≡ true → P s) ss
      → All (λ s. s.active ≡ true → P s) (release_at handle ss)
  unfolding release_at
  release_at-All zero [] h = tt
  release_at-All (suc handle) [] h = tt
  release_at-All zero (s ∷ rest) h = (λ live. cc, h.1)
  release_at-All (suc handle) (s ∷ rest) h = (h.0, release_at-All handle rest h.1)

  pub inactive-All : (ss : List Snapshot) → AreInactive ss → All (λ s. s.active ≡ true → P s) ss
  inactive-All [] h = tt
  inactive-All (s ∷ rest) h = (λ live. cc, inactive-All rest h.1)

pub release_at-IsTakenInOrder :
    (handle : ℕ) (ss : List Snapshot) → IsTakenInOrder ss → IsTakenInOrder (release_at handle ss)
unfolding release_at
release_at-IsTakenInOrder zero [] h = tt
release_at-IsTakenInOrder (suc handle) [] h = tt
release_at-IsTakenInOrder zero (s ∷ rest) h = (λ live. cc, h.1)
release_at-IsTakenInOrder (suc handle) (s ∷ rest) h = (
  λ live. release_at-All (λ t. s.sequence ≤ t.sequence) handle rest (h.0 live),
  release_at-IsTakenInOrder handle rest h.1,
)

pub release_at-AreInactive :
    (handle : ℕ) (ss : List Snapshot) → AreInactive ss → AreInactive (release_at handle ss)
unfolding release_at
release_at-AreInactive zero [] h = tt
release_at-AreInactive (suc handle) [] h = tt
release_at-AreInactive zero (s ∷ rest) h = (refl, h.1)
release_at-AreInactive (suc handle) (s ∷ rest) h = (h.0, release_at-AreInactive handle rest h.1)

pub deactivated-AreInactive : (ss : List Snapshot) → AreInactive (map deactivate ss)
deactivated-AreInactive [] = tt
deactivated-AreInactive (s ∷ rest) = (refl, deactivated-AreInactive rest)

pub AreInactive-IsTakenInOrder : (ss : List Snapshot) → AreInactive ss → IsTakenInOrder ss
AreInactive-IsTakenInOrder [] h = tt
AreInactive-IsTakenInOrder (s ∷ rest) h = (λ live. cc, AreInactive-IsTakenInOrder rest h.1)
