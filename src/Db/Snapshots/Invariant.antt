-- ===== src/Db/Snapshots/Invariant.antt =====
-- The states that DB of src/db.cc reaches, and what MinActiveSnapshotSequence is in them.
use kv_mem.Prelude.{
  ℕ, ◌<◌, ◌≤◌, ◌≡◌, refl, sym, subst, true, false, not, ◌⊎◌, inl, inr, ◌||◌, ◌==◌, ltb, Memᴰ, List,
  [], ◌∷◌, All, if◌then◌else◌, arith, Bool-cases,
}
use kv_mem.Db.Snapshots.{
  Snapshot, Readers, get_snapshot, release_snapshot, close_readers, min_active_from,
  min_active_snapshot_sequence,
}
use kv_mem.Db.Snapshots.Order.{
  IsFrom, IsBounded, IsTakenInOrder, AreInactive, IsBounded-mono, IsBounded-snoc,
  IsTakenInOrder-snoc, release_at-All, inactive-All, release_at-IsTakenInOrder,
  release_at-AreInactive, deactivated-AreInactive, AreInactive-IsTakenInOrder,
}

pub record IsOrdered (db : Readers) : Type 0 where
  pub in_order : IsTakenInOrder db.snapshots
  pub bounded : IsBounded db.last_sequence db.snapshots
  pub ended : db.closed ≡ true → AreInactive db.snapshots

-- What the members go through: writes move the last sequence on, snapshots come and go, and the
-- database is closed. Open of a closed database reads the manifest of the directory, which may have
-- been replaced, so any last sequence may be found; then it succeeds or fails.
pub data Step : Readers → Readers → Type 0 where
  writes : (db : Readers) (n : ℕ) → db.last_sequence ≤ n → Step db (record db { last_sequence = n })
  takes : (db : Readers) → Step db (get_snapshot db).0
  releases : (db : Readers) (handle : ℕ) → Step db (release_snapshot db handle)
  closes : (db : Readers) → Step db (close_readers db)
  opens :
      (db : Readers) (n : ℕ)
      → db.closed ≡ true
      → Step db (record db { closed = false; last_sequence = n })
  fails_to_open :
      (db : Readers) (n : ℕ) → db.closed ≡ true → Step db (record db { last_sequence = n })

pub data Reach : Readers → Type 0 where
  start : (n : ℕ) → Reach (record { closed = true; last_sequence = n; snapshots = [] })
  next : {db db' : Readers} → Reach db → Step db db' → Reach db'

get_snapshot-IsOrdered : (db : Readers) → IsOrdered db → IsOrdered (get_snapshot db).0
unfolding get_snapshot
get_snapshot-IsOrdered db h = elim (Bool-cases db.closed) [
  | inl shut ↦ simp shut h
  | inr live ↦ simp live (record {
    in_order = IsTakenInOrder-snoc db.snapshots _ h.in_order h.bounded;
    bounded = IsBounded-snoc db.last_sequence db.snapshots _ h.bounded (omega arith);
    ended = λ shut. cc;
  })
]

-- Where no snapshot is active, the last sequence may be any.
inactive-IsOrdered : (db : Readers) → AreInactive db.snapshots → IsOrdered db
inactive-IsOrdered db h = record {
  in_order = AreInactive-IsTakenInOrder db.snapshots h;
  bounded = inactive-All (λ s. s.sequence ≤ db.last_sequence) db.snapshots h;
  ended = λ shut. h;
}

Step-IsOrdered : {db db' : Readers} → Step db db' → IsOrdered db → IsOrdered db'
Step-IsOrdered (writes db n le) h = record {
  in_order = h.in_order;
  bounded = IsBounded-mono _ _ db.snapshots le h.bounded;
  ended = h.ended;
}
Step-IsOrdered (takes db) h = get_snapshot-IsOrdered db h
Step-IsOrdered (releases db handle) h =
    unfold release_snapshot in
    record {
      in_order = release_at-IsTakenInOrder handle db.snapshots h.in_order;
      bounded = release_at-All (λ s. s.sequence ≤ db.last_sequence) handle db.snapshots h.bounded;
      ended = λ shut. release_at-AreInactive handle db.snapshots (h.ended shut);
    }
Step-IsOrdered (closes db) h =
    unfold close_readers in
    inactive-IsOrdered (close_readers db) (deactivated-AreInactive db.snapshots)
Step-IsOrdered (opens db n shut) h = inactive-IsOrdered _ (h.ended shut)
Step-IsOrdered (fails_to_open db n shut) h = inactive-IsOrdered _ (h.ended shut)

pub Reach-IsOrdered : {db : Readers} → Reach db → IsOrdered db
Reach-IsOrdered (start n) = inactive-IsOrdered _ tt
Reach-IsOrdered (next r s) = Step-IsOrdered s (Reach-IsOrdered r)

-- A minimum that is not 0 stays, since no later active snapshot is older.
min_stays : (m : ℕ) (ss : List Snapshot) → 0 < m → IsFrom m ss → min_active_from m ss ≡ m
unfolding min_active_from
min_stays m [] pos h = refl
min_stays m (s ∷ rest) pos h = ground (arith, Bool-cases s.active, h.0, min_stays m rest pos h.1)

-- `m` spares the snapshot: if it is active and not of sequence 0, `m` is not 0 and it is not older.
abbrev pub Spares : ℕ → Snapshot → Type 0
Spares m s = s.active ≡ true → 0 < s.sequence → (0 < m) × (m ≤ s.sequence)

IsFrom-Spares : (m : ℕ) (ss : List Snapshot) → 0 < m → IsFrom m ss → All (Spares m) ss
IsFrom-Spares m [] pos h = tt
IsFrom-Spares m (s ∷ rest) pos h = (λ a p. (pos, h.0 a), IsFrom-Spares m rest pos h.1)

first_min :
    (s : Snapshot)
    → let m : ℕ = if not s.active then 0 else s.sequence in
      ((m ≡ 0) × (s.active ≡ true → 0 < s.sequence → ⊥))
      ⊎ ((m ≡ s.sequence) × (0 < s.sequence) × (s.active ≡ true))
first_min s = ground arith

min_active-Spares :
    (ss : List Snapshot) → IsTakenInOrder ss → All (Spares (min_active_from 0 ss)) ss
unfolding min_active_from
min_active-Spares [] h = tt
min_active-Spares (s ∷ rest) h =
    let m : ℕ = if not s.active then 0 else s.sequence in
    elim (first_min s) [
      | inl (zero_m, none_here) ↦
          let later : All (Spares (min_active_from m rest)) rest =
            subst (λ t. All (Spares (min_active_from t rest)) rest) (sym zero_m)
              (min_active-Spares rest h.1) in
          (λ a p. absurd (none_here a p), later)
      | inr (is_s, pos, live) ↦
          let stays : min_active_from m rest ≡ s.sequence =
            rw is_s (min_stays s.sequence rest pos (h.0 live)) in
          subst (λ t. All (Spares t) (s ∷ rest)) (sym stays)
            (λ a p. (pos, omega arith), IsFrom-Spares s.sequence rest pos (h.0 live))
    ]

-- The sequence is that of an active snapshot.
abbrev pub IsActiveAt : ℕ → List Snapshot → Type 0
IsActiveAt m ss = (s : Snapshot) × Memᴰ s ss × (s.active ≡ true) × (s.sequence ≡ m)

IsActiveAt-tail :
    (m : ℕ) (first : Snapshot) (rest : List Snapshot)
    → IsActiveAt m rest
    → IsActiveAt m (first ∷ rest)
IsActiveAt-tail m first rest (s, at, live, is_m) = (s, Memᴰ.tail at, live, is_m)

-- The loop leaves the minimum that it began with, or the sequence of an active snapshot.
min_active-IsActiveAt :
    (m : ℕ) (ss : List Snapshot)
    → let least = min_active_from m ss in (least ≡ m) ⊎ IsActiveAt least ss
unfolding min_active_from
min_active-IsActiveAt m [] = inl refl
min_active-IsActiveAt m (s ∷ rest) = elim (Bool-cases s.active) [
  | inr over ↦ simp over (elim (min_active-IsActiveAt m rest) [
    | inl same ↦ inl same
    | inr later ↦ inr (IsActiveAt-tail _ s rest later)
  ])
  | inl live ↦ elim (Bool-cases (m == 0 || ltb s.sequence m)) [
    | inl smaller ↦
        simp (live, smaller)
          (elim (min_active-IsActiveAt s.sequence rest) [
            | inl same ↦ inr (s, Memᴰ.head refl, live, sym same)
            | inr later ↦ inr (IsActiveAt-tail _ s rest later)
          ])
    | inr larger ↦
        simp (live, larger)
          (elim (min_active-IsActiveAt m rest) [
            | inl same ↦ inl same
            | inr later ↦ inr (IsActiveAt-tail _ s rest later)
          ])
  ]
]

-- In every state that writes, GetSnapshot, ReleaseSnapshot, Close and Open reach, where Open may find
-- any last sequence: for each active snapshot whose sequence is not 0, the sequence that
-- MinActiveSnapshotSequence returns is positive and at most the snapshot's; and it is 0 or the
-- sequence of an active snapshot.
pub Reach-Spares :
    {db : Readers}
    → Reach db
    → let least = min_active_snapshot_sequence db in
      All (Spares least) db.snapshots × ((least ≡ 0) ⊎ IsActiveAt least db.snapshots)
unfolding min_active_snapshot_sequence
Reach-Spares {db} r = (
  min_active-Spares db.snapshots (Reach-IsOrdered r).in_order,
  min_active-IsActiveAt 0 db.snapshots,
)
