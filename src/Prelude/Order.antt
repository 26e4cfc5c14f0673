-- ===== src/Prelude/Order.antt =====
-- `<` on the native numbers is well founded.
use Prim.Native.Nat.{ℕ, zero, suc, ◌<◌}
use mathlib.Core.WellFounded.{Acc, WellFounded}
use mathlib.Core.List.{List}
use native.Mathlib.Omega.{arith}
use kv_mem.Prelude.Lists.{length}

Acc-below : (k n : ℕ) → n < k → Acc ◌<◌ n
Acc-below zero n h = elim h [ ]
Acc-below (suc k) n h = Acc.intro n (λ m hm. Acc-below k m (omega arith))

unfoldable pub lt_wf : WellFounded ◌<◌
unfolding Acc-below
lt_wf = record { apply = λ n. Acc-below (suc n) n (omega arith) }

-- Lists by their length, for a loop that consumes its input.
abbrev pub Shorter {ℓ} : {A : Type ℓ} → List A → List A → Type 0
Shorter xs ys = length xs < length ys

Acc-shorter {ℓ} : {A : Type ℓ} (k : ℕ) (xs : List A) → length xs < k → Acc Shorter xs
Acc-shorter zero xs h = elim h [ ]
Acc-shorter (suc k) xs h = Acc.intro xs (λ ys shorter. Acc-shorter k ys (omega arith))

unfoldable pub shorter_wf {ℓ} : {A : Type ℓ} → WellFounded (Shorter {A = A})
unfolding Acc-shorter
shorter_wf = record { apply = λ xs. Acc-shorter (suc (length xs)) xs (omega arith) }
