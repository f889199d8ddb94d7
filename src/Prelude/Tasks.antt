-- ===== src/Prelude/Tasks.antt =====
-- A family of concurrent tasks, one for each number, and the update of one of them.
use Prim.Native.Nat.{ℕ}
use mathlib.Core.Path.{◌≡◌}
use mathlib.Core.Logic.{◌≢◌, ite}
use native.Mathlib.Decide.{ℕ_discrete}
use native.Mathlib.Omega.{arith}

module _ {ℓ} {A : Type ℓ} where
  abbrev pub update : (ℕ → A) → ℕ → A → ℕ → A
  update f i a j = ite (ℕ_discrete i j) a (f j)

  pub update_same : (f : ℕ → A) (i j : ℕ) (a : A) → i ≡ j → update f i a j ≡ a
  update_same f i j a same = ground arith

  pub update_other : (f : ℕ → A) (i j : ℕ) (a : A) → i ≢ j → update f i a j ≡ f j
  update_other f i j a apart = ground arith

  -- What holds of the new task and held of the others holds of each.
  pub update_each {ℓ'} :
      (P : A → Type ℓ') (f : ℕ → A) (i : ℕ) (a : A)
      → P a
      → ((j : ℕ) → P (f j))
      → (j : ℕ) → P (update f i a j)
  update_each P f i a new old j = elim (ℕ_discrete i j) [
    | yes same ↦ rw (update_same f i j a same) new
    | no apart ↦ rw (update_other f i j a apart) (old j)
  ]
