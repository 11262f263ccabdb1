-- ===== src/Base/Maps.antt =====
-- Functions as finite maps and as stores of objects by address.
use Prim.Native.Nat.{ℕ}
use mathlib.Core.Path.{◌≡◌, refl}
use mathlib.Core.Logic.{◌≢◌, ◌⊎◌, inl, inr}
use netlib.Base.Tests.{◌==◌, if◌then◌else◌, ==_iff, ==_refl, ==_ne, Bool-cases}

pub same_or_not : (i k : ℕ) → (i ≡ k) ⊎ (i ≢ k)
same_or_not i k = elim (Bool-cases (i == k)) [
  | inl same ↦ inl ((==_iff i k).0 same)
  | inr other ↦ inr (λ e. cc (e, ==_refl i, other))
]

module _ {ℓ} {A : Type ℓ} where
  abbrev pub set_at : ℕ → A → (ℕ → A) → ℕ → A
  set_at k a f i = if i == k then a else f i

  pub set_at_same : (k : ℕ) (a : A) (f : ℕ → A) → set_at k a f k ≡ a
  set_at_same k a f = rw (==_refl k) refl

  pub set_at_other : (k : ℕ) (a : A) (f : ℕ → A) (i : ℕ) → i ≢ k → set_at k a f i ≡ f i
  set_at_other k a f i d = rw (==_ne i k d) refl
