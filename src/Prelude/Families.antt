-- ===== src/Prelude/Families.antt =====
-- Sums over a family of states, one for each of the first `n` numbers.
use Prim.Native.Nat.{ℕ, zero, suc, ◌+◌, ◌≤◌, ◌<◌}
use mathlib.Core.Path.{◌≡◌, refl, ap}
use mathlib.Core.Logic.{◌≢◌}
use native.Mathlib.Decide.{ℕ_discrete}
use native.Mathlib.Omega.{arith}

module _ {ℓ} {A : Type ℓ} (w : A → ℕ) where
  unfoldable pub total : ℕ → (ℕ → A) → ℕ
  total zero f = 0
  total (suc n) f = total n f + w (f n)

  pub total-same :
      (n : ℕ) (f g : ℕ → A) → ((j : ℕ) → j < n → w (g j) ≡ w (f j)) → total n g ≡ total n f
  unfolding total
  total-same zero f g same = refl
  total-same (suc n) f g same =
      omega (arith, total-same n f g (λ j h. same j (omega (arith, h))), same n (omega arith))

  -- Only the state of `i` changes.
  pub total-changed :
      (n : ℕ) (f g : ℕ → A) (i : ℕ)
      → i < n
      → ((j : ℕ) → i ≢ j → w (g j) ≡ w (f j))
      → total n g + w (f i) ≡ total n f + w (g i)
  unfolding total
  total-changed zero f g i h same = absurd (omega (arith, h))
  total-changed (suc n) f g i h same = elim (ℕ_discrete i n) [
    | yes last ↦ omega (
      arith,
      total-same n f g (λ j below. same j (λ e. omega (arith, below, last, e))),
      ap (λ z. w (f z)) last,
      ap (λ z. w (g z)) last,
    )
    | no before ↦
        omega (arith, total-changed n f g i (omega (arith, h, before)) same, same n before)
  ]

  pub total-zero : (n : ℕ) (f : ℕ → A) → ((j : ℕ) → j < n → w (f j) ≡ 0) → total n f ≡ 0
  unfolding total
  total-zero zero f h = refl
  total-zero (suc n) f h =
      omega (arith, total-zero n f (λ j b. h j (omega (arith, b))), h n (omega arith))

  pub total-le : (n : ℕ) (f : ℕ → A) (i : ℕ) → i < n → w (f i) ≤ total n f
  unfolding total
  total-le zero f i h = absurd (omega (arith, h))
  total-le (suc n) f i h = elim (ℕ_discrete i n) [
    | yes last ↦ omega (arith, ap (λ z. w (f z)) last)
    | no before ↦ omega (arith, total-le n f i (omega (arith, h, before)))
  ]

  pub total-one : (n : ℕ) (f : ℕ → A) → ((j : ℕ) → j < n → w (f j) ≡ 1) → total n f ≡ n
  unfolding total
  total-one zero f h = refl
  total-one (suc n) f h =
      omega (arith, total-one n f (λ j b. h j (omega (arith, b))), h n (omega arith))

  pub total-two :
      (n : ℕ) (f : ℕ → A) (i j : ℕ) → i < n → j < n → i ≢ j → w (f i) + w (f j) ≤ total n f
  unfolding total
  total-two zero f i j h l apart = absurd (omega (arith, h))
  total-two (suc n) f i j h l apart = elim (ℕ_discrete i n) [
    | yes last ↦
        omega (arith, ap (λ z. w (f z)) last, total-le n f j (omega (arith, l, last, apart)))
    | no before ↦ elim (ℕ_discrete j n) [
      | yes last' ↦
          omega (arith, ap (λ z. w (f z)) last', total-le n f i (omega (arith, h, before)))
      | no before' ↦
          omega
            (arith, total-two n f i j (omega (arith, h, before)) (omega (arith, l, before')) apart)
    ]
  ]
