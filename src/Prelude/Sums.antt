-- ===== src/Prelude/Sums.antt =====
-- Sums of a function over the numbers below a bound, and functions changed at one number.
use Prim.Native.Nat.{ℕ, zero, suc, ◌+◌, ◌<◌, ◌≤◌}
use mathlib.Core.Path.{◌≡◌, refl}
use mathlib.Core.Logic.{◌≢◌}
use native.Mathlib.Decide.{ℕ_discrete}
use native.Mathlib.Omega.{arith}
use distributed_thread_libra.Prelude.Tests.{◌==◌, if◌then◌else◌}

abbrev pub change {ℓ} : {A : Type ℓ} → (ℕ → A) → ℕ → A → ℕ → A
change f i a j = if i == j then a else f j

unfoldable pub sum_below : (ℕ → ℕ) → ℕ → ℕ
sum_below f zero = 0
sum_below f (suc n) = sum_below f n + f n

pub sum_below-congr :
    (f g : ℕ → ℕ) (n : ℕ) → ((j : ℕ) → j < n → f j ≡ g j) → sum_below f n ≡ sum_below g n
unfolding sum_below
sum_below-congr f g zero h = refl
sum_below-congr f g (suc n) h =
    omega (arith, h n (omega arith), sum_below-congr f g n (λ j l. h j (omega arith)))

-- Two functions that agree but at `i` have sums that differ by their values there.
pub sum_below-change :
    (f g : ℕ → ℕ) (i n : ℕ)
    → i < n
    → ((j : ℕ) → i ≢ j → f j ≡ g j)
    → sum_below f n + g i ≡ sum_below g n + f i
unfolding sum_below
sum_below-change f g i zero l h = absurd (omega arith)
sum_below-change f g i (suc n) l h = elim (ℕ_discrete i n) [
  | yes e ↦ rw e (omega (arith, sum_below-congr f g n (λ j m. h j (omega arith))))
  | no ne ↦ omega (arith, h n ne, sum_below-change f g i n (omega arith) h)
]

pub sum_below-zero : (f : ℕ → ℕ) (n : ℕ) → ((j : ℕ) → j < n → f j ≡ 0) → sum_below f n ≡ 0
unfolding sum_below
sum_below-zero f zero h = refl
sum_below-zero f (suc n) h =
    omega (arith, h n (omega arith), sum_below-zero f n (λ j l. h j (omega arith)))

pub le-sum_below : (f : ℕ → ℕ) (i n : ℕ) → i < n → f i ≤ sum_below f n
unfolding sum_below
le-sum_below f i zero l = absurd (omega arith)
le-sum_below f i (suc n) l = elim (ℕ_discrete i n) [
  | yes e ↦ rw e (omega arith)
  | no ne ↦ omega (arith, le-sum_below f i n (omega arith))
]

pub add-le-sum_below : (f : ℕ → ℕ) (i j n : ℕ) → i < n → j < n → i ≢ j → f i + f j ≤ sum_below f n
unfolding sum_below
add-le-sum_below f i j zero l m ne = absurd (omega arith)
add-le-sum_below f i j (suc n) l m ne = elim (ℕ_discrete i n) [
  | yes e ↦ rw e (omega (arith, le-sum_below f j n (omega arith)))
  | no ni ↦ elim (ℕ_discrete j n) [
    | yes e ↦ rw e (omega (arith, le-sum_below f i n (omega arith)))
    | no nj ↦ omega (arith, add-le-sum_below f i j n (omega arith) (omega arith) ne)
  ]
]

module _ {ℓ} {A : Type ℓ} (f : ℕ → A) (i : ℕ) (a : A) where
  pub change_self : change f i a i ≡ a
  change_self = ground arith

  pub change_ne : (j : ℕ) → i ≢ j → change f i a j ≡ f j
  change_ne j ne = ground arith
