-- ===== src/Base/Family.antt =====
-- Families indexed by number: change at one index, and the weight of the first `n` members.
use Prim.Native.Nat.{ℕ, zero, suc, ◌+◌, ◌≤◌, ◌<◌}
use mathlib.Core.Path.{◌≡◌, refl}
use mathlib.Core.Logic.{◌≢◌}
use native.Mathlib.Decide.{ℕ_discrete}
use native.Mathlib.Omega.{arith}
use system_programming.Base.Tests.{◌==◌, ltb, if◌then◌else◌}

abbrev pub update {ℓ} : {A : Type ℓ} → (ℕ → A) → ℕ → A → ℕ → A
update f i a j = if i == j then a else f j

-- Member `n` is the last one that `weight_upto f (suc n)` weighs.
pub weight_upto {ℓ} : {A : Type ℓ} → (A → ℕ) → (ℕ → A) → ℕ → ℕ
weight_upto w f zero = 0
weight_upto w f (suc n) = w (f n) + weight_upto w f n

module _ {ℓ} {A : Type ℓ} (w : A → ℕ) (f : ℕ → A) where
  -- A change among the first `n` members trades one weight for another, and any other changes nothing.
  weight_upto-change :
      (i : ℕ) (a : A) (n : ℕ)
      → weight_upto w (update f i a) n + (if ltb i n then w (f i) else 0)
        ≡ weight_upto w f n + (if ltb i n then w a else 0)
  unfolding weight_upto
  weight_upto-change i a zero = ground arith
  weight_upto-change i a (suc n) = elim (ℕ_discrete i n) [
    | yes same ↦ ground (arith, weight_upto-change i a n)
    | no other ↦ ground (arith, weight_upto-change i a n)
  ]

  pub weight_upto-update :
      (i : ℕ) (a : A) (n : ℕ)
      → i < n
      → weight_upto w (update f i a) n + w (f i) ≡ weight_upto w f n + w a
  weight_upto-update i a n below = ground (arith, weight_upto-change i a n)

  pub weight_upto_zero : (n : ℕ) → ((i : ℕ) → w (f i) ≡ 0) → weight_upto w f n ≡ 0
  unfolding weight_upto
  weight_upto_zero zero light = refl
  weight_upto_zero (suc n) light = omega (arith, weight_upto_zero n light, light n)

  -- One member weighs at most what all do, and so do two different ones together.
  pub weight-le-weight_upto : (i n : ℕ) → i < n → w (f i) ≤ weight_upto w f n
  unfolding weight_upto
  weight-le-weight_upto i zero below = absurd (omega arith)
  weight-le-weight_upto i (suc n) below = elim (ℕ_discrete i n) [
    | yes last ↦ ground arith
    | no other ↦ omega (arith, weight-le-weight_upto i n (omega arith))
  ]

  pub weights-le-weight_upto :
      (i j n : ℕ) → i < n → j < n → i ≢ j → w (f i) + w (f j) ≤ weight_upto w f n
  unfolding weight_upto
  weights-le-weight_upto i j zero below_i below_j apart = absurd (omega arith)
  weights-le-weight_upto i j (suc n) below_i below_j apart = elim (ℕ_discrete i n) [
    | yes last ↦ ground (arith, weight-le-weight_upto j n)
    | no other ↦ elim (ℕ_discrete j n) [
      | yes last ↦ ground (arith, weight-le-weight_upto i n)
      | no another ↦ omega (arith, weights-le-weight_upto i j n (omega arith) (omega arith) apart)
    ]
  ]
