-- ===== src/Prelude/Finite.antt =====
-- What all the threads weigh together: a state for each index, a weight for each state, and the sum of
-- the weights over the first `n` indices, with what an update of one state does to it.
use Prim.Native.Nat.{ℕ, zero, suc, ◌+◌, ◌*◌, ◌≤◌, ◌<◌}
use mathlib.Core.Path.{◌≡◌, refl}
use mathlib.Core.Logic.{inl, inr}
use mathlib.Core.Bool.{false}
use native.Mathlib.Omega.{arith}
use test_frame.Prelude.Tests.{Bool-cases, ◌==◌, if◌then◌else◌}

abbrev pub update {ℓ} : {S : Type ℓ} → (ℕ → S) → ℕ → S → ℕ → S
update pc k state j = if k == j then state else pc j

unfoldable pub total {ℓ} : {S : Type ℓ} → (S → ℕ) → ℕ → (ℕ → S) → ℕ
total weight zero pc = 0
total weight (suc n) pc = weight (pc n) + total weight n pc

-- A larger weight makes a larger total.
pub total_mono {ℓ} :
    {S : Type ℓ} (light heavy : S → ℕ)
    → ((x : S) → light x ≤ heavy x)
    → (n : ℕ) (pc : ℕ → S) → total light n pc ≤ total heavy n pc
unfolding total
total_mono light heavy le zero pc = omega arith
total_mono light heavy le (suc n) pc = omega (arith, le (pc n), total_mono light heavy le n pc)

-- Two weights that are within a third one have totals within that of the third.
pub total-add-le {ℓ} :
    {S : Type ℓ} (a b c : S → ℕ)
    → ((x : S) → a x + b x ≤ c x)
    → (n : ℕ) (pc : ℕ → S) → total a n pc + total b n pc ≤ total c n pc
unfolding total
total-add-le a b c le zero pc = omega arith
total-add-le a b c le (suc n) pc = omega (arith, le (pc n), total-add-le a b c le n pc)

-- A weight that is a second one at most, and `k` times a third.
pub total-le-add {ℓ} :
    {S : Type ℓ} (a b c : S → ℕ) (k : ℕ)
    → ((x : S) → a x ≤ b x + k * c x)
    → (n : ℕ) (pc : ℕ → S) → total a n pc ≤ total b n pc + k * total c n pc
unfolding total
total-le-add a b c k le zero pc = omega arith
total-le-add a b c k le (suc n) pc = omega (arith, le (pc n), total-le-add a b c k le n pc)

pub total-compose {ℓ} :
    {S : Type ℓ} (weight : S → ℕ) (g : S → S) (n : ℕ) (pc : ℕ → S)
    → total weight n (λ j. g (pc j)) ≡ total (λ x. weight (g x)) n pc
unfolding total
total-compose weight g zero pc = refl
total-compose weight g (suc n) pc = omega (arith, total-compose weight g n pc)

module _ {ℓ} {S : Type ℓ} (weight : S → ℕ) where
  -- A change of every state that keeps its weight keeps the total.
  pub total-map :
      (g : S → S)
      → ((x : S) → weight (g x) ≡ weight x)
      → (n : ℕ) (pc : ℕ → S) → total weight n (λ j. g (pc j)) ≡ total weight n pc
  unfolding total
  total-map g same zero pc = refl
  total-map g same (suc n) pc = omega (arith, same (pc n), total-map g same n pc)

  pub total-eq-zero : (n : ℕ) (pc : ℕ → S) → ((j : ℕ) → weight (pc j) ≡ 0) → total weight n pc ≡ 0
  unfolding total
  total-eq-zero zero pc nothing = refl
  total-eq-zero (suc n) pc nothing = omega (arith, nothing n, total-eq-zero n pc nothing)

  -- One thread weighs no more than all.
  pub total-ge : (n : ℕ) (pc : ℕ → S) (k : ℕ) → k < n → weight (pc k) ≤ total weight n pc
  unfolding total
  total-ge zero pc k lt = absurd (omega arith)
  total-ge (suc n) pc k lt = elim (Bool-cases (k == n)) [
    | inl last ↦ let e : k ≡ n = ground arith in rw e (omega arith)
    | inr other ↦ omega (arith, total-ge n pc k (ground arith))
  ]

  pub total-le : ((x : S) → weight x ≤ 1) → (n : ℕ) (pc : ℕ → S) → total weight n pc ≤ n
  unfolding total
  total-le light zero pc = omega arith
  total-le light (suc n) pc = omega (arith, total-le light n pc, light (pc n))

  -- A state that is not among those summed up does not count.
  total-beyond :
      (k : ℕ) (state : S) (pc : ℕ → S) (n : ℕ)
      → n ≤ k
      → total weight n pc ≡ total weight n (update pc k state)
  unfolding total
  total-beyond k state pc zero le = refl
  total-beyond k state pc (suc n) le =
      let other : (k == n) ≡ false = ground arith in
      rw other (omega (arith, total-beyond k state pc n (omega arith)))

  -- The new weight takes the place of the old one.
  pub total-update :
      (n : ℕ) (pc : ℕ → S) (k : ℕ) (state : S)
      → k < n
      → total weight n (update pc k state) + weight (pc k) ≡ total weight n pc + weight state
  unfolding total
  total-update zero pc k state lt = absurd (omega arith)
  total-update (suc n) pc k state lt = elim (Bool-cases (k == n)) [
    | inl last ↦
        let e : k ≡ n = ground arith in
        rw (last, e) (omega (arith, total-beyond n state pc n (omega arith)))
    | inr other ↦ rw other (omega (arith, total-update n pc k state (ground arith)))
  ]
