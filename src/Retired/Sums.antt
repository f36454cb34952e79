-- ===== src/Retired/Sums.antt =====
-- Sums over the first of a sequence: over the slots of src/cache.rs, and over its threads.
use allox.Prelude.{
  ℕ, zero, suc, ◌+◌, ◌≤◌, ◌<◌, ◌≡◌, inl, inr, refl, sym, subst, false, arith, ◌==◌, Bool-cases,
}
use allox.Retired.{set}

abbrev pub sum {ℓ} : {A : Type ℓ} → (A → ℕ) → ℕ → (ℕ → A) → ℕ
sum f zero xs = 0
sum f (suc n) xs = sum f n xs + f (xs n)

module _ {ℓ} {A : Type ℓ} (f : A → ℕ) (xs : ℕ → A) (i : ℕ) (x : A) where
  set_here : f (set xs i x i) ≡ f x
  set_here = elim (Bool-cases (i == i)) [ inl e ↦ simp e refl | inr e ↦ absurd (ground arith) ]

  sum-set_beyond : (n : ℕ) → n ≤ i → sum f n (set xs i x) ≡ sum f n xs
  sum-set_beyond zero over = refl
  sum-set_beyond (suc n) over =
      let e : (n == i) ≡ false = ground arith in
      simp e (omega (arith, sum-set_beyond n (omega arith)))

  -- One more of the sequence, one less.
  pub sum-set : (n : ℕ) → i < n → sum f n (set xs i x) + f (xs i) ≡ sum f n xs + f x
  sum-set zero low = absurd (omega arith)
  sum-set (suc n) low = elim (Bool-cases (n == i)) [
    | inl e ↦
        let same_place : n ≡ i = ground arith in
        simp e (
          subst (λ j. sum f n (set xs i x) + f x + f (xs i) ≡ sum f n xs + f (xs j) + f x)
            (sym same_place) (omega (arith, sum-set_beyond n (omega arith))))
    | inr e ↦ simp e (omega (arith, sum-set n (ground arith)))
  ]

pub sum-one {ℓ} :
    {A : Type ℓ} → (f : A → ℕ) (n : ℕ) (xs : ℕ → A) (i : ℕ) → i < n → f (xs i) ≤ sum f n xs
sum-one f zero xs i low = absurd (omega arith)
sum-one f (suc n) xs i low = elim (Bool-cases (i == n)) [
  | inl e ↦
      let same_place : i ≡ n = ground arith in
      subst (λ j. f (xs j) ≤ sum f n xs + f (xs n)) (sym same_place) (omega arith)
  | inr e ↦ omega (arith, sum-one f n xs i (ground arith))
]
