-- ===== src/Regions/BestFit.antt =====
-- What the scans over a store of regions find.
use allox.Prelude.{
  ℕ, zero, suc, ◌+◌, ◌≤◌, ◌<◌, ◌≡◌, subst, Bool, true, false, Option, none, some, List, arith, ◌==◌,
  inl, inr, length, Bool-cases, below_suc, ◌&&◌, if◌then◌else◌,
}
use allox.Regions.{Region, pages_at, best_loop, exact_loop, is_better}

-- Of the entries below `n`, `best` is one with the fewest pages among those that are `ok`, or none
-- is `ok`.
abbrev pub BestBelow : (ℕ → Bool) → List Region → ℕ → Option ℕ → Type 0
BestBelow ok entries n none = (j : ℕ) → j < n → ok (pages_at entries j) ≡ false
BestBelow ok entries n (some b) =
    (b < n)
    × (ok (pages_at entries b) ≡ true)
    × ((j : ℕ) → j < n → ok (pages_at entries j) ≡ true → pages_at entries b ≤ pages_at entries j)

module _ (ok : ℕ → Bool) (entries : List Region) where
  pub BestBelow-skip :
      (n : ℕ) (best : Option ℕ)
      → ok (pages_at entries n) ≡ false
      → BestBelow ok entries n best
      → BestBelow ok entries (n + 1) best
  BestBelow-skip n none bad h = below_suc (λ j. ok (pages_at entries j) ≡ false) n h bad
  BestBelow-skip n (some b) bad (lt, good, least) = (
    omega arith,
    good,
    below_suc (λ j. ok (pages_at entries j) ≡ true → pages_at entries b ≤ pages_at entries j) n
        least (λ e. cc),
  )

  pub BestBelow-keep :
      (n b : ℕ)
      → pages_at entries b ≤ pages_at entries n
      → BestBelow ok entries n (some b)
      → BestBelow ok entries (n + 1) (some b)
  BestBelow-keep n b le (lt, good, least) = (
    omega arith,
    good,
    below_suc (λ j. ok (pages_at entries j) ≡ true → pages_at entries b ≤ pages_at entries j) n
        least (λ e. le),
  )

  pub BestBelow-worse :
      (n : ℕ) (best : Option ℕ)
      → is_better entries (pages_at entries n) best ≡ false
      → BestBelow ok entries n best
      → BestBelow ok entries (n + 1) best
  BestBelow-worse n none worse h = cc
  BestBelow-worse n (some b) worse h = BestBelow-keep n b (ground arith) h

  pub BestBelow-take :
      (n : ℕ) (best : Option ℕ)
      → ok (pages_at entries n) ≡ true
      → is_better entries (pages_at entries n) best ≡ true
      → BestBelow ok entries n best
      → BestBelow ok entries (n + 1) (some n)
  BestBelow-take n none good better h = (
    omega arith,
    good,
    below_suc (λ j. ok (pages_at entries j) ≡ true → pages_at entries n ≤ pages_at entries j) n
        (λ j lt e. absurd_bool (h j lt) e) (λ e. omega arith),
  )
    where
      absurd_bool : {b : Bool} {m k : ℕ} → b ≡ false → b ≡ true → m ≤ k
      absurd_bool p q = cc
  BestBelow-take n (some b) good better (lt, good', least) = (
    omega arith,
    good,
    below_suc (λ j. ok (pages_at entries j) ≡ true → pages_at entries n ≤ pages_at entries j) n
        (λ j h e. ground (arith, least j h e)) (λ e. omega arith),
  )

  pub BestBelow-step :
      (n : ℕ) (best : Option ℕ)
      → BestBelow ok entries n best
      → BestBelow ok entries (n + 1) (
          if ok (pages_at entries n) && is_better entries (pages_at entries n) best
          then some n
          else best)
  BestBelow-step n best h = elim (Bool-cases (ok (pages_at entries n))) [
    | inr bad ↦ rw bad (BestBelow-skip n best bad h)
    | inl good ↦ rw good (elim (Bool-cases (is_better entries (pages_at entries n) best)) [
      | inl better ↦ rw better (BestBelow-take n best good better h)
      | inr worse ↦ rw worse (BestBelow-worse n best worse h)
    ])
  ]

  pub best_loop-BestBelow :
      (rounds i : ℕ) (best : Option ℕ)
      → BestBelow ok entries i best
      → BestBelow ok entries (i + rounds) (best_loop ok rounds entries i best)
  unfolding best_loop
  best_loop-BestBelow zero i best h = subst (λ k. BestBelow ok entries k best) (omega arith) h
  best_loop-BestBelow (suc rounds) i best h =
      let p = pages_at entries i in
      let best' = if ok p && is_better entries p best then some i else best in
      subst (λ k. BestBelow ok entries k (best_loop ok rounds entries (i + 1) best')) (omega arith)
        (best_loop-BestBelow rounds (i + 1) best' (BestBelow-step i best h))

  pub best_loop_lem :
      BestBelow ok entries (length entries) (best_loop ok (length entries) entries 0 none)
  best_loop_lem =
      subst (λ k. BestBelow ok entries k (best_loop ok (length entries) entries 0 none))
        (omega arith) (best_loop-BestBelow (length entries) 0 none (λ j h. elim h [ ]))

-- Of the entries below `n`, the one at `found` has exactly `wanted` pages, or none has.
abbrev pub ExactBelow : ℕ → List Region → ℕ → Option ℕ → Type 0
ExactBelow wanted entries n none = (j : ℕ) → j < n → (pages_at entries j == wanted) ≡ false
ExactBelow wanted entries n (some k) = (k < n) × (pages_at entries k ≡ wanted)

pub exact_loop-ExactBelow :
    (wanted : ℕ) (entries : List Region) (rounds i : ℕ)
    → ((j : ℕ) → j < i → (pages_at entries j == wanted) ≡ false)
    → ExactBelow wanted entries (i + rounds) (exact_loop rounds entries wanted i)
unfolding exact_loop
exact_loop-ExactBelow wanted entries zero i h = λ j lt. h j (omega arith)
exact_loop-ExactBelow wanted entries (suc rounds) i h =
    elim (Bool-cases (pages_at entries i == wanted)) [
      | inl e ↦ rw e (omega arith, ground arith)
      | inr e ↦ rw e (
          subst (λ k. ExactBelow wanted entries k (exact_loop rounds entries wanted (i + 1)))
            (omega arith)
            (exact_loop-ExactBelow wanted entries rounds (i + 1)
              (below_suc (λ j. (pages_at entries j == wanted) ≡ false) i h e)))
    ]

pub exact_loop_lem :
    (wanted : ℕ) (entries : List Region)
    → ExactBelow wanted entries (length entries) (exact_loop (length entries) entries wanted 0)
exact_loop_lem wanted entries =
    subst (λ k. ExactBelow wanted entries k (exact_loop (length entries) entries wanted 0))
      (omega arith) (exact_loop-ExactBelow wanted entries (length entries) 0 (λ j h. elim h [ ]))
