-- ===== src/Arena/Holes.antt =====
-- src/arena.rs: `holes_take` finds the best fit, whatever the exact index says.
use allox.Prelude.{
  ℕ, zero, suc, ◌+◌, ◌<◌, ◌≡◌, subst, inl, inr, Bool, false, ◌&&◌, Option, none, some, List, arith,
  ltb, leb, ◌==◌, if◌then◌else◌, length, Bool-cases, Option-cases,
}
use allox.Regions.{Region, pages_at, is_better}
use allox.Regions.BestFit.{BestBelow, BestBelow-step}
use allox.Arena.{HoleStore, exact_hole, fit_loop, scan_holes}

abbrev pub enough : ℕ → ℕ → Bool
enough pages p = leb pages p

-- The scan of a store whose entries below `i` have no exact fit.
module _ (entries : List Region) (pages : ℕ) where
  fit_loop-step :
      (i : ℕ) (best : Option ℕ)
      → (pages_at entries i == pages) ≡ false
      → BestBelow (enough pages) entries i best
      → BestBelow (enough pages) entries (i + 1) (
          if ltb pages (pages_at entries i) && is_better entries (pages_at entries i) best
          then some i
          else best)
  fit_loop-step i best ne h =
      let p = pages_at entries i in
      let same : ltb pages p ≡ leb pages p = ground arith in
      rw same (BestBelow-step (enough pages) entries i best h)

  -- An exact fit is a best fit.
  exact-BestBelow :
      (k n : ℕ) → k < n → pages_at entries k ≡ pages → BestBelow (enough pages) entries n (some k)
  exact-BestBelow k n lt e = (lt, ground arith, λ j h good. ground arith)

  fit_loop-BestBelow :
      (rounds i : ℕ) (best : Option ℕ)
      → BestBelow (enough pages) entries i best
      → BestBelow (enough pages) entries (i + rounds) (fit_loop rounds entries pages i best)
  unfolding fit_loop
  fit_loop-BestBelow zero i best h =
      subst (λ k. BestBelow (enough pages) entries k best) (omega arith) h
  fit_loop-BestBelow (suc rounds) i best h = elim (Bool-cases (pages_at entries i == pages)) [
    | inl e ↦ rw e (exact-BestBelow i (i + suc rounds) (omega arith) (ground arith))
    | inr e ↦ rw e (
        let best' =
          if ltb pages (pages_at entries i) && is_better entries (pages_at entries i) best
          then some i
          else best in
        subst
          (λ k. BestBelow (enough pages) entries k (fit_loop rounds entries pages (i + 1) best'))
          (omega arith) (fit_loop-BestBelow rounds (i + 1) best' (fit_loop-step i best e h)))
  ]

-- The exact index is only a hint: what it yields has the length asked for.
pub exact_hole-exact :
    (holes : HoleStore) (pages k : ℕ)
    → (exact_hole holes pages).1 ≡ some k
    → (k < length holes.entries) × (pages_at holes.entries k ≡ pages)
unfolding exact_hole
exact_hole-exact holes pages k e = ground arith

pub exact_hole-entries :
    (holes : HoleStore) (pages : ℕ)
    → ((exact_hole holes pages).0.entries ≡ holes.entries)
      × ((exact_hole holes pages).0.bytes ≡ holes.bytes)
unfolding exact_hole
exact_hole-entries holes pages = ground arith

-- What `holes_take` decides on: the best fit among the entries of the store.
pub scan_holes-BestBelow :
    (holes : HoleStore) (pages : ℕ)
    → let (after, best) = exact_hole holes pages in
      BestBelow (enough pages) holes.entries (length holes.entries) (scan_holes after pages best)
unfolding scan_holes
scan_holes-BestBelow holes pages =
    let entries = holes.entries in
    let kept = (exact_hole-entries holes pages).0 in
    elim (Option-cases (exact_hole holes pages).1) [
      | inl e ↦
          rw (e, scan_holes, kept)
            (subst
              (λ k.
                BestBelow (enough pages) entries k (fit_loop (length entries) entries pages 0 none))
              (omega arith)
              (fit_loop-BestBelow entries pages (length entries) 0 none (λ j h. elim h [ ])))
      | inr (k, e) ↦
          let (lt, same) = exact_hole-exact holes pages k e in
          rw (e, scan_holes) (exact-BestBelow entries pages k (length entries) lt same)
    ]
