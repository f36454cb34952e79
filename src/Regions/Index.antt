-- ===== src/Regions/Index.antt =====
-- The exact-size index: what a refreshed slot says of the entries.
use allox.Prelude.{
  ℕ, zero, suc, ◌+◌, ◌≤◌, ◌<◌, ◌≡◌, ◌⊎◌, inl, inr, refl, subst, false, List, arith, ◌==◌, length,
  Bool-cases, below_suc,
}
use allox.Regions.{Region, pages_at, refresh_loop, empty_index}

-- Slot `r` of the index is right about the lengths of the entries below `n`: it names one with
-- `pages` pages, or it is empty and there is none.
abbrev pub SlotOk : List Region → ℕ → ℕ → ℕ → Type 0
SlotOk entries n pages r =
    ((r < n) × (pages_at entries r ≡ pages))
    ⊎ ((r ≡ empty_index) × ((j : ℕ) → j < n → (pages_at entries j == pages) ≡ false))

pub refresh_loop-SlotOk :
    (entries : List Region) (pages rounds i : ℕ)
    → i + rounds ≤ empty_index
    → ((j : ℕ) → j < i → (pages_at entries j == pages) ≡ false)
    → SlotOk entries (i + rounds) pages (refresh_loop rounds entries pages i)
unfolding refresh_loop
refresh_loop-SlotOk entries pages zero i small h = inr (refl, λ j lt. h j (omega arith))
refresh_loop-SlotOk entries pages (suc rounds) i small h =
    elim (Bool-cases (pages_at entries i == pages)) [
      | inl e ↦ rw e (inl (omega arith, ground arith))
      | inr e ↦ rw e (
          subst (λ k. SlotOk entries k pages (refresh_loop rounds entries pages (i + 1)))
            (omega arith)
            (refresh_loop-SlotOk entries pages rounds (i + 1) (omega arith)
              (below_suc (λ j. (pages_at entries j == pages) ≡ false) i h e)))
    ]

pub refresh_lem :
    (entries : List Region) (pages : ℕ)
    → length entries ≤ empty_index
    → SlotOk entries (length entries) pages (refresh_loop (length entries) entries pages 0)
refresh_lem entries pages small =
    subst (λ k. SlotOk entries k pages (refresh_loop (length entries) entries pages 0))
      (omega arith)
      (refresh_loop-SlotOk entries pages (length entries) 0 (omega arith) (λ j h. elim h [ ]))
