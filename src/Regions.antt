-- ===== src/Regions.antt =====
-- What the stores of free regions share: src/arena.rs (HoleStore), src/lib.rs
-- (LargeRegionCache) and src/cache.rs (the large stash) each keep an array of regions, look for
-- one of an exact length, and else for the smallest that is large enough.
pub mod BestFit
pub mod Index
use allox.Prelude.{
  ℕ, zero, suc, ◌+◌, ◌-◌, ◌%◌, ◌^◌, Bool, true, ◌&&◌, Option, none, some, List, ltb, ◌==◌,
  if◌then◌else◌, get_or,
}

-- (base or offset, pages)
abbrev pub Region : Type 0
Region = ℕ × ℕ

abbrev pub null_region : Region
null_region = (0, 0)

abbrev pub pages_at : List Region → ℕ → ℕ
pages_at entries i = (get_or entries i null_region).1

-- The mark of an empty slot in an exact-size index, `u16::MAX`.
abbrev pub empty_index : ℕ
empty_index = 2 ^ 16 - 1

-- `refresh_exact` and `refresh_large_exact`: the first of the `rounds` entries from `i` on that
-- has `pages` pages, as a `u16`.
unfoldable pub refresh_loop : ℕ → List Region → ℕ → ℕ → ℕ
refresh_loop zero entries pages i = empty_index
refresh_loop (suc rounds) entries pages i =
    let rest = refresh_loop rounds entries pages (i + 1) in
    if pages_at entries i == pages then i % 2 ^ 16 else rest

-- An index table with one slot written.
abbrev pub update : (ℕ → ℕ) → ℕ → ℕ → ℕ → ℕ
update table key value k = if k == key then value else table k

-- `best.map_or(true, |b| p < entries[b].1)`
abbrev pub is_better : List Region → ℕ → Option ℕ → Bool
is_better entries p none = true
is_better entries p (some b) = ltb p (pages_at entries b)

-- The best-fit loop of `take_fit` and `take_large_stash` over the `rounds` entries from `i` on.
unfoldable pub best_loop : (ℕ → Bool) → ℕ → List Region → ℕ → Option ℕ → Option ℕ
best_loop ok zero entries i best = best
best_loop ok (suc rounds) entries i best =
    let p = pages_at entries i in
    best_loop ok rounds entries (i + 1) (if ok p && is_better entries p best then some i else best)

-- The scan for an exact length: `for i in 0..len { if entries[i].1 == wanted { return … } }`.
unfoldable pub exact_loop : ℕ → List Region → ℕ → ℕ → Option ℕ
exact_loop zero entries wanted i = none
exact_loop (suc rounds) entries wanted i =
    let rest = exact_loop rounds entries wanted (i + 1) in
    if pages_at entries i == wanted then some i else rest
