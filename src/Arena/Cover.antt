-- ===== src/Arena/Cover.antt =====
-- src/arena.rs: slices as sets of addresses. `covers x` counts, for one address, the slices that
-- contain it; parking, splitting and removing a hole move such counts and lose none.
use allox.Prelude.{
  ℕ, ◌+◌, ◌-◌, ◌*◌, ◌≤◌, ◌<◌, ◌≡◌, ap, inl, inr, ◌&&◌, List, [], ◌∷◌, arith, ltb, leb,
  if◌then◌else◌, length, get_or, set, swap_remove, total, total-append, total-set,
  total-swap_remove, ltb→lt, length-set, length-swap_remove, length-append, Bool-cases,
}
use allox.Regions.{Region, null_region, pages_at}
use allox.Arena.{HoleStore, arena_align, take_hole, park}

-- 1 if the slice of `pages` pages at `off` contains the offset `x`, else 0.
abbrev pub cover : ℕ → Region → ℕ
cover x (off, pages) = if leb off x && ltb x (off + pages * arena_align) then 1 else 0

abbrev pub covers : ℕ → List Region → ℕ
covers x = total (cover x)

abbrev pub region_bytes : Region → ℕ
region_bytes (off, pages) = pages * arena_align

-- A slice falls into its first `pages` pages and the rest.
cover-split :
    (x off p pages : ℕ)
    → pages ≤ p
    → cover x (off, p) ≡ cover x (off, pages) + cover x (off + pages * arena_align, p - pages)
cover-split x off p pages h = ground arith

-- A slice that grows at its end covers what it covered and the new part.
pub cover-extend :
    (x off old more : ℕ)
    → cover x (off, old + more) ≡ cover x (off, old) + cover x (off + old * arena_align, more)
cover-extend x off old more = ground arith

pub cover_start : (off pages : ℕ) → 0 < pages → cover off (off, pages) ≡ 1
cover_start off pages h = ground arith

module _ (holes : HoleStore) (pages i : ℕ) where
  pub rest_entries : List Region
  rest_entries =
      if ltb pages (pages_at holes.entries i)
      then set holes.entries i (
        (get_or holes.entries i null_region).0 + pages * arena_align,
        pages_at holes.entries i - pages,
      )
      else swap_remove holes.entries i null_region

  pub take_hole-parts :
      ((take_hole holes pages i).0.entries ≡ rest_entries)
      × ((take_hole holes pages i).0.bytes ≡ holes.bytes - pages * arena_align)
      × ((take_hole holes pages i).1 ≡ (get_or holes.entries i null_region).0)
  unfolding take_hole rest_entries
  take_hole-parts = ground arith

  module _ (lt : i < length holes.entries) (fits : pages ≤ pages_at holes.entries i) where
    -- Taking `pages` pages out of entry `i` removes exactly those addresses from the store.
    pub covers-take_hole :
        (x : ℕ)
        → covers x (take_hole holes pages i).0.entries
            + cover x ((get_or holes.entries i null_region).0, pages)
          ≡ covers x holes.entries
    unfolding rest_entries
    covers-take_hole x =
        let off = (get_or holes.entries i null_region).0 in
        let p = pages_at holes.entries i in
        rw take_hole-parts.0 (elim (Bool-cases (ltb pages p)) [
          | inl e ↦ rw e (
              omega (
                arith,
                total-set (cover x) holes.entries i (off + pages * arena_align, p - pages)
                    null_region lt,
                cover-split x off p pages fits,
              ))
          | inr e ↦
              let whole : p ≡ pages = ground arith in
              rw e (
                omega (
                  arith,
                  total-swap_remove (cover x) holes.entries i null_region lt,
                  ap (λ (q : ℕ). cover x (off, q)) whole,
                ))
        ])

    pub bytes-take_hole :
        holes.bytes ≡ total region_bytes holes.entries
        → (take_hole holes pages i).0.bytes ≡ total region_bytes (take_hole holes pages i).0.entries
    unfolding rest_entries
    bytes-take_hole h =
        let off = (get_or holes.entries i null_region).0 in
        let p = pages_at holes.entries i in
        rw (take_hole-parts.0, take_hole-parts.1)
          (elim (Bool-cases (ltb pages p)) [
            | inl e ↦ rw e (
                omega (
                  arith,
                  total-set region_bytes holes.entries i (off + pages * arena_align, p - pages)
                      null_region lt,
                  ltb→lt pages p e,
                ))
            | inr e ↦
                let whole : p ≡ pages = ground arith in
                rw e (
                  omega
                    (arith, total-swap_remove region_bytes holes.entries i null_region lt, whole))
          ])

    pub length-take_hole : length (take_hole holes pages i).0.entries ≤ length holes.entries
    unfolding rest_entries
    length-take_hole =
        let v : Region = (
          (get_or holes.entries i null_region).0 + pages * arena_align,
          pages_at holes.entries i - pages,
        ) in
        rw take_hole-parts.0 (
          ground
            (arith, length-set holes.entries i v, length-swap_remove holes.entries i null_region))

-- Parking a slice adds its addresses and its bytes.
module _ (holes : HoleStore) (off pages : ℕ) where
  pub covers-park :
      (x : ℕ)
      → covers x (park holes off pages).entries ≡ covers x holes.entries + cover x (off, pages)
  unfolding park
  covers-park x = omega (arith, total-append (cover x) holes.entries ((off, pages) ∷ []))

  pub bytes-park :
      holes.bytes ≡ total region_bytes holes.entries
      → (park holes off pages).bytes ≡ total region_bytes (park holes off pages).entries
  unfolding park
  bytes-park h = omega (arith, total-append region_bytes holes.entries ((off, pages) ∷ []))

  pub length-park : length (park holes off pages).entries ≡ length holes.entries + 1
  unfolding park
  length-park = omega (arith, length-append holes.entries ((off, pages) ∷ []))
