-- ===== src/Arena/Take.antt =====
-- src/arena.rs: all outcomes of `holes_take`.
use allox.Prelude.{
  ℕ, ◌+◌, ◌≤◌, ◌<◌, ◌≡◌, refl, ap, subst, Option, none, some, arith, ◌==◌, length, get_or,
  Option-cases, Bool-cases, inl, inr,
}
use allox.Regions.{null_region, pages_at}
use allox.Regions.BestFit.{BestBelow}
use allox.Arena.{Arena, holes_take, take_hole, exact_hole, scan_holes}
use allox.Arena.Cover.{
  cover, covers, covers-take_hole, bytes-take_hole, length-take_hole, take_hole-parts,
}
use allox.Arena.Holes.{exact_hole-entries, scan_holes-BestBelow, enough}
use allox.Arena.Steps.{StoreOk}

-- The arena after a look that found no hole, and after one that took entry `i`.
abbrev pub looked : Arena → ℕ → Arena
looked a pages =
    let holes = (exact_hole a.holes pages).0 in
    record a { holes = holes; hole_count = length holes.entries }

abbrev pub chosen : Arena → ℕ → Option ℕ
chosen a pages = let (holes, best) = exact_hole a.holes pages in scan_holes holes pages best

abbrev pub taken_at : Arena → ℕ → ℕ → Arena
taken_at a pages i =
    let left = (take_hole (exact_hole a.holes pages).0 pages i).0 in
    record a { holes = left; hole_count = length left.entries }

module _ (a : Arena) (pages : ℕ) where
  pub holes_take-cases {ℓ} :
      (P : Arena × Option ℕ → Type ℓ)
      → (a.hole_count ≡ 0 → P (a, none))
      → (chosen a pages ≡ none → P (looked a pages, none))
      → ((i : ℕ)
          → chosen a pages ≡ some i
          → P (
            taken_at a pages i,
            some (a.start + (take_hole (exact_hole a.holes pages).0 pages i).1),
          ))
      → P (holes_take a pages)
  unfolding holes_take
  holes_take-cases P empty miss hit = elim (Bool-cases (a.hole_count == 0)) [
    | inl e ↦ rw (e, holes_take) (empty (ground arith))
    | inr e ↦ elim (Option-cases (chosen a pages)) [
      | inl n ↦ rw (e, n, holes_take) (miss n)
      | inr (i, s) ↦ rw (e, s, holes_take) (hit i s)
    ]
  ]

  -- The hole that is chosen is one of the shortest that are long enough.
  pub chosen-BestBelow :
      BestBelow (enough pages) a.holes.entries (length a.holes.entries) (chosen a pages)
  chosen-BestBelow = scan_holes-BestBelow a.holes pages

  pub chosen-fits :
      (i : ℕ)
      → chosen a pages ≡ some i
      → (i < length a.holes.entries)
        × (pages ≤ pages_at a.holes.entries i)
        × ((j : ℕ)
            → j < length a.holes.entries
            → pages ≤ pages_at a.holes.entries j
            → pages_at a.holes.entries i ≤ pages_at a.holes.entries j)
  chosen-fits i e =
      let best =
        subst (BestBelow (enough pages) a.holes.entries (length a.holes.entries)) e
          chosen-BestBelow in
      (best.0, ground arith, λ j lt h. best.2 j lt (ground arith))

  pub StoreOk-looked : StoreOk a → StoreOk (looked a pages)
  StoreOk-looked ok = ground (arith, exact_hole-entries a.holes pages, ok.bytes, ok.slots, ok.cap)

  module _ (i : ℕ) (e : chosen a pages ≡ some i) where
    pub taken_offset :
        (take_hole (exact_hole a.holes pages).0 pages i).1
        ≡ (get_or a.holes.entries i null_region).0
    taken_offset = rw (
      (take_hole-parts (exact_hole a.holes pages).0 pages i).2,
      (exact_hole-entries a.holes pages).0,
    )

    pub covers-taken_at :
        (x : ℕ)
        → covers x (taken_at a pages i).holes.entries
            + cover x ((get_or a.holes.entries i null_region).0, pages)
          ≡ covers x a.holes.entries
    covers-taken_at x =
        let after = (exact_hole a.holes pages).0 in
        let kept = (exact_hole-entries a.holes pages).0 in
        let (lt, fits, least) = chosen-fits i e in
        rw kept at (covers-take_hole after pages i (rw kept lt) (rw kept fits) x)

    pub StoreOk-taken_at : StoreOk a → StoreOk (taken_at a pages i)
    StoreOk-taken_at ok =
        let after = (exact_hole a.holes pages).0 in
        let kept = exact_hole-entries a.holes pages in
        let (lt, fits, least) = chosen-fits i e in
        let lt' : i < length after.entries = rw kept.0 lt in
        let fits' : pages ≤ pages_at after.entries i = rw kept.0 fits in
        let short = rw kept.0 at (length-take_hole after pages i lt' fits') in
        record {
          bytes = bytes-take_hole after pages i lt' fits' (rw (kept.0, kept.1) ok.bytes);
          counted = refl;
          slots = omega (arith, short, ok.slots);
          cap = omega (arith, (take_hole-parts after pages i).1, kept.1, ok.cap);
        }

-- What a look for `pages` pages yields. With no result no hole is long enough; with a result the
-- base is that of a shortest hole among those long enough, and exactly the slice at the base, as
-- far as it is asked for, has left the store.
abbrev pub TakeOutcome : Arena → ℕ → Arena × Option ℕ → Type 0
TakeOutcome a pages (b, none) =
    ((j : ℕ) → j < length a.holes.entries → pages_at a.holes.entries j < pages)
    × ((x : ℕ) → covers x b.holes.entries ≡ covers x a.holes.entries)
TakeOutcome a pages (b, some base) =
    (i : ℕ) × (i < length a.holes.entries)
    × (base ≡ a.start + (get_or a.holes.entries i null_region).0)
    × (pages ≤ pages_at a.holes.entries i)
    × ((j : ℕ)
        → j < length a.holes.entries
        → pages ≤ pages_at a.holes.entries j
        → pages_at a.holes.entries i ≤ pages_at a.holes.entries j)
    × ((x : ℕ)
        → covers x b.holes.entries + cover x ((get_or a.holes.entries i null_region).0, pages)
          ≡ covers x a.holes.entries)

-- For every store whose counters are right, whatever its exact index holds, `holes_take` is a best
-- fit: if it finds nothing, no hole is long enough and the holes are unchanged; if it finds a base,
-- it is the base of a shortest hole that is long enough, and exactly that slice leaves the store.
pub holes_take-best : (a : Arena) (pages : ℕ) → StoreOk a → TakeOutcome a pages (holes_take a pages)
holes_take-best a pages ok =
    holes_take-cases a pages (TakeOutcome a pages)
      (λ e. (λ j lt. absurd (omega (arith, ok.counted, e)), λ x. refl))
      (λ e. (λ j lt. none_fits e j lt, λ x. rw (exact_hole-entries a.holes pages).0))
      (λ i e.
        let (lt, fits, least) = chosen-fits a pages i e in
        (
          i,
          lt,
          ap (λ (o : ℕ). a.start + o) (taken_offset a pages i e),
          fits,
          least,
          covers-taken_at a pages i e,
        ))
  where
    none_fits :
        chosen a pages ≡ none
        → (j : ℕ) → j < length a.holes.entries
        → pages_at a.holes.entries j < pages
    none_fits e j lt =
        let best =
          subst (BestBelow (enough pages) a.holes.entries (length a.holes.entries)) e
            (chosen-BestBelow a pages) in
        ground (arith, best j lt)
