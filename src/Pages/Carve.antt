-- ===== src/Pages/Carve.antt =====
-- src/page.rs: what the carving loops of a span make: how many blocks, and the free list that
-- runs through them. A medium span of the arena is carved in one run across its pages; only one
-- outside the arena has sub-headers and chunks, as the comment on `SpanMaster` has it for all.
use allox.Prelude.{
  ℕ, zero, suc, ◌+◌, ◌-◌, ◌*◌, ◌/◌, ◌≤◌, ◌<◌, ◌≡◌, refl, sym, ◌∙◌, ap, true, false, arith, leb,
  ◌==◌, get_or, subst,
}
use native.Mathlib.Nat.{div-le_self, div-mul-le_self, lt-div-mul-add}
use allox.Classes.{page_size, medium_classes}
use allox.Classes.BigTables.{big_classes, medium_capacity_for, medium_capacity_legacy_for}
use allox.Pages.{
  Memory, Carved, carve_block, carve_loop, carve, carve_units, sub_headers, Span, span_init,
  big_init, span_master_size, span_sub_size,
}
use allox.Pages.Chain.{Chain, HeadsChain, push_block-Chain, descending, descending-Avoids}

-- With enough fuel the loop carves the `n` blocks that fit.
abbrev carved : ℕ → ℕ → ℕ → Carved → Carved
carved zero size b s = s
carved (suc n) size b s = carved n size (b + size) (carve_block s b)

carve_loop-carved :
    (n fuel size end b : ℕ) (s : Carved)
    → n ≤ fuel
    → b + n * size ≤ end
    → end < b + n * size + size
    → carve_loop fuel size end b s ≡ carved n size b s
unfolding carve_loop
carve_loop-carved zero zero size end b s enough lo hi = refl
carve_loop-carved zero (suc fuel) size end b s enough lo hi =
    let done : leb (b + size) end ≡ false = ground arith in rw done refl
carve_loop-carved (suc n) zero size end b s enough lo hi = absurd (omega arith)
carve_loop-carved (suc n) (suc fuel) size end b s enough lo hi =
    let more : leb (b + size) end ≡ true = ground arith in
    rw more (
      carve_loop-carved n fuel size end (b + size) (carve_block s b) (omega arith) (omega arith)
        (omega arith))

pub carve-carved :
    (size start end : ℕ) (s : Carved)
    → 1 ≤ size
    → start ≤ end
    → carve size start end s ≡ carved ((end - start) / size) size start s
unfolding carve
carve-carved size start end s pos le =
    carve_loop-carved ((end - start) / size) (end - start) size end start s
      (div-le_self (end - start) size) (omega (arith, div-mul-le_self (end - start) size))
      (omega (arith, lt-div-mul-add {a = end - start} {b = size} pos))

carved-count : (n size b : ℕ) (s : Carved) → (carved n size b s).count ≡ s.count + n
unfolding carve_block
carved-count zero size b s = omega arith
carved-count (suc n) size b s = omega (arith, carved-count n size (b + size) (carve_block s b))

-- The last block carved is the last one pushed.
carved-last :
    (n size b : ℕ) (s : Carved)
    → carved (suc n) size b s ≡ carve_block (carved n size b s) (b + n * size)
carved-last zero size b s = ap (carve_block s) (omega arith)
carved-last (suc n) size b s =
    carved-last n size (b + size) (carve_block s b)
    ∙ ap (carve_block (carved (suc n) size b s)) (omega arith)

carved-Chain :
    (n size b : ℕ) (s : Carved)
    → 1 ≤ size
    → 1 ≤ b
    → s.heads.head ≡ 0
    → HeadsChain (carved n size b s).heads (descending n size b)
unfolding carve_block
carved-Chain zero size b s pos pos' empty = empty
carved-Chain (suc n) size b s pos pos' empty =
    subst (λ (c : Carved). HeadsChain c.heads (descending (suc n) size b))
      (sym (carved-last n size b s))
      (push_block-Chain (carved n size b s).heads (b + n * size) (descending n size b) (omega arith)
        (descending-Avoids n size b (b + n * size) pos (omega arith))
        (carved-Chain n size b s pos pos' empty))

pub carve-count :
    (size start end : ℕ) (s : Carved)
    → 1 ≤ size
    → start ≤ end
    → (carve size start end s).count ≡ s.count + (end - start) / size
carve-count size start end s pos le =
    rw (carve-carved size start end s pos le) (carved-count ((end - start) / size) size start s)

-- Units with a sub-header.
carve_units-later :
    (rounds size base page : ℕ) (s : Carved)
    → 1 ≤ size
    → 1 ≤ page
    → (carve_units rounds size base page s).count
      ≡ s.count + rounds * ((page_size - span_sub_size) / size)
unfolding carve_units
carve_units-later zero size base page s pos later = omega arith
carve_units-later (suc rounds) size base page s pos later =
    let chunk = base + page * page_size in
    let start = chunk + span_sub_size in
    let here = carve size start (chunk + page_size) s in
    let other : (page == 0) ≡ false = ground arith in
    let span : chunk + page_size - start ≡ page_size - span_sub_size = omega arith in
    rw (carve_units, other)
      (omega (
        arith,
        carve_units-later rounds size base (page + 1) here pos (omega arith),
        carve-count size start (chunk + page_size) s pos (omega arith),
        ap (λ n. n / size) span,
      ))

carve_units-count :
    (more size base : ℕ) (s : Carved)
    → 1 ≤ size
    → (carve_units (suc more) size base 0 s).count
      ≡ s.count
        + ((page_size - span_master_size) / size + more * ((page_size - span_sub_size) / size))
unfolding carve_units
carve_units-count more size base s pos =
    let start = base + 0 * page_size + span_master_size in
    let end = base + 0 * page_size + page_size in
    let span : end - start ≡ page_size - span_master_size = omega arith in
    omega (
      arith,
      carve_units-later more size base 1 (carve size start end s) pos (omega arith),
      carve-count size start end s pos (omega arith),
      ap (λ n. n / size) span,
    )

-- A span whose blocks run without a break from `base + 64` to the end of its pages: their number,
-- the free list, which holds the last block first, and that none of them goes past the end.
pub record Packed (size base npages : ℕ) (span : Span) : Type 0 where
  pub counted : span.1.free_count ≡ (npages * page_size - 64) / size
  pub chain : Chain span.0 span.1.free_head (descending span.1.free_count size (base + 64))
  pub inside : base + 64 + span.1.free_count * size ≤ base + npages * page_size

carve-Packed :
    (size base npages : ℕ) (s : Carved)
    → 1 ≤ size
    → 1 ≤ npages
    → s.heads.head ≡ 0
    → s.count ≡ 0
    → (let done = carve size (base + 64) (base + npages * page_size) s in
        (done.count ≡ (npages * page_size - 64) / size)
        × HeadsChain done.heads (descending done.count size (base + 64))
        × (base + 64 + done.count * size ≤ base + npages * page_size))
carve-Packed size base npages s pos some_pages empty none_yet =
    let end = base + npages * page_size in
    let n = (end - (base + 64)) / size in
    let count' : (carved n size (base + 64) s).count ≡ n =
      omega (arith, carved-count n size (base + 64) s) in
    rw (carve-carved size (base + 64) end s pos (omega arith)) (
      count' ∙ ap (λ m. m / size) (omega arith),
      subst (λ k. HeadsChain (carved n size (base + 64) s).heads (descending k size (base + 64)))
          (sym count') (carved-Chain n size (base + 64) s pos (omega arith) empty),
      omega (arith, count', div-mul-le_self (end - (base + 64)) size, ap (λ k. k * size) count'),
    )

module _ (memory : Memory) (base mclass npages : ℕ) (some_pages : 1 ≤ npages) where
  -- For a class with a positive block size and at least one page, a span of the arena is packed
  -- from `base + 64` on: it has the blocks that `medium_capacity_for` promises, its free list runs
  -- through them, the last block first, and no block goes past the end of the span.
  pub span_init-Packed :
      1 ≤ get_or medium_classes mclass 0
      → (Packed
          (get_or medium_classes mclass 0)
          base
          npages
          (span_init memory base mclass npages true))
        × ((span_init memory base mclass npages true).1.free_count
            ≡ medium_capacity_for (get_or medium_classes mclass 0) npages)
  unfolding span_init medium_capacity_for
  span_init-Packed pos =
      let empty : Carved = record { heads = record { memory = memory; head = 0 }; count = 0 } in
      let (counted, chain, inside) =
        carve-Packed (get_or medium_classes mclass 0) base npages empty pos some_pages refl refl in
      let full : (npages == 0) ≡ false = ground arith in
      (record { counted = counted; chain = chain; inside = inside }, rw full counted)

  -- The count that a span outside the arena has for its free list is the one that
  -- `medium_capacity_legacy_for` promises.
  span_init-legacy :
      1 ≤ get_or medium_classes mclass 0
      → (span_init memory base mclass npages false).1.free_count
        ≡ medium_capacity_legacy_for (get_or medium_classes mclass 0) npages
  unfolding span_init medium_capacity_legacy_for
  span_init-legacy pos =
      let full : (npages == 0) ≡ false = ground arith in
      let start : Carved = record {
        heads = record { memory = sub_headers (npages - 1) base 1 memory; head = 0 };
        count = 0;
      } in
      let pages : suc (npages - 1) ≡ npages = omega arith in
      rw full (
        subst
          (λ n.
            (carve_units n (get_or medium_classes mclass 0) base 0 start).count
            ≡ (page_size - 64) / get_or medium_classes mclass 0
              + (npages - 1) * ((page_size - 16) / get_or medium_classes mclass 0))
          pages
          (omega (
            arith,
            carve_units-count (npages - 1) (get_or medium_classes mclass 0) base start pos,
          )))

  -- For a class with a positive block size and at least one page, a big span is packed from
  -- `base + 64` on: its count of blocks is what the pages hold, its free list runs through them,
  -- the last block first, and no block goes past the end of the span.
  pub big_init-Packed :
      1 ≤ get_or big_classes mclass 0
      → Packed (get_or big_classes mclass 0) base npages (big_init memory base mclass npages)
  unfolding big_init
  big_init-Packed pos =
      let empty : Carved = record { heads = record { memory = memory; head = 0 }; count = 0 } in
      let (counted, chain, inside) =
        carve-Packed (get_or big_classes mclass 0) base npages empty pos some_pages refl refl in
      record { counted = counted; chain = chain; inside = inside }
