-- ===== src/Classes/Spans.antt =====
-- src/classes.rs: the span lengths. Every span is long enough for its batch of blocks, and no
-- shorter span would do.
use allox.Prelude.{
  ℕ, zero, suc, ◌+◌, ◌-◌, ◌*◌, ◌≤◌, ◌<◌, ◌≡◌, some, arith, refl, Bool-cases, inl, inr, ltb,
  below_suc,
}
use allox.Classes.{medium_block_cap, target_blocks_per_span, page_size}
use allox.Classes.BigTables.{
  medium_capacity_for, span_pages_loop, span_pages_for, big_span_pages_for, big_master_reserve,
  target_blocks_per_big_span,
}

-- A span of eight pages holds eight blocks of any medium size.
eight_pages : (block : ℕ) → 0 < block → block ≤ medium_block_cap → 8 ≤ medium_capacity_for block 8
unfolding medium_capacity_for
eight_pages block pos cap = grind arith

no_pages : (block k : ℕ) → k < 1 → medium_capacity_for block k < 8
unfolding medium_capacity_for
no_pages block k h = ground arith

span_pages_loop-some :
    (fuel block pages : ℕ)
    → 0 < block
    → block ≤ medium_block_cap
    → 1 ≤ pages
    → pages ≤ 8
    → 9 ≤ pages + fuel
    → ((k : ℕ) → k < pages → medium_capacity_for block k < 8)
    → (p : ℕ) × (span_pages_loop fuel block pages ≡ some p)
      × (1 ≤ p)
      × (p ≤ 8)
      × (8 ≤ medium_capacity_for block p)
      × ((k : ℕ) → k < p → medium_capacity_for block k < 8)
unfolding span_pages_loop
span_pages_loop-some zero block pages pos cap lo hi enough short = absurd (omega arith)
span_pages_loop-some (suc fuel) block pages pos cap lo hi enough short =
    elim (Bool-cases (ltb (medium_capacity_for block pages) 8)) [
      | inl e ↦ rw e (
          span_pages_loop-some fuel block (pages + 1) pos cap (omega arith)
            (ground (arith, eight_pages block pos cap)) (omega arith)
            (below_suc (λ k. medium_capacity_for block k < 8) pages short (ground arith)))
      | inr e ↦ rw e (pages, refl, lo, hi, ground arith, short)
    ]

-- For every block of the medium tier the search for a span length ends; the length it finds is at
-- most eight pages, it holds at least the target of eight blocks, and no shorter span does.
pub span_pages_for-least :
    (block : ℕ)
    → 0 < block
    → block ≤ medium_block_cap
    → (p : ℕ) × (span_pages_for block ≡ some p)
      × (1 ≤ p)
      × (p ≤ 8)
      × (target_blocks_per_span ≤ medium_capacity_for block p)
      × ((k : ℕ) → k < p → medium_capacity_for block k < target_blocks_per_span)
unfolding span_pages_for
span_pages_for-least block pos cap =
    span_pages_loop-some 16 block 1 pos cap (omega arith) (omega arith) (omega arith)
      (λ k h. no_pages block k h)

-- A big span of the length computed holds its master header and the target of eight blocks, and a
-- span one page shorter does not.
pub big_span_pages_for-least :
    (block : ℕ)
    → let p = big_span_pages_for block in
      (big_master_reserve + target_blocks_per_big_span * block ≤ p * page_size)
      × (1 ≤ p)
      × ((p - 1) * page_size < big_master_reserve + target_blocks_per_big_span * block)
unfolding big_span_pages_for
big_span_pages_for-least block = omega arith
