-- ===== src/Table/Lookup.antt =====
-- src/arena.rs: what the three readers of the side table answer after a write.
use allox.Prelude.{ℕ, ◌+◌, ◌-◌, ◌*◌, ◌/◌, ◌%◌, ◌≤◌, ◌<◌, ◌≡◌, ◌⊎◌, some, arith, subst}
use allox.Arena.{Arena, arena_align}
use allox.Table.{
  Table, read_slot, big_page_index, big_page_range, fill_range, tag_large, tag_medium, as_big,
  as_large, as_medium, big_table_set, large_table_set, medium_table_set, table_clear, big_table_get,
  large_table_get, medium_table_get,
}
use allox.Table.Fill.{fill_loop_lem, Ready, Extent, big_page_range_lem, big_page_index_lem}

-- The answers of the three readers at an address.
pub record Answers (a : Arena) (t : Table) (p b l m : ℕ) : Type 0 where
  pub big : big_table_get a t p ≡ b
  pub large : large_table_get a t p ≡ l
  pub medium : medium_table_get a t p ≡ m

-- An address inside the units of a range.
pub record Inside (base pages p : ℕ) : Type 0 where
  pub from : base ≤ p
  pub to : p < base + pages * arena_align

module _ (a : Arena) (ok : Ready a) (t : Table) (base pages : ℕ) (e : Extent a base pages) where
  -- A write over the range is what each address of it reads.
  fill_range-Inside :
      (value p : ℕ)
      → Inside base pages p
      → (k : ℕ) × (big_page_index a p ≡ some k)
        × (fill_range t pages value (big_page_range a base pages) k ≡ value)
  unfolding fill_range
  fill_range-Inside value p i =
      let s = (base - a.start) / arena_align in
      let k = (p - a.start) / arena_align in
      (
        k,
        big_page_index_lem a ok p (omega (arith, e.from, i.from)) (omega (arith, e.to, i.to)),
        rw (big_page_range_lem a ok base pages e, fill_loop_lem pages t s value k)
            (ground (arith, e.from, e.unit, e.to, i.from, i.to)),
      )

  fill_range-outside :
      (value p : ℕ)
      → a.start ≤ p
      → p < a.end_
      → (p < base) ⊎ (base + pages * arena_align ≤ p)
      → (k : ℕ) × (big_page_index a p ≡ some k)
        × (fill_range t pages value (big_page_range a base pages) k ≡ t k)
  unfolding fill_range
  fill_range-outside value p lo hi out =
      let s = (base - a.start) / arena_align in
      let k = (p - a.start) / arena_align in
      (
        k,
        big_page_index_lem a ok p lo hi,
        rw (big_page_range_lem a ok base pages e, fill_loop_lem pages t s value k)
            (ground (arith, e.from, e.unit, e.to)),
      )

  -- In an arena that is ready, after a write over whole units of the reservation every address in
  -- them reads back the pointer written, from the reader of its own tier and from no other: for a
  -- big master, a large header and a medium master that are 16-aligned.
  pub set-get :
      (value p : ℕ)
      → value % 16 ≡ 0
      → Inside base pages p
      → Answers a (big_table_set a t base pages value) p value 0 0
        × Answers a (large_table_set a t base pages value) p 0 value 0
        × Answers a (medium_table_set a t base pages value) p 0 0 value
  unfolding big_table_set large_table_set medium_table_set big_table_get large_table_get
      medium_table_get as_big as_large as_medium
  set-get value p aligned i =
      let (k, at, here) = fill_range-Inside value p i in
      let (k1, at1, here1) = fill_range-Inside (tag_large value) p i in
      let (k2, at2, here2) = fill_range-Inside (tag_medium value) p i in
      (
        record {
          big = rw (at, here) (ground arith);
          large = rw (at, here) (ground arith);
          medium = rw (at, here) (ground arith);
        },
        record {
          big = rw (at1, here1) (ground arith);
          large = rw (at1, here1) (ground arith);
          medium = rw (at1, here1) (ground arith);
        },
        record {
          big = rw (at2, here2) (ground arith);
          large = rw (at2, here2) (ground arith);
          medium = rw (at2, here2) (ground arith);
        },
      )

  -- In an arena that is ready, after whole units of the reservation have been cleared no reader
  -- finds an owner for an address in them.
  pub clear-get : (p : ℕ) → Inside base pages p → Answers a (table_clear a t base pages) p 0 0 0
  unfolding table_clear big_table_get large_table_get medium_table_get as_big as_large as_medium
  clear-get p i =
      let (k, at, here) = fill_range-Inside 0 p i in
      record {
        big = rw (at, here) (ground arith);
        large = rw (at, here) (ground arith);
        medium = rw (at, here) (ground arith);
      }

  fill_range-kept :
      (value p big large medium : ℕ)
      → a.start ≤ p
      → p < a.end_
      → (p < base) ⊎ (base + pages * arena_align ≤ p)
      → Answers a t p big large medium
      → Answers a (fill_range t pages value (big_page_range a base pages)) p big large medium
  unfolding big_table_get large_table_get medium_table_get
  fill_range-kept value p big large medium lo hi out before =
      let (k, at, there) = fill_range-outside value p lo hi out in
      record {
        big = rw (at, there) (subst (λ i. read_slot as_big t i ≡ big) at before.big);
        large = rw (at, there) (subst (λ i. read_slot as_large t i ≡ large) at before.large);
        medium = rw (at, there) (subst (λ i. read_slot as_medium t i ≡ medium) at before.medium);
      }

  -- In an arena that is ready, a write over whole units of the reservation, of any tier or a
  -- clearing, changes no reader's answer at an address of the reservation outside those units.
  pub set-elsewhere :
      (value p big large medium : ℕ)
      → a.start ≤ p
      → p < a.end_
      → (p < base) ⊎ (base + pages * arena_align ≤ p)
      → Answers a t p big large medium
      → Answers a (big_table_set a t base pages value) p big large medium
        × Answers a (large_table_set a t base pages value) p big large medium
        × Answers a (medium_table_set a t base pages value) p big large medium
        × Answers a (table_clear a t base pages) p big large medium
  unfolding big_table_set large_table_set medium_table_set table_clear
  set-elsewhere value p big large medium lo hi out before = (
    fill_range-kept value p big large medium lo hi out before,
    fill_range-kept (tag_large value) p big large medium lo hi out before,
    fill_range-kept (tag_medium value) p big large medium lo hi out before,
    fill_range-kept 0 p big large medium lo hi out before,
  )
