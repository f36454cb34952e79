-- ===== src/Table/Fill.antt =====
-- src/arena.rs: the slots that a range of the side table and an address stand for, and the loop
-- that writes them.
use allox.Prelude.{
  ℕ, zero, suc, ◌+◌, ◌-◌, ◌*◌, ◌/◌, ◌%◌, ◌≤◌, ◌<◌, ◌≡◌, ◌&&◌, some, arith, ltb, leb, if◌then◌else◌,
  usize_max,
}
use allox.Regions.{update}
use allox.Arena.{Arena, ready, arena_align, is_ready}
use allox.Table.{
  Table, big_map_slots, big_page_index, range_index, range_last, range_offset, big_page_range,
  fill_loop,
}

pub fill_loop_lem :
    (rounds : ℕ) (t : Table) (i value k : ℕ)
    → fill_loop rounds t i value k ≡ (if leb i k && ltb k (i + rounds) then value else t k)
unfolding fill_loop
fill_loop_lem zero t i value k = ground arith
fill_loop_lem (suc rounds) t i value k =
    ground (arith, fill_loop_lem rounds (update t i value) (i + 1) value k)

-- An arena that is ready, with no more units than the table has slots, in the address space.
pub record Ready (a : Arena) : Type 0 where
  pub live : a.state ≡ ready
  pub ordered : a.start ≤ a.end_
  pub slots : a.end_ - a.start ≤ big_map_slots * arena_align
  pub addresses : a.end_ ≤ usize_max

-- Whole units inside the reservation.
pub record Extent (a : Arena) (base pages : ℕ) : Type 0 where
  pub from : a.start ≤ base
  pub unit : (base - a.start) % arena_align ≡ 0
  pub some_pages : 1 ≤ pages
  pub to : base + pages * arena_align ≤ a.end_

module _ (a : Arena) (ok : Ready a) where
  pub big_page_range_lem :
      (base pages : ℕ)
      → Extent a base pages
      → big_page_range a base pages ≡ some ((base - a.start) / arena_align)
  unfolding big_page_range range_offset range_last range_index is_ready
  big_page_range_lem base pages e =
      rw ok.live
        (ground (arith, ok.ordered, ok.slots, ok.addresses, e.from, e.unit, e.some_pages, e.to))

  pub big_page_index_lem :
      (p : ℕ) → a.start ≤ p → p < a.end_ → big_page_index a p ≡ some ((p - a.start) / arena_align)
  unfolding big_page_index is_ready
  big_page_index_lem p lo hi = rw ok.live (ground (arith, ok.ordered, ok.slots))
