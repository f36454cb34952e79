-- ===== src/Dispatch.antt =====
-- src/lib.rs: which tier serves a request and which tier takes a block back. The heaps themselves
-- are not called here: a decision is a value of `Tier`, and whether the big heap had a block is a
-- parameter.
pub mod Agree
pub mod Resolve
mod Tests
use allox.Prelude.{
  ℕ, ◌+◌, ◌-◌, ◌*◌, ◌%◌, ◌^◌, Bool, true, false, ◌&&◌, ◌||◌, not, Option, none, some, ltb, leb,
  ◌==◌, if◌then◌else◌, checked_mul, max,
}
use allox.Classes.{
  min_align, max_small_size, class_for_size, max_medium_block, medium_class_for_size,
}
use allox.Classes.BigTables.{max_big_block, big_class_for_size}

pub data Tier : Type 0 where
  small medium big : ℕ → Tier
  large : Tier

-- What an allocation does: nothing for a zero size, whose pointer is the alignment.
pub data Served : Type 0 where
  dangling : ℕ → Served
  from : Tier → Served

unfoldable pub max_packed_block : ℕ
max_packed_block = max_big_block

unfoldable pub needs_large : ℕ → ℕ → Bool
needs_large size align = ltb min_align align || ltb max_packed_block size

-- `big_has` says whether the big heap has a block of the class.
unfoldable pub alloc_big_or_large : (ℕ → Bool) → ℕ → Tier
alloc_big_or_large big_has bclass = if big_has bclass then big bclass else large

unfoldable pub alloc_tiered : (ℕ → Bool) → ℕ → ℕ → Tier
alloc_tiered big_has size align =
    if needs_large size align
    then large
    else if ltb max_medium_block size
    then alloc_big_or_large big_has (big_class_for_size size)
    else if ltb max_small_size size
    then medium (medium_class_for_size size)
    else small (class_for_size size)

unfoldable pub alloc_impl : (ℕ → Bool) → ℕ → ℕ → Served
alloc_impl big_has size align =
    if size == 0
    then dangling (max align 1)
    else if leb size max_small_size && leb align min_align
    then from (small (class_for_size size))
    else from (alloc_tiered big_has size align)

unfoldable pub alloc_zeroed_impl : (ℕ → Bool) → ℕ → ℕ → Served
alloc_zeroed_impl big_has size align =
    if size == 0
    then dangling (max align 1)
    else if needs_large size align
    then from large
    else if ltb max_medium_block size
    then from (alloc_big_or_large big_has (big_class_for_size size))
    else if ltb max_small_size size
    then from (medium (medium_class_for_size size))
    else from (small (class_for_size size))

-- What the side table and the bounds of the arena say of a pointer.
pub record Probe : Type 0 where
  pub in_arena : Bool
  pub large_header : Bool
  pub big_master : Option ℕ

-- A free goes to a tier, or finds a corrupt pointer and stops.
pub data Freed : Type 0 where
  to : Tier → Freed
  corrupt : Freed

-- A span found in the table frees into its own class.
unfoldable pub to_big : Option ℕ → Freed
to_big none = corrupt
to_big (some bclass) = to (big bclass)

unfoldable pub dealloc_tiered : Probe → ℕ → ℕ → Freed
dealloc_tiered q size align =
    if needs_large size align
    then to large
    else if ltb max_medium_block size
    then (if not q.in_arena
        then to large
        else if q.large_header
        then to large
        else to_big q.big_master)
    else to (medium (medium_class_for_size size))

unfoldable pub dealloc_with_layout : Probe → ℕ → ℕ → Freed
dealloc_with_layout q size align =
    if leb size max_small_size && leb align min_align
    then to (small (class_for_size size))
    else dealloc_tiered q size align

abbrev pub isize_max : ℕ
isize_max = 2 ^ 63 - 1

-- The C entry points. The pointer that an allocation yields is a parameter, null when the tier that
-- serves it is exhausted.
unfoldable pub malloc : (ℕ → Bool) → (Served → ℕ) → ℕ → ℕ
malloc big_has pointer size =
    if size == 0 || ltb isize_max size then 0 else pointer (alloc_impl big_has size 1)

unfoldable pub calloc_total : (ℕ → Bool) → (Served → ℕ) → Option ℕ → ℕ
calloc_total big_has pointer none = 0
calloc_total big_has pointer (some total) =
    if ltb 0 total && leb total isize_max then pointer (alloc_zeroed_impl big_has total 1) else 0

unfoldable pub calloc : (ℕ → Bool) → (Served → ℕ) → ℕ → ℕ → ℕ
calloc big_has pointer nmemb size = calloc_total big_has pointer (checked_mul nmemb size)
