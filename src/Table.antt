-- ===== src/Table.antt =====
-- src/arena.rs: the page-indexed side table `BIG_MAP`, which says for each 64 KiB unit of the
-- reservation which big span, medium span or large header owns it. A pointer is its address, null
-- is 0, and the table is a function of the slot. A release build is modelled, in which a write
-- outside the reservation does nothing (a debug build stops there).
pub mod Fill
pub mod Lookup
mod Tests
use allox.Prelude.{
  ℕ, zero, suc, ◌+◌, ◌-◌, ◌*◌, ◌/◌, ◌%◌, Bool, ◌||◌, not, Option, none, some, ltb, leb, ◌==◌,
  if◌then◌else◌, checked_add, checked_mul, checked_sub,
}
use allox.Regions.{update}
use allox.Arena.{Arena, arena_align, is_ready}

abbrev pub arena_size : ℕ
arena_size = 16 * 1024 * 1024 * 1024

abbrev pub big_map_slots : ℕ
big_map_slots = arena_size / arena_align

abbrev pub Table : Type 0
Table = ℕ → ℕ

unfoldable pub big_page_index : Arena → ℕ → Option ℕ
big_page_index a p =
    let idx = (p - a.start) / arena_align in
    if not (is_ready a.state)
    then none
    else if ltb p a.start || leb a.end_ p
    then none
    else if leb big_map_slots idx
    then none
    else some idx

unfoldable pub range_index : Arena → ℕ → ℕ → Option ℕ → Option ℕ
range_index a pages offset none = none
range_index a pages offset (some last) =
    let idx = offset / arena_align in
    if leb (a.end_ - a.start) last
    then none
    else if leb big_map_slots idx || ltb (big_map_slots - idx) pages
    then none
    else some idx

unfoldable pub range_last : Arena → ℕ → ℕ → Option ℕ → Option ℕ
range_last a pages offset none = none
range_last a pages offset (some span) = range_index a pages offset (checked_add offset span)

unfoldable pub range_offset : Arena → ℕ → Option ℕ → Option ℕ
range_offset a pages none = none
range_offset a pages (some offset) = range_last a pages offset (checked_mul (pages - 1) arena_align)

unfoldable pub big_page_range : Arena → ℕ → ℕ → Option ℕ
big_page_range a base pages =
    if pages == 0 || not (is_ready a.state)
    then none
    else range_offset a pages (checked_sub base a.start)

-- `for i in 0..pages { BIG_MAP[start + i].store(value) }`, from slot `i` on.
unfoldable pub fill_loop : ℕ → Table → ℕ → ℕ → Table
fill_loop zero t i value = t
fill_loop (suc rounds) t i value = fill_loop rounds (update t i value) (i + 1) value

unfoldable pub fill_range : Table → ℕ → ℕ → Option ℕ → Table
fill_range t pages value none = t
fill_range t pages value (some start) = fill_loop pages t start value

-- `x | 1` and `x | 2`
abbrev pub tag_large : ℕ → ℕ
tag_large x = x - x % 2 + 1

abbrev pub tag_medium : ℕ → ℕ
tag_medium x = x - x / 2 % 2 * 2 + 2

unfoldable pub big_table_set : Arena → Table → ℕ → ℕ → ℕ → Table
big_table_set a t base pages master = fill_range t pages master (big_page_range a base pages)

unfoldable pub large_table_set : Arena → Table → ℕ → ℕ → ℕ → Table
large_table_set a t base pages header =
    fill_range t pages (tag_large header) (big_page_range a base pages)

unfoldable pub medium_table_set : Arena → Table → ℕ → ℕ → ℕ → Table
medium_table_set a t base pages master =
    fill_range t pages (tag_medium master) (big_page_range a base pages)

-- `big_table_clear`, `large_table_clear` and `medium_table_clear`, which are the same code.
unfoldable pub table_clear : Arena → Table → ℕ → ℕ → Table
table_clear a t base pages = fill_range t pages 0 (big_page_range a base pages)

-- What a slot's word says to each of the three readers.
unfoldable pub as_big : ℕ → ℕ
as_big raw = if raw % 4 == 0 then raw else 0

unfoldable pub as_large : ℕ → ℕ
as_large raw = if raw % 2 == 0 then 0 else raw - raw % 2

unfoldable pub as_medium : ℕ → ℕ
as_medium raw = if raw / 2 % 2 == 0 then 0 else raw - raw / 2 % 2 * 2

abbrev pub read_slot : (ℕ → ℕ) → Table → Option ℕ → ℕ
read_slot decode t none = 0
read_slot decode t (some idx) = decode (t idx)

unfoldable pub big_table_get : Arena → Table → ℕ → ℕ
unfolding as_big
big_table_get a t p = read_slot as_big t (big_page_index a p)

unfoldable pub large_table_get : Arena → Table → ℕ → ℕ
unfolding as_large
large_table_get a t p = read_slot as_large t (big_page_index a p)

unfoldable pub medium_table_get : Arena → Table → ℕ → ℕ
unfolding as_medium
medium_table_get a t p = read_slot as_medium t (big_page_index a p)
