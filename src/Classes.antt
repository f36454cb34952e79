-- ===== src/Classes.antt =====
-- src/classes.rs: the size-class tables of the small, medium and big tiers, the lookup tables
-- that are built from them at compile time, and the span lengths. The target is 64-bit unix with
-- `std`, the one that has all three tiers.
pub mod Scan
pub mod Small
pub mod Medium
pub mod Big
pub mod BigTables
pub mod Spans
mod Tests
use allox.Prelude.{
  ℕ, zero, suc, ◌+◌, ◌-◌, ◌*◌, ◌/◌, ◌%◌, Option, none, some, List, ltb, leb, ◌||◌, if◌then◌else◌,
  get_or, set, replicate, tabulate_from, mask_down, Bool,
}

abbrev pub min_align : ℕ
min_align = 16

abbrev pub max_small_size : ℕ
max_small_size = 16 * 1024

abbrev pub num_classes : ℕ
num_classes = 64

abbrev pub page_size : ℕ
page_size = 65536

-- `while i < NUM_CLASSES` with the rounds left in front.
build_classes_loop : ℕ → List ℕ → ℕ → ℕ → List ℕ
build_classes_loop zero table i size = table
build_classes_loop (suc rounds) table i size =
    let filled = set table i size in
    let grown = mask_down ((size * 9 + 7) / 8 + 15) 16 in
    let rest =
      build_classes_loop rounds filled (i + 1)
        (if ltb max_small_size grown then max_small_size else grown) in
    if leb max_small_size size then filled else rest

unfoldable pub build_classes : List ℕ
unfolding build_classes_loop
build_classes = build_classes_loop num_classes (replicate num_classes max_small_size) 0 min_align

unfoldable pub classes : List ℕ
unfolding build_classes
classes = build_classes

-- The loop of the three scans: the first of the `rounds` entries from `i` on that fits, else the
-- entry behind them.
unfoldable pub scan_loop : ℕ → List ℕ → ℕ → ℕ → ℕ
scan_loop zero table i size = i
scan_loop (suc rounds) table i size =
    let rest = scan_loop rounds table (i + 1) size in
    if leb size (get_or table i 0) then i else rest

unfoldable pub class_for_size_scan : ℕ → ℕ
class_for_size_scan size = scan_loop (num_classes - 1) classes 0 size

-- `q` runs from 0 to the last slot, and an entry is stored as a byte.
unfoldable pub build_lut : List ℕ
build_lut =
    tabulate_from (λ q. class_for_size_scan (q * min_align) % 256) 0
      (max_small_size / min_align + 1)

unfoldable pub class_for_size : ℕ → ℕ
class_for_size size =
    if leb size max_small_size
    then get_or build_lut ((size + min_align - 1) / min_align) 0 % num_classes
    else num_classes - 1

abbrev pub medium_chunk_reserve : ℕ
medium_chunk_reserve = 64

abbrev pub medium_block_cap : ℕ
medium_block_cap = 65536 - medium_chunk_reserve

abbrev pub target_blocks_per_span : ℕ
target_blocks_per_span = 8

unfoldable pub medium_step : ℕ → ℕ
medium_step size = mask_down ((size * 9 + 7) / 8 + 15) 16

-- The geometric chain below a cap, with fuel for the `while` loops that walk it: the number of
-- steps and the last value that is not above the cap.
unfoldable pub chain_loop : ℕ → ℕ → ℕ → ℕ → ℕ → ℕ × ℕ
unfolding medium_step
chain_loop zero cap n last size = (n, last)
chain_loop (suc fuel) cap n last size =
    let next = medium_step size in
    let rest = chain_loop fuel cap (n + 1) size next in
    if ltb cap size then (n, last) else if leb next size then (n + 1, size) else rest

abbrev pub chain_fuel : ℕ
chain_fuel = 64

unfoldable pub count_medium : ℕ
unfolding chain_loop
count_medium =
    (chain_loop chain_fuel medium_block_cap 0 (medium_step max_small_size)
      (medium_step max_small_size)).0

unfoldable pub geo_last_medium : ℕ
unfolding chain_loop
geo_last_medium =
    (chain_loop chain_fuel medium_block_cap 0 (medium_step max_small_size)
      (medium_step max_small_size)).1

abbrev pub top_medium_block : ℕ
top_medium_block = 65536 - medium_chunk_reserve

unfoldable pub num_medium : ℕ
unfolding count_medium geo_last_medium
num_medium = if ltb geo_last_medium top_medium_block then count_medium + 1 else count_medium

-- The table loop of `build_medium` and `build_big`: the chain up to the cap, then the explicit
-- top class in the slot where the chain stopped.
unfoldable pub build_chain_loop : ℕ → ℕ → ℕ → List ℕ → ℕ → ℕ → List ℕ
unfolding medium_step
build_chain_loop zero cap top table i size = table
build_chain_loop (suc rounds) cap top table i size =
    let rest = build_chain_loop rounds cap top (set table i size) (i + 1) (medium_step size) in
    if leb size cap then rest else set table i top

unfoldable pub medium_classes : List ℕ
unfolding num_medium build_chain_loop
medium_classes =
    build_chain_loop num_medium medium_block_cap top_medium_block (replicate num_medium 0) 0
      (medium_step max_small_size)

unfoldable pub max_medium_block : ℕ
unfolding medium_classes num_medium
max_medium_block = get_or medium_classes (num_medium - 1) 0

unfoldable pub medium_scan : ℕ → ℕ
medium_scan size = scan_loop (num_medium - 1) medium_classes 0 size

abbrev medium_lut_len : ℕ
medium_lut_len = (max_medium_block - max_small_size) / min_align

unfoldable pub build_medium_lut : List ℕ
build_medium_lut =
    tabulate_from (λ q. medium_scan (max_small_size + 1 + q * min_align) % 256) 0
      (medium_lut_len + 1)

unfoldable pub medium_class_for_size : ℕ → ℕ
medium_class_for_size size =
    if leb size max_small_size || ltb max_medium_block size
    then num_medium - 1
    else get_or build_medium_lut ((size - max_small_size - 1) / min_align) 0
