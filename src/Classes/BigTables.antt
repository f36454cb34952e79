-- ===== src/Classes/BigTables.antt =====
-- src/classes.rs: the big tier's table, its lookup table and the span lengths of both span tiers.
use allox.Prelude.{
  ℕ, zero, suc, ◌+◌, ◌-◌, ◌*◌, ◌/◌, ◌%◌, Option, none, some, List, ltb, leb, ◌||◌, ◌==◌,
  if◌then◌else◌, get_or, replicate, tabulate_from,
}
use allox.Classes.{
  min_align, page_size, scan_loop, medium_step, max_medium_block, medium_chunk_reserve,
  target_blocks_per_span, chain_loop, chain_fuel, build_chain_loop,
}

abbrev pub big_master_reserve : ℕ
big_master_reserve = 64

abbrev pub big_block_cap : ℕ
big_block_cap = 1048576

abbrev pub target_blocks_per_big_span : ℕ
target_blocks_per_big_span = 8

unfoldable pub count_big : ℕ
unfolding chain_loop max_medium_block
count_big =
    (chain_loop chain_fuel big_block_cap 0 (medium_step max_medium_block)
      (medium_step max_medium_block)).0

unfoldable pub num_big : ℕ
unfolding chain_loop max_medium_block count_big
num_big =
    let chain =
      chain_loop chain_fuel big_block_cap 0 (medium_step max_medium_block)
        (medium_step max_medium_block) in
    if ltb chain.1 big_block_cap then count_big + 1 else count_big

unfoldable pub big_classes : List ℕ
unfolding num_big build_chain_loop max_medium_block
big_classes =
    build_chain_loop num_big big_block_cap big_block_cap (replicate num_big 0) 0
      (medium_step max_medium_block)

unfoldable pub max_big_block : ℕ
unfolding big_classes num_big
max_big_block = get_or big_classes (num_big - 1) 0

unfoldable pub big_scan : ℕ → ℕ
big_scan size = scan_loop (num_big - 1) big_classes 0 size

abbrev big_lut_len : ℕ
big_lut_len = (max_big_block - max_medium_block) / min_align

unfoldable pub build_big_lut : List ℕ
build_big_lut =
    tabulate_from (λ q. big_scan (max_medium_block + 1 + q * min_align) % 256) 0 (big_lut_len + 1)

unfoldable pub big_class_for_size : ℕ → ℕ
big_class_for_size size =
    if leb size max_medium_block || ltb max_big_block size
    then num_big - 1
    else get_or build_big_lut ((size - max_medium_block - 1) / min_align) 0

-- The blocks of one size that fit a span of `pages` pages behind the master header (arena spans).
unfoldable pub medium_capacity_for : ℕ → ℕ → ℕ
medium_capacity_for block pages =
    if pages == 0 then 0 else (pages * page_size - medium_chunk_reserve) / block

-- The same for a span with a sub-header at the base of every further page.
unfoldable pub medium_capacity_legacy_for : ℕ → ℕ → ℕ
medium_capacity_legacy_for block pages =
    if pages == 0
    then 0
    else (page_size - medium_chunk_reserve) / block + (pages - 1) * ((page_size - 16) / block)

-- `while capacity < TARGET { pages += 1 }` with fuel; `none` means that the fuel ran out.
unfoldable pub span_pages_loop : ℕ → ℕ → ℕ → Option ℕ
span_pages_loop zero block pages = none
span_pages_loop (suc fuel) block pages =
    let more = span_pages_loop fuel block (pages + 1) in
    if ltb (medium_capacity_for block pages) target_blocks_per_span then more else some pages

unfoldable pub span_pages_for : ℕ → Option ℕ
span_pages_for block = span_pages_loop 16 block 1

unfoldable pub big_span_pages_for : ℕ → ℕ
big_span_pages_for block =
    (big_master_reserve + target_blocks_per_big_span * block + 65536 - 1) / 65536
