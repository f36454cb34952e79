-- ===== src/Table/Tests.antt =====
-- src/arena.rs: a side table with one span.
use allox.Prelude.{◌+◌, ◌*◌, refl, inr, [], arith}
use allox.Arena.{Arena, ready, arena_align, is_ready}
use allox.Table.{
  Table, big_table_set, large_table_set, medium_table_set, table_clear, big_table_get,
  large_table_get, medium_table_get, big_page_index, as_big, as_large, as_medium,
}
use allox.Table.Fill.{Ready, Extent}
use allox.Table.Lookup.{Answers, set-get, clear-get, set-elsewhere}

abbrev demo_arena : Arena
demo_arena = record {
  state = ready;
  start = 65536;
  end_ = 65536 + 8 * arena_align;
  bump = 4 * arena_align;
  holes = record { bytes = 0; entries = []; exact = λ k. 65535 };
  hole_count = 0;
  commits = 0;
  reuses = 0;
  abandoned = 0;
  size = 8 * arena_align;
}

demo_arena-Ready : Ready demo_arena
demo_arena-Ready = record {
  live = refl;
  ordered = omega arith;
  slots = omega arith;
  addresses = omega arith;
}

demo-Extent : Extent demo_arena 131072 2
demo-Extent = record { from = omega arith; unit = refl; some_pages = omega arith; to = omega arith }

abbrev demo_table : Table
demo_table slot = 0

set-get_example :
    Answers demo_arena (big_table_set demo_arena demo_table 131072 2 131072) 200000 131072 0 0
    × Answers demo_arena (large_table_set demo_arena demo_table 131072 2 131072) 200000 0 131072 0
    × Answers demo_arena (medium_table_set demo_arena demo_table 131072 2 131072) 200000 0 0 131072
set-get_example =
    set-get demo_arena demo_arena-Ready demo_table 131072 2 demo-Extent 131072 200000 refl
      (record { from = omega arith; to = omega arith })

clear-get_example : Answers demo_arena (table_clear demo_arena demo_table 131072 2) 200000 0 0 0
clear-get_example =
    clear-get demo_arena demo_arena-Ready demo_table 131072 2 demo-Extent 200000
      (record { from = omega arith; to = omega arith })

demo_before : Answers demo_arena demo_table 300000 0 0 0
unfolding big_table_get large_table_get medium_table_get big_page_index is_ready as_big as_large
    as_medium
demo_before = record { big = refl; large = refl; medium = refl }

set-elsewhere_example :
    Answers demo_arena (big_table_set demo_arena demo_table 131072 2 131072) 300000 0 0 0
    × Answers demo_arena (large_table_set demo_arena demo_table 131072 2 131072) 300000 0 0 0
    × Answers demo_arena (medium_table_set demo_arena demo_table 131072 2 131072) 300000 0 0 0
    × Answers demo_arena (table_clear demo_arena demo_table 131072 2) 300000 0 0 0
set-elsewhere_example =
    set-elsewhere demo_arena demo_arena-Ready demo_table 131072 2 demo-Extent 131072 300000 0 0 0
      (omega arith) (omega arith) (inr (omega arith)) demo_before
