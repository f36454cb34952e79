-- ===== src/Classes/Tests.antt =====
-- src/classes.rs: concrete sizes.
use allox.Prelude.{ℕ, ◌+◌, ◌-◌, ◌*◌, ◌/◌, ◌≤◌, ◌<◌, ◌≡◌, some, arith, get_or}
use allox.Classes.{
  num_classes, classes, class_for_size, class_for_size_scan, num_medium, medium_classes,
  medium_class_for_size, medium_scan, target_blocks_per_span, page_size,
}
use allox.Classes.BigTables.{
  num_big, big_classes, big_class_for_size, big_scan, medium_capacity_for, span_pages_for,
  big_span_pages_for, big_master_reserve, target_blocks_per_big_span,
}
use allox.Classes.Small.{class_for_size-scan, class_for_size-tight}
use allox.Classes.Medium.{
  medium_class_for_size-scan, medium_class_for_size-tight, max_medium_block_value,
}
use allox.Classes.Big.{big_class_for_size-scan, big_class_for_size-tight, max_big_block_value}
use allox.Classes.Spans.{span_pages_for-least, big_span_pages_for-least}

class_for_size-scan_example : class_for_size 100 ≡ class_for_size_scan 100
class_for_size-scan_example = class_for_size-scan 100 (omega arith)

class_for_size-tight_example :
    (class_for_size 100 < num_classes)
    × (100 ≤ get_or classes (class_for_size 100) 0)
    × ((j : ℕ) → j < class_for_size 100 → get_or classes j 0 < 100)
    × (get_or classes (class_for_size 100) 0 < 100 * 9 / 8 + 16)
class_for_size-tight_example = class_for_size-tight 100 (omega arith) (omega arith)

medium_class_for_size-scan_example : medium_class_for_size 20000 ≡ medium_scan 20000
medium_class_for_size-scan_example =
    medium_class_for_size-scan 20000 (omega arith) (omega (arith, max_medium_block_value))

medium_class_for_size-tight_example :
    (medium_class_for_size 20000 < num_medium)
    × (20000 ≤ get_or medium_classes (medium_class_for_size 20000) 0)
    × ((j : ℕ) → j < medium_class_for_size 20000 → get_or medium_classes j 0 < 20000)
    × (get_or medium_classes (medium_class_for_size 20000) 0 < 20000 * 9 / 8 + 16)
medium_class_for_size-tight_example =
    medium_class_for_size-tight 20000 (omega arith) (omega (arith, max_medium_block_value))

big_class_for_size-scan_example : big_class_for_size 100000 ≡ big_scan 100000
big_class_for_size-scan_example =
    big_class_for_size-scan 100000 (omega (arith, max_medium_block_value))
      (omega (arith, max_big_block_value))

big_class_for_size-tight_example :
    (big_class_for_size 100000 < num_big)
    × (100000 ≤ get_or big_classes (big_class_for_size 100000) 0)
    × ((j : ℕ) → j < big_class_for_size 100000 → get_or big_classes j 0 < 100000)
    × (get_or big_classes (big_class_for_size 100000) 0 < 100000 * 9 / 8 + 16)
big_class_for_size-tight_example =
    big_class_for_size-tight 100000 (omega (arith, max_medium_block_value))
      (omega (arith, max_big_block_value))

span_pages_for-least_example :
    (p : ℕ) × (span_pages_for 18432 ≡ some p)
    × (1 ≤ p)
    × (p ≤ 8)
    × (target_blocks_per_span ≤ medium_capacity_for 18432 p)
    × ((k : ℕ) → k < p → medium_capacity_for 18432 k < target_blocks_per_span)
span_pages_for-least_example = span_pages_for-least 18432 (omega arith) (omega arith)

big_span_pages_for-least_example :
    let p = big_span_pages_for 73664 in
    (big_master_reserve + target_blocks_per_big_span * 73664 ≤ p * page_size)
    × (1 ≤ p)
    × ((p - 1) * page_size < big_master_reserve + target_blocks_per_big_span * 73664)
big_span_pages_for-least_example = big_span_pages_for-least 73664
