-- ===== src/Classes/Big.antt =====
-- src/classes.rs: the big tier. `big_class_for_size` against the table.
use allox.Prelude.{
  ℕ, ◌+◌, ◌-◌, ◌*◌, ◌/◌, ◌%◌, ◌≤◌, ◌<◌, ◌≡◌, refl, true, arith, ltb, ◌==◌, length, get_or,
  get_or-tabulate, passes_before, passes_before_at,
}
use allox.Classes.Scan.{IsFirst, scan-IsFirst, IsFirst-unique, IsFirst-slot, IsFirst-overhead}
use allox.Classes.{min_align, max_medium_block}
use allox.Classes.BigTables.{
  num_big, big_classes, max_big_block, big_scan, build_big_lut, big_class_for_size,
}
use allox.Classes.Medium.{max_medium_block_value}

big_aligned_table : passes_before 24 (λ j. get_or big_classes j 0 % 16 == 0) ≡ true
unfolding big_classes passes_before
big_aligned_table = refl

big_close_table :
    passes_before 23
      (λ j. ltb (get_or big_classes (j + 1) 0) ((get_or big_classes j 0 + 1) * 9 / 8 + 16))
    ≡ true
unfolding big_classes passes_before
big_close_table = refl

big_grows_table :
    passes_before 23 (λ j. ltb (get_or big_classes j 0) (get_or big_classes (j + 1) 0)) ≡ true
unfolding big_classes passes_before
big_grows_table = refl

pub num_big_value : num_big ≡ 24
unfolding num_big
num_big_value = refl

pub big_classes-length : length big_classes ≡ 24
unfolding big_classes
big_classes-length = refl

pub big_classes_first : get_or big_classes 0 0 ≡ 73664
unfolding big_classes
big_classes_first = refl

big_classes_last : get_or big_classes 23 0 ≡ 1048576
unfolding big_classes
big_classes_last = refl

pub max_big_block_value : max_big_block ≡ 1048576
unfolding max_big_block
max_big_block_value = refl

pub big_classes-aligned : (j : ℕ) → j < 24 → get_or big_classes j 0 % 16 ≡ 0
big_classes-aligned j h =
    ground
      (arith, passes_before_at 24 (λ j. get_or big_classes j 0 % 16 == 0) j big_aligned_table h)

big_classes-close :
    (j : ℕ) → j < 23 → get_or big_classes (j + 1) 0 < (get_or big_classes j 0 + 1) * 9 / 8 + 16
big_classes-close j h = ground (
  arith,
  passes_before_at 23
      (λ j. ltb (get_or big_classes (j + 1) 0) ((get_or big_classes j 0 + 1) * 9 / 8 + 16)) j
      big_close_table h,
)

pub big_scan-IsFirst : (size : ℕ) → size ≤ max_big_block → IsFirst big_classes size (big_scan size)
unfolding big_scan
big_scan-IsFirst size h = rw num_big_value (
    rw big_classes-length at (
      scan-IsFirst big_classes size (omega (arith, big_classes-length))
        (rw (big_classes-length, big_classes_last) (omega (arith, max_big_block_value)))))

big_scan-lt : (size : ℕ) → size ≤ max_big_block → big_scan size < 24
big_scan-lt size h = omega (arith, (big_scan-IsFirst size h).bound, big_classes-length)

build_big_lut-scan :
    (q : ℕ) → q ≤ 61444 → get_or build_big_lut q 0 ≡ big_scan (65472 + 1 + q * 16) % 256
unfolding build_big_lut
build_big_lut-scan q h =
    rw (max_big_block_value, max_medium_block_value)
      (get_or-tabulate (λ q. big_scan (65472 + 1 + q * min_align) % 256) 61445 q 0 (omega arith))

-- For every size of the big tier the table lookup gives the class that the linear scan gives.
pub big_class_for_size-scan :
    (size : ℕ)
    → max_medium_block < size
    → size ≤ max_big_block
    → big_class_for_size size ≡ big_scan size
unfolding big_class_for_size
big_class_for_size-scan size lo hi =
    let q = (size - 65472 - 1) / 16 in
    let slot = 65472 + 1 + q * 16 in
    let cap = max_big_block_value in
    let floor = max_medium_block_value in
    let first =
      IsFirst-slot big_classes size (big_scan slot) slot
        (λ j lt. big_classes-aligned j (omega (arith, big_classes-length))) (omega arith)
        (omega arith) (omega arith) (big_scan-IsFirst slot (omega arith)) in
    ground (
      arith,
      build_big_lut-scan q (omega arith),
      big_scan-lt slot (omega arith),
      IsFirst-unique big_classes size (big_scan slot) (big_scan size) first
          (big_scan-IsFirst size hi),
    )

-- For a size of the big tier the class found is in the table, its block holds the size, every
-- smaller class is too small, and the block exceeds the size by less than an eighth and 16 bytes.
pub big_class_for_size-tight :
    (size : ℕ)
    → max_medium_block < size
    → size ≤ max_big_block
    → (big_class_for_size size < num_big)
      × (size ≤ get_or big_classes (big_class_for_size size) 0)
      × ((j : ℕ) → j < big_class_for_size size → get_or big_classes j 0 < size)
      × (get_or big_classes (big_class_for_size size) 0 < size * 9 / 8 + 16)
big_class_for_size-tight size lo hi =
    let k = big_scan size in
    let first = big_scan-IsFirst size hi in
    rw (big_class_for_size-scan size lo hi) (
      omega (arith, big_scan-lt size hi, num_big_value),
      first.fits,
      first.least,
      IsFirst-overhead big_classes size k (omega (arith, big_classes_first, max_medium_block_value))
          (λ j lt. big_classes-close j (omega (arith, big_classes-length))) first,
    )
