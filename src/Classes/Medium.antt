-- ===== src/Classes/Medium.antt =====
-- src/classes.rs: the medium tier. `medium_class_for_size` against the table.
use allox.Prelude.{
  ℕ, ◌+◌, ◌-◌, ◌*◌, ◌/◌, ◌%◌, ◌≤◌, ◌<◌, ◌≡◌, refl, true, arith, ltb, ◌==◌, length, get_or,
  get_or-tabulate, passes_before, passes_before_at,
}
use allox.Classes.Scan.{IsFirst, scan-IsFirst, IsFirst-unique, IsFirst-slot, IsFirst-overhead}
use allox.Classes.{
  max_small_size, min_align, num_medium, medium_classes, max_medium_block, medium_scan,
  build_medium_lut, medium_class_for_size,
}

medium_aligned_table : passes_before 12 (λ j. get_or medium_classes j 0 % 16 == 0) ≡ true
unfolding medium_classes passes_before
medium_aligned_table = refl

medium_close_table :
    passes_before 11
      (λ j. ltb (get_or medium_classes (j + 1) 0) ((get_or medium_classes j 0 + 1) * 9 / 8 + 16))
    ≡ true
unfolding medium_classes passes_before
medium_close_table = refl

medium_grows_table :
    passes_before 11 (λ j. ltb (get_or medium_classes j 0) (get_or medium_classes (j + 1) 0)) ≡ true
unfolding medium_classes passes_before
medium_grows_table = refl

pub num_medium_value : num_medium ≡ 12
unfolding num_medium
num_medium_value = refl

pub medium_classes-length : length medium_classes ≡ 12
unfolding medium_classes
medium_classes-length = refl

pub medium_classes_first : get_or medium_classes 0 0 ≡ 18432
unfolding medium_classes
medium_classes_first = refl

medium_classes_last : get_or medium_classes 11 0 ≡ 65472
unfolding medium_classes
medium_classes_last = refl

pub max_medium_block_value : max_medium_block ≡ 65472
unfolding max_medium_block
max_medium_block_value = refl

pub medium_classes-aligned : (j : ℕ) → j < 12 → get_or medium_classes j 0 % 16 ≡ 0
medium_classes-aligned j h =
    ground (
      arith,
      passes_before_at 12 (λ j. get_or medium_classes j 0 % 16 == 0) j medium_aligned_table h,
    )

medium_classes-close :
    (j : ℕ)
    → j < 11
    → get_or medium_classes (j + 1) 0 < (get_or medium_classes j 0 + 1) * 9 / 8 + 16
medium_classes-close j h = ground (
  arith,
  passes_before_at 11
      (λ j. ltb (get_or medium_classes (j + 1) 0) ((get_or medium_classes j 0 + 1) * 9 / 8 + 16)) j
      medium_close_table h,
)

pub medium_scan-IsFirst :
    (size : ℕ) → size ≤ max_medium_block → IsFirst medium_classes size (medium_scan size)
unfolding medium_scan
medium_scan-IsFirst size h = rw num_medium_value (
    rw medium_classes-length at (
      scan-IsFirst medium_classes size (omega (arith, medium_classes-length))
        (rw (medium_classes-length, medium_classes_last) (omega (arith, max_medium_block_value)))))

medium_scan-lt : (size : ℕ) → size ≤ max_medium_block → medium_scan size < 12
medium_scan-lt size h = omega (arith, (medium_scan-IsFirst size h).bound, medium_classes-length)

build_medium_lut-scan :
    (q : ℕ) → q ≤ 3068 → get_or build_medium_lut q 0 ≡ medium_scan (16384 + 1 + q * 16) % 256
unfolding build_medium_lut
build_medium_lut-scan q h = rw max_medium_block_value (
    get_or-tabulate (λ q. medium_scan (max_small_size + 1 + q * min_align) % 256) 3069 q 0
      (omega arith))

-- For every size of the medium tier the table lookup gives the class that the linear scan gives.
pub medium_class_for_size-scan :
    (size : ℕ)
    → max_small_size < size
    → size ≤ max_medium_block
    → medium_class_for_size size ≡ medium_scan size
unfolding medium_class_for_size
medium_class_for_size-scan size lo hi =
    let q = (size - 16384 - 1) / 16 in
    let slot = 16384 + 1 + q * 16 in
    let cap = max_medium_block_value in
    let first =
      IsFirst-slot medium_classes size (medium_scan slot) slot
        (λ j lt. medium_classes-aligned j (omega (arith, medium_classes-length))) (omega arith)
        (omega arith) (omega arith) (medium_scan-IsFirst slot (omega arith)) in
    ground (
      arith,
      build_medium_lut-scan q (omega arith),
      medium_scan-lt slot (omega arith),
      IsFirst-unique medium_classes size (medium_scan slot) (medium_scan size) first
          (medium_scan-IsFirst size hi),
    )

-- For a size of the medium tier the class found is in the table, its block holds the size, every
-- smaller class is too small, and the block exceeds the size by less than an eighth and 16 bytes.
pub medium_class_for_size-tight :
    (size : ℕ)
    → max_small_size < size
    → size ≤ max_medium_block
    → (medium_class_for_size size < num_medium)
      × (size ≤ get_or medium_classes (medium_class_for_size size) 0)
      × ((j : ℕ) → j < medium_class_for_size size → get_or medium_classes j 0 < size)
      × (get_or medium_classes (medium_class_for_size size) 0 < size * 9 / 8 + 16)
medium_class_for_size-tight size lo hi =
    let k = medium_scan size in
    let first = medium_scan-IsFirst size hi in
    rw (medium_class_for_size-scan size lo hi) (
      omega (arith, medium_scan-lt size hi, num_medium_value),
      first.fits,
      first.least,
      IsFirst-overhead medium_classes size k (omega (arith, medium_classes_first))
          (λ j lt. medium_classes-close j (omega (arith, medium_classes-length))) first,
    )
