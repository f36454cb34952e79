-- ===== src/Classes/Small.antt =====
-- src/classes.rs: the small tier. `class_for_size` against the table.
use allox.Prelude.{
  ℕ, ◌+◌, ◌-◌, ◌*◌, ◌/◌, ◌%◌, ◌≤◌, ◌<◌, ◌≡◌, refl, true, arith, ltb, ◌==◌, length, get_or,
  get_or-tabulate, passes_before, passes_before_at,
}
use allox.Classes.{
  classes, class_for_size, class_for_size_scan, build_lut, max_small_size, num_classes, min_align,
}
use allox.Classes.Scan.{IsFirst, scan-IsFirst, IsFirst-unique, IsFirst-round, IsFirst-overhead}

-- The three facts about the generated table that the proofs rest on, checked by evaluation.
aligned_table : passes_before 64 (λ j. get_or classes j 0 % 16 == 0) ≡ true
unfolding classes passes_before
aligned_table = refl

close_table :
    passes_before 63 (λ j. ltb (get_or classes (j + 1) 0) ((get_or classes j 0 + 1) * 9 / 8 + 16))
    ≡ true
unfolding classes passes_before
close_table = refl

classes-length : length classes ≡ 64
unfolding classes
classes-length = refl

classes_first : get_or classes 0 0 ≡ 16
unfolding classes
classes_first = refl

classes_last : get_or classes 63 0 ≡ 16384
unfolding classes
classes_last = refl

pub classes-aligned : (j : ℕ) → j < 64 → get_or classes j 0 % 16 ≡ 0
classes-aligned j h =
    ground (arith, passes_before_at 64 (λ j. get_or classes j 0 % 16 == 0) j aligned_table h)

classes-close : (j : ℕ) → j < 63 → get_or classes (j + 1) 0 < (get_or classes j 0 + 1) * 9 / 8 + 16
classes-close j h = ground (
  arith,
  passes_before_at 63 (λ j. ltb (get_or classes (j + 1) 0) ((get_or classes j 0 + 1) * 9 / 8 + 16))
      j close_table h,
)

pub class_for_size_scan-IsFirst :
    (size : ℕ) → size ≤ max_small_size → IsFirst classes size (class_for_size_scan size)
unfolding class_for_size_scan
class_for_size_scan-IsFirst size h = rw classes-length at (
    scan-IsFirst classes size (omega (arith, classes-length)) (rw (classes-length, classes_last) h))

build_lut-scan : (q : ℕ) → q ≤ 1024 → get_or build_lut q 0 ≡ class_for_size_scan (q * 16) % 256
unfolding build_lut
build_lut-scan q h =
    get_or-tabulate (λ q. class_for_size_scan (q * min_align) % 256) 1025 q 0 (omega arith)

-- The scan at the end of a slot finds the class of every size in the slot.
slot-IsFirst :
    (size q : ℕ)
    → size ≤ q * 16
    → q * 16 < size + 16
    → q ≤ 1024
    → IsFirst classes size (class_for_size_scan (q * 16))
slot-IsFirst size q lo hi h =
    IsFirst-round classes size (class_for_size_scan (q * 16)) q
      (λ j lt. classes-aligned j (omega (arith, classes-length))) lo hi
      (class_for_size_scan-IsFirst (q * 16) (omega arith))

class_for_size_scan-lt : (size : ℕ) → size ≤ max_small_size → class_for_size_scan size < 64
class_for_size_scan-lt size h =
    omega (arith, (class_for_size_scan-IsFirst size h).bound, classes-length)

-- For every small size the table lookup, with its byte entries and its mask, gives exactly the
-- class that the linear scan of the class table gives.
pub class_for_size-scan :
    (size : ℕ) → size ≤ max_small_size → class_for_size size ≡ class_for_size_scan size
unfolding class_for_size
class_for_size-scan size h =
    let q = (size + 16 - 1) / 16 in
    ground (
      arith,
      build_lut-scan q (omega arith),
      class_for_size_scan-lt (q * 16) (omega arith),
      IsFirst-unique classes size (class_for_size_scan (q * 16)) (class_for_size_scan size)
          (slot-IsFirst size q (omega arith) (omega arith) (omega arith))
          (class_for_size_scan-IsFirst size h),
    )

-- For a small size the class found is in the table, its block holds the size, every smaller class
-- is too small, and the block exceeds the size by less than an eighth and 16 bytes.
pub class_for_size-tight :
    (size : ℕ)
    → 1 ≤ size
    → size ≤ max_small_size
    → (class_for_size size < num_classes)
      × (size ≤ get_or classes (class_for_size size) 0)
      × ((j : ℕ) → j < class_for_size size → get_or classes j 0 < size)
      × (get_or classes (class_for_size size) 0 < size * 9 / 8 + 16)
class_for_size-tight size pos h =
    let k = class_for_size_scan size in
    let first = class_for_size_scan-IsFirst size h in
    rw (class_for_size-scan size h) (
      class_for_size_scan-lt size h,
      first.fits,
      first.least,
      IsFirst-overhead classes size k (omega (arith, classes_first))
          (λ j lt. classes-close j (omega (arith, classes-length))) first,
    )

-- A size above the small tier saturates to the last class.
pub class_for_size-large : (size : ℕ) → max_small_size < size → class_for_size size ≡ 63
unfolding class_for_size
class_for_size-large size h = ground arith
