-- ===== src/Dispatch/Tests.antt =====
-- src/lib.rs: concrete requests.
use allox.Prelude.{inr, ℕ, ◌*◌, ◌<◌, ◌≡◌, ◌⊎◌, refl, Bool, true, false, none, some, arith}
use allox.Classes.{class_for_size}
use allox.Dispatch.{
  medium, big, Served, dangling, malloc, small, large, from, alloc_impl, alloc_tiered, needs_large,
  alloc_zeroed_impl, Probe, to, dealloc_with_layout, isize_max, calloc,
}
use allox.Dispatch.Resolve.{Owner, usable_size, bytes_of, dealloc_impl, usable_size-dealloc_impl}
use allox.Dispatch.Agree.{
  alloc_zeroed_impl-alloc_impl, dealloc_with_layout-alloc_impl, Holds, alloc_impl-Holds,
  calloc_null,
}

abbrev always : ℕ → Bool
always bclass = true

abbrev demo_probe : Probe
demo_probe = record { in_arena = true; large_header = true; big_master = none }

demo_alloc : alloc_impl always 100 64 ≡ from large
unfolding alloc_impl alloc_tiered needs_large
demo_alloc = refl

dealloc_with_layout-alloc_impl_example : dealloc_with_layout demo_probe 100 64 ≡ to large
dealloc_with_layout-alloc_impl_example =
    dealloc_with_layout-alloc_impl always demo_probe 100 64 large (omega arith) demo_alloc
      (inr refl)

demo_small : alloc_impl always 100 8 ≡ from (small (class_for_size 100))
unfolding alloc_impl
demo_small = refl

alloc_impl-Holds_example : Holds 100 8 (small (class_for_size 100))
alloc_impl-Holds_example =
    alloc_impl-Holds always 100 8 (small (class_for_size 100)) (omega arith) demo_small

alloc_zeroed_impl-alloc_impl_example :
    alloc_zeroed_impl always 70000 16 ≡ alloc_impl always 70000 16
alloc_zeroed_impl-alloc_impl_example = alloc_zeroed_impl-alloc_impl always 70000 16

-- Only the small tier has memory.
abbrev small_only : Served → ℕ
small_only (dangling p) = p
small_only (from (small c)) = 65600
small_only (from (medium c)) = 0
small_only (from (big c)) = 0
small_only (from large) = 0

calloc_null_example :
    (calloc always small_only 2 20000 ≡ malloc always small_only (2 * 20000))
    × (calloc always small_only 2 20000 ≡ 0
        → (2 * 20000 ≡ 0)
          ⊎ (isize_max < 2 * 20000)
          ⊎ (small_only (alloc_impl always (2 * 20000) 1) ≡ 0))
    × ((2 * 20000 ≡ 0)
          ⊎ (isize_max < 2 * 20000)
          ⊎ (small_only (alloc_impl always (2 * 20000) 1) ≡ 0)
        → calloc always small_only 2 20000 ≡ 0)
calloc_null_example = calloc_null always small_only 2 20000

-- A pointer into a page of class 3 of the arena.
abbrev demo_owner : Owner
demo_owner = record {
  in_arena = true;
  table_large = false;
  table_medium = none;
  table_big = none;
  page_class = some 3;
  span = none;
  legacy_known = false;
  header_ok = false;
  mapped = 0;
  offset = 0;
}

usable_size-dealloc_impl_example :
    usable_size 131200 demo_owner ≡ bytes_of demo_owner (dealloc_impl 131200 demo_owner)
usable_size-dealloc_impl_example = usable_size-dealloc_impl 131200 demo_owner (λ e. e)
