-- ===== src/Dispatch/Agree.antt =====
-- src/lib.rs: the dispatch sites choose the same tier, and the tier chosen has room.
use allox.Prelude.{
  ℕ, ◌*◌, ◌≤◌, ◌<◌, ◌≡◌, ◌⊎◌, inl, inr, refl, Bool, true, false, ◌&&◌, some, arith, ltb, leb, ◌==◌,
  get_or, Bool-cases, subst, ap,
}
use allox.Classes.{
  min_align, max_small_size, class_for_size, max_medium_block, medium_class_for_size, classes,
  medium_classes,
}
use allox.Classes.BigTables.{max_big_block, big_class_for_size, big_classes}
use allox.Classes.Small.{class_for_size-tight}
use allox.Classes.Medium.{medium_class_for_size-tight, max_medium_block_value}
use allox.Classes.Big.{big_class_for_size-tight, max_big_block_value}
use allox.Dispatch.{
  Tier, small, medium, big, large, Served, dangling, from, max_packed_block, needs_large,
  alloc_big_or_large, alloc_tiered, alloc_impl, alloc_zeroed_impl, Probe, to, to_big,
  dealloc_tiered, dealloc_with_layout, isize_max, malloc, calloc, calloc_total,
}

-- For every size and alignment `alloc_zeroed_impl` chooses the tier that `alloc_impl` chooses.
pub alloc_zeroed_impl-alloc_impl :
    (big_has : ℕ → Bool) (size align : ℕ)
    → alloc_zeroed_impl big_has size align ≡ alloc_impl big_has size align
unfolding alloc_zeroed_impl alloc_impl alloc_tiered needs_large max_packed_block
alloc_zeroed_impl-alloc_impl big_has size align =
    ground (arith, max_medium_block_value, max_big_block_value)

tier_of : Served → Tier
tier_of (dangling p) = large
tier_of (from t) = t

from_inj : (t u : Tier) → from t ≡ from u → t ≡ u
unfolding tier_of
from_inj t u e = ap tier_of e

-- The branches of `alloc_impl`, each with its tests.
alloc_impl-branches {ℓ} :
    (big_has : ℕ → Bool) (size align : ℕ) (Q : Served → Type ℓ)
    → 1 ≤ size
    → (size ≤ max_small_size → align ≤ min_align → Q (from (small (class_for_size size))))
    → (needs_large size align ≡ true → Q (from large))
    → (max_medium_block < size
        → size ≤ max_big_block
        → align ≤ min_align
        → Q (from (big (big_class_for_size size))))
    → (max_medium_block < size → size ≤ max_big_block → align ≤ min_align → Q (from large))
    → (max_small_size < size
        → size ≤ max_medium_block
        → align ≤ min_align
        → Q (from (medium (medium_class_for_size size))))
    → Q (alloc_impl big_has size align)
unfolding alloc_impl alloc_tiered alloc_big_or_large needs_large max_packed_block
alloc_impl-branches big_has size align Q pos on_small on_large on_big on_no_big on_medium =
    let some_size : (size == 0) ≡ false = ground arith in
    elim (Bool-cases (leb size max_small_size && leb align min_align)) [
      | inl a ↦ rw (some_size, a) (on_small (ground arith) (ground arith))
      | inr a ↦ elim (Bool-cases (needs_large size align)) [
        | inl b ↦ rw (some_size, a, b) (on_large b)
        | inr b ↦ elim (Bool-cases (ltb max_medium_block size)) [
          | inl c ↦ elim (Bool-cases (big_has (big_class_for_size size))) [
            | inl d ↦
                rw (some_size, a, b, c, d) (on_big (ground arith) (ground arith) (ground arith))
            | inr d ↦
                rw (some_size, a, b, c, d) (on_no_big (ground arith) (ground arith) (ground arith))
          ]
          | inr c ↦
              let above : ltb max_small_size size ≡ true = ground arith in
              rw (some_size, a, b, c, above)
                (on_medium (ground arith) (ground arith) (ground arith))
        ]
      ]
    ]

-- The same for a property of the tier that served the request.
alloc_impl-cases {ℓ} :
    (big_has : ℕ → Bool) (size align : ℕ) (P : Tier → Type ℓ) (t : Tier)
    → 1 ≤ size
    → alloc_impl big_has size align ≡ from t
    → (size ≤ max_small_size → align ≤ min_align → P (small (class_for_size size)))
    → (needs_large size align ≡ true → P large)
    → (max_medium_block < size
        → size ≤ max_big_block
        → align ≤ min_align
        → P (big (big_class_for_size size)))
    → (max_medium_block < size → size ≤ max_big_block → align ≤ min_align → P large)
    → (max_small_size < size
        → size ≤ max_medium_block
        → align ≤ min_align
        → P (medium (medium_class_for_size size)))
    → P t
alloc_impl-cases big_has size align P t pos e on_small on_large on_big on_no_big on_medium =
    let served : (u : Tier) → P u → from u ≡ from t → P t = λ u h e'. subst P (from_inj u t e') h in
    alloc_impl-branches big_has size align (λ s. s ≡ from t → P t) pos
      (λ h k. served _ (on_small h k)) (λ h. served _ (on_large h))
      (λ h k l. served _ (on_big h k l)) (λ h k l. served _ (on_no_big h k l))
      (λ h k l. served _ (on_medium h k l)) e

-- What the probes of a pointer say of a block that came from a tier: a packed block of the big
-- tier is in the arena and the table names its master, a large region in the arena has a header
-- in the table.
abbrev pub Recorded : Probe → Tier → Type 0
Recorded q (small c) = true ≡ true
Recorded q (medium c) = true ≡ true
Recorded q (big c) = (q.in_arena ≡ true) × (q.large_header ≡ false) × (q.big_master ≡ some c)
Recorded q large = (q.in_arena ≡ false) ⊎ (q.large_header ≡ true)

-- For a size that is not 0, a free that is given the layout of the allocation, and a pointer that
-- the side table records as what the allocation made it, goes back to the very tier and class
-- that served it.
pub dealloc_with_layout-alloc_impl :
    (big_has : ℕ → Bool) (q : Probe) (size align : ℕ) (t : Tier)
    → 1 ≤ size
    → alloc_impl big_has size align ≡ from t
    → Recorded q t
    → dealloc_with_layout q size align ≡ to t
unfolding dealloc_with_layout alloc_impl alloc_tiered needs_large max_packed_block dealloc_tiered
    alloc_big_or_large to_big
dealloc_with_layout-alloc_impl big_has q size align t pos e r =
    alloc_impl-cases big_has size align
      (λ u. Recorded q u → dealloc_with_layout q size align ≡ to u) t pos e (λ h k r'. ground arith)
      (λ h r'. ground (arith, max_big_block_value))
      (λ h k l r'. ground (arith, max_medium_block_value, max_big_block_value))
      (λ h k l r'. ground (arith, max_medium_block_value, max_big_block_value))
      (λ h k l r'. ground (arith, max_medium_block_value, max_big_block_value)) r

-- A tier has a block of at least `size` bytes at an alignment of at least `align`.
abbrev pub Holds : ℕ → ℕ → Tier → Type 0
Holds size align (small c) = (size ≤ get_or classes c 0) × (align ≤ min_align)
Holds size align (medium c) = (size ≤ get_or medium_classes c 0) × (align ≤ min_align)
Holds size align (big c) = (size ≤ get_or big_classes c 0) × (align ≤ min_align)
Holds size align large = true ≡ true

-- For a size that is not 0, the tier that serves a request, when it is a packed one, has blocks of
-- at least the size, and the alignment asked for is at most the 16 bytes that its blocks have.
pub alloc_impl-Holds :
    (big_has : ℕ → Bool) (size align : ℕ) (t : Tier)
    → 1 ≤ size
    → alloc_impl big_has size align ≡ from t
    → Holds size align t
unfolding alloc_impl alloc_tiered needs_large max_packed_block alloc_big_or_large
alloc_impl-Holds big_has size align t pos e =
    alloc_impl-cases big_has size align (Holds size align) t pos e
      (λ h k. let (lt, fits, least, tight) = class_for_size-tight size pos h in (fits, k))
      (λ h. refl)
      (λ h k l. let (lt, fits, least, tight) = big_class_for_size-tight size h k in (fits, l))
      (λ h k l. refl)
      (λ h k l. let (lt, fits, least, tight) = medium_class_for_size-tight size h k in (fits, l))

-- Whatever pointers the tiers yield: `calloc` returns what `malloc` returns for the product of its
-- arguments, and it is null exactly when the product is 0, or more than `isize::MAX`, or the tier
-- that serves it yields null.
pub calloc_null :
    (big_has : ℕ → Bool) (pointer : Served → ℕ) (nmemb size : ℕ)
    → (calloc big_has pointer nmemb size ≡ malloc big_has pointer (nmemb * size))
      × (calloc big_has pointer nmemb size ≡ 0
          → (nmemb * size ≡ 0)
            ⊎ (isize_max < nmemb * size)
            ⊎ (pointer (alloc_impl big_has (nmemb * size) 1) ≡ 0))
      × ((nmemb * size ≡ 0)
            ⊎ (isize_max < nmemb * size)
            ⊎ (pointer (alloc_impl big_has (nmemb * size) 1) ≡ 0)
          → calloc big_has pointer nmemb size ≡ 0)
unfolding calloc calloc_total malloc
calloc_null big_has pointer nmemb size =
    let same_tier = ap pointer (alloc_zeroed_impl-alloc_impl big_has (nmemb * size) 1) in
    (ground (arith, same_tier), ground (arith, same_tier), ground (arith, same_tier))
