-- ===== src/Dispatch/Resolve.antt =====
-- src/lib.rs: `dealloc_impl` and `usable_size`, which find out from a bare pointer what owns it.
-- What the registry, the side table and the headers in memory say of the pointer is a record.
use allox.Prelude.{
  ℕ, ◌-◌, ◌≡◌, refl, Bool, true, ◌&&◌, Option, none, some, ltb, ◌==◌, if◌then◌else◌, get_or,
  Bool-cases, inl, inr,
}
use allox.Classes.{classes, medium_classes}
use allox.Classes.BigTables.{big_classes}
use allox.Large.Header.{large_header_size}
use allox.Dispatch.{Tier, small, medium, big, large}

-- A span master found for the pointer: whether it `contains` the pointer, and its class.
pub record Found : Type 0 where
  pub contains : Bool
  pub class : ℕ

-- `page_class` is the class of the page header at the masked address, if the magic is there;
-- `header_ok` is `large_header_of(p).is_some()`; `mapped` and `offset` are those of the region.
pub record Owner : Type 0 where
  pub in_arena : Bool
  pub table_large : Bool
  pub table_medium : Option Found
  pub table_big : Option Found
  pub page_class : Option ℕ
  pub span : Option Found
  pub legacy_known : Bool
  pub header_ok : Bool
  pub mapped : ℕ
  pub offset : ℕ

pub data Release : Type 0 where
  ignored corrupt : Release
  to : Tier → Release

unfoldable pub release_found : (ℕ → Tier) → Option Found → Release → Release
release_found tier none rest = rest
release_found tier (some f) rest = if f.contains then to (tier f.class) else corrupt

-- The last two probes: the page header, then the span.
unfoldable pub release_masked : Option ℕ → Option Found → Release
release_masked (some class) span = to (small class)
release_masked none none = corrupt
release_masked none (some f) = if f.contains then to (medium f.class) else corrupt

unfoldable pub dealloc_impl : ℕ → Owner → Release
dealloc_impl p o =
    let masked = release_masked o.page_class o.span in
    if p == 0
    then ignored
    else if ltb p large_header_size
    then corrupt
    else if o.in_arena
    then (if o.table_large
        then to large
        else release_found medium o.table_medium (release_found big o.table_big masked))
    else if o.legacy_known && o.header_ok
    then to large
    else masked

unfoldable pub size_found : (ℕ → ℕ) → Option Found → ℕ → ℕ
size_found block none rest = rest
size_found block (some f) rest = if f.contains then block f.class else 0

unfoldable pub size_masked : Option ℕ → Option Found → ℕ
size_masked (some class) span = get_or classes class 0
size_masked none none = 0
size_masked none (some f) = if f.contains then get_or medium_classes f.class 0 else 0

unfoldable pub usable_size : ℕ → Owner → ℕ
usable_size p o =
    let masked = size_masked o.page_class o.span in
    if p == 0
    then 0
    else if ltb p large_header_size
    then 0
    else if o.in_arena
    then (if o.table_large
        then o.mapped - o.offset
        else size_found (λ c. get_or medium_classes c 0) o.table_medium
            (size_found (λ c. get_or big_classes c 0) o.table_big masked))
    else if o.legacy_known
    then o.mapped - o.offset
    else masked

-- The bytes behind a pointer of a tier; 0 for a pointer that no tier owns.
unfoldable pub bytes_of : Owner → Release → ℕ
bytes_of o ignored = 0
bytes_of o corrupt = 0
bytes_of o (to (small c)) = get_or classes c 0
bytes_of o (to (medium c)) = get_or medium_classes c 0
bytes_of o (to (big c)) = get_or big_classes c 0
bytes_of o (to large) = o.mapped - o.offset

size_found-release_found :
    (o : Owner) (tier : ℕ → Tier) (block : ℕ → ℕ) (f : Option Found) (rest : Release) (n : ℕ)
    → ((c : ℕ) → block c ≡ bytes_of o (to (tier c)))
    → n ≡ bytes_of o rest
    → size_found block f n ≡ bytes_of o (release_found tier f rest)
unfolding size_found release_found bytes_of
size_found-release_found o tier block none rest n same e = e
size_found-release_found o tier block (some f) rest n same e = elim (Bool-cases (f.contains)) [
  | inl inside ↦ rw inside (same f.class)
  | inr outside ↦ rw outside refl
]

size_masked-release_masked :
    (o : Owner) (class : Option ℕ) (span : Option Found)
    → size_masked class span ≡ bytes_of o (release_masked class span)
unfolding size_masked release_masked bytes_of
size_masked-release_masked o (some class) span = refl
size_masked-release_masked o none none = refl
size_masked-release_masked o none (some f) = elim (Bool-cases (f.contains)) [
  | inl inside ↦ rw inside refl
  | inr outside ↦ rw outside refl
]

-- For every pointer whose header is good if the registry knows it: `usable_size` gives the bytes
-- of the very tier and class to which `dealloc_impl` would release the pointer, and 0 where that
-- ignores the pointer or stops.
pub usable_size-dealloc_impl :
    (p : ℕ) (o : Owner)
    → (o.legacy_known ≡ true → o.header_ok ≡ true)
    → usable_size p o ≡ bytes_of o (dealloc_impl p o)
unfolding usable_size dealloc_impl bytes_of
usable_size-dealloc_impl p o good =
    let masked = size_masked-release_masked o o.page_class o.span in
    let tables =
      size_found-release_found o medium (λ c. get_or medium_classes c 0) o.table_medium
        (release_found big o.table_big (release_masked o.page_class o.span)) _ (λ c. refl)
        (size_found-release_found o big (λ c. get_or big_classes c 0) o.table_big
          (release_masked o.page_class o.span) _ (λ c. refl) masked) in
    elim (Bool-cases (p == 0)) [
      | inl a ↦ rw a refl
      | inr a ↦ elim (Bool-cases (ltb p large_header_size)) [
        | inl b ↦ rw (a, b) refl
        | inr b ↦ elim (Bool-cases o.in_arena) [
          | inl c ↦ elim (Bool-cases o.table_large) [
            | inl d ↦ rw (a, b, c, d) refl
            | inr d ↦ rw (a, b, c, d) tables
          ]
          | inr c ↦ elim (Bool-cases o.legacy_known) [
            | inl d ↦ rw (a, b, c, d, good d) refl
            | inr d ↦ rw (a, b, c, d) masked
          ]
        ]
      ]
    ]
