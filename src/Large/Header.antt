-- ===== src/Large/Header.antt =====
-- src/lib.rs: how large a mapping `alloc_large_ex` asks for, where it puts the block and its
-- header in a region, and how `large_header_of` finds the header again. Memory is seen as the
-- header that each address holds.
use native.Mathlib.Nat.{mod-lt, div-add-mod, mul-mod_right}
use allox.Prelude.{
  subst, ℕ, ◌+◌, ◌-◌, ◌/◌, ◌%◌, ◌^◌, ◌≤◌, ◌<◌, ◌≡◌, ◌||◌, not, Option, none, some, arith, ltb, leb,
  ◌==◌, if◌then◌else◌, checked_add, checked_sub, max, mask_down, usize_max,
}
use allox.Classes.{page_size, min_align}
use allox.Pages.{align_up}

abbrev pub large_header_size : ℕ
large_header_size = 48

abbrev pub large_magic : ℕ
large_magic = 0x00B10C5A6E0FF1CE

pub record LargeHeader : Type 0 where
  pub magic : ℕ
  pub mapped_size : ℕ
  pub base : ℕ
  pub requested_size : ℕ
  pub registry_next : ℕ

abbrev pub Headers : Type 0
Headers = ℕ → LargeHeader

unfoldable pub init_large_header : Headers → ℕ → ℕ → ℕ → ℕ → Headers
init_large_header m hdr base mapped requested address =
    if address == hdr
    then record {
      magic = large_magic;
      mapped_size = mapped;
      base = base;
      requested_size = requested;
      registry_next = 0;
    }
    else m address

unfoldable pub add_or_none : Option ℕ → ℕ → Option ℕ
add_or_none none n = none
add_or_none (some v) n = checked_add v n

unfoldable pub large_total : ℕ → ℕ → ℕ → Option ℕ
large_total size align slack =
    add_or_none (add_or_none (checked_add size align) large_header_size) slack

unfoldable pub whole_pages : Option ℕ → Option ℕ
whole_pages none = none
whole_pages (some v) = some (mask_down v page_size)

unfoldable pub mapped_for : Option ℕ → Option ℕ
mapped_for none = none
mapped_for (some total) = whole_pages (checked_add (max total large_header_size) (page_size - 1))

-- The size of the mapping for a request.
unfoldable pub large_mapped : ℕ → ℕ → ℕ → Option ℕ
large_mapped size align slack = mapped_for (large_total size align slack)

-- `ret` in a region, if the block fits.
unfoldable pub place_large : ℕ → ℕ → ℕ → ℕ → Option ℕ
place_large base region_size size align =
    let ret = align_up (base + large_header_size) align in
    if leb (ret + size) (base + region_size) then some ret else none

unfoldable pub header_at : ℕ → LargeHeader → Option (ℕ × ℕ)
header_at p h =
    let off = (p + 2 ^ 64 - h.base) % 2 ^ 64 in
    if not (h.magic == large_magic)
    then none
    else if ltb h.mapped_size large_header_size || not (h.mapped_size % page_size == 0)
    then none
    else if (off == 0) || leb h.mapped_size off
    then none
    else some (h.base, h.mapped_size)

unfoldable pub header_below : Headers → ℕ → Option ℕ → Option (ℕ × ℕ)
header_below m p none = none
header_below m p (some address) = if address % min_align == 0 then header_at p (m address) else none

unfoldable pub large_header_of : Headers → ℕ → Option (ℕ × ℕ)
large_header_of m p = header_below m p (checked_sub p large_header_size)

mapped_lem :
    (size align slack mapped : ℕ)
    → large_mapped size align slack ≡ some mapped
    → (size + align + large_header_size + slack ≤ mapped)
      × (mapped % page_size ≡ 0)
      × (mapped ≤ usize_max)
      × (mapped < size + align + large_header_size + slack + page_size)
unfolding large_mapped mapped_for whole_pages large_total add_or_none
mapped_lem size align slack mapped e = ground arith

align_up_lem :
    (v align : ℕ)
    → 1 ≤ align
    → (v ≤ align_up v align) × (align_up v align < v + align) × (align_up v align % align ≡ 0)
unfolding align_up
align_up_lem v align pos =
    let w = v + align - 1 in
    let low = mod-lt w {m = align} pos in
    (
      omega (arith, low),
      omega (arith, low),
      subst (λ n. n % align ≡ 0) (omega (arith, div-add-mod w align))
          (mul-mod_right align (w / align)),
    )

-- For an alignment that is not 0 and a request whose mapping has a size, the mapping is whole
-- pages, less than a page more than the parts of the request, and wherever it lies the block fits
-- in it: aligned, behind its header, and with the slack and one byte more behind it.
pub place_large-mapped :
    (size align slack mapped base : ℕ)
    → 1 ≤ align
    → large_mapped size align slack ≡ some mapped
    → (ret : ℕ) × (place_large base mapped size align ≡ some ret)
      × (ret % align ≡ 0)
      × (base + large_header_size ≤ ret)
      × (ret + size + slack < base + mapped)
      × (mapped % page_size ≡ 0)
      × (mapped < size + align + large_header_size + slack + page_size)
unfolding place_large
place_large-mapped size align slack mapped base pos e =
    let (enough, whole, fits, tight) = mapped_lem size align slack mapped e in
    let (above, below, aligned) = align_up_lem (base + large_header_size) align pos in
    (
      align_up (base + large_header_size) align,
      ground (arith, above, below, enough),
      aligned,
      above,
      omega (arith, below, enough),
      whole,
      tight,
    )

-- For a 16-aligned header in a region of whole pages below the end of the address space, behind
-- which the region goes on: the pointer behind the header leads back to the base and size of the
-- region, whatever the memory held before.
pub large_header_of-init :
    (m : Headers) (hdr base mapped requested : ℕ)
    → hdr % min_align ≡ 0
    → base ≤ hdr
    → hdr + large_header_size < base + mapped
    → mapped % page_size ≡ 0
    → base + mapped ≤ usize_max
    → large_header_of (init_large_header m hdr base mapped requested) (hdr + large_header_size)
      ≡ some (base, mapped)
unfolding large_header_of header_below header_at init_large_header
large_header_of-init m hdr base mapped requested aligned from to whole top = ground arith
