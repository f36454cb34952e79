-- ===== src/Pages.antt =====
-- src/page.rs: the headers at the base of a small page, a medium span and a big span, and the
-- carving of their blocks. Memory is a function from an address to the word there, and a free
-- list is what the source keeps: the address of its first block, whose first word is the address
-- of the next one. The header's own words are the fields of a record.
pub mod Chain
pub mod Carve
pub mod Provision
mod Tests
use allox.Prelude.{
  ℕ, zero, suc, ◌+◌, ◌-◌, ◌*◌, ◌/◌, ◌%◌, ◌^◌, Bool, true, false, ◌&&◌, Option, none, some, ltb, leb,
  ◌==◌, if◌then◌else◌, get_or, min, mask_down,
}
use allox.Regions.{update}
use allox.Classes.{page_size, classes, medium_classes, num_medium}
use allox.Classes.BigTables.{big_classes, num_big}

abbrev pub Memory : Type 0
Memory = ℕ → ℕ

abbrev pub header_size : ℕ
header_size = 48

abbrev pub span_master_size : ℕ
span_master_size = 64

abbrev pub span_sub_size : ℕ
span_sub_size = 16

abbrev pub big_master_size : ℕ
big_master_size = 64

abbrev pub page_magic : ℕ
page_magic = 0xA110CCA7E5A11E5D

abbrev pub span_magic : ℕ
span_magic = 0xA110CCA75EED5A11

abbrev pub span_submagic : ℕ
span_submagic = 0xA110CCA75EED5A12

abbrev pub big_magic : ℕ
big_magic = 0x0A110CCA7B165A13

abbrev pub flag_virgin : ℕ
flag_virgin = 2

-- A memory and the head of a free list in it.
pub record Heads : Type 0 where
  pub memory : Memory
  pub head : ℕ

unfoldable pub push_block : Heads → ℕ → Heads
push_block s b = record { memory = update s.memory b s.head; head = b }

unfoldable pub pop_block : Heads → Heads × Option ℕ
pop_block s = if s.head == 0 then (s, none) else (record s { head = s.memory s.head }, some s.head)

-- `align_up` for a power of two.
unfoldable pub align_up : ℕ → ℕ → ℕ
align_up v align = mask_down (v + align - 1) align

unfoldable pub page_of : ℕ → ℕ
page_of p = mask_down p page_size

pub record PageHeader : Type 0 where
  pub magic : ℕ
  pub prev : ℕ
  pub next : ℕ
  pub free_head : ℕ
  pub free_count : ℕ
  pub used : ℕ
  pub class : ℕ
  pub flags : ℕ
  pub owner : ℕ

unfoldable pub page_init : ℕ → PageHeader
page_init class = record {
  magic = page_magic;
  prev = 0;
  next = 0;
  free_head = 0;
  free_count = 0;
  used = 0;
  class = class % 2 ^ 16;
  flags = flag_virgin;
  owner = 0;
}

unfoldable pub capacity : PageHeader → ℕ
capacity h = (page_size - header_size) / get_or classes h.class 0

-- `for index in (0..count).rev()`: blocks are pushed from the last one down.
unfoldable pub provision_loop : ℕ → ℕ → ℕ → Heads → Heads
provision_loop zero start block_size s = s
provision_loop (suc index) start block_size s =
    provision_loop index start block_size (push_block s (start + index * block_size))

pub record Provisioned : Type 0 where
  pub memory : Memory
  pub header : PageHeader
  pub count : ℕ

-- `self_address` is the address of the page header.
unfoldable pub provision : Memory → ℕ → PageHeader → ℕ → Provisioned
provision memory self_address h most =
    let block_size = get_or classes h.class 0 in
    let materialized = h.used + h.free_count in
    let count = min (capacity h - materialized) most in
    let start = self_address + header_size + materialized * block_size in
    let done =
      provision_loop count start block_size (record { memory = memory; head = h.free_head }) in
    if count == 0 then record { memory = memory; header = h; count = 0 } else record {
      memory = done.memory;
      header = record h {
        free_head = done.head;
        free_count = (h.free_count + count % 2 ^ 16) % 2 ^ 16;
      };
      count = count;
    }

-- The state of a carving loop: the free list so far and the blocks counted.
pub record Carved : Type 0 where
  pub heads : Heads
  pub count : ℕ

unfoldable pub carve_block : Carved → ℕ → Carved
carve_block s b = record { heads = push_block s.heads b; count = s.count + 1 }

-- `while b + block_size <= end`, with fuel.
unfoldable pub carve_loop : ℕ → ℕ → ℕ → ℕ → Carved → Carved
carve_loop zero block_size end b s = s
carve_loop (suc fuel) block_size end b s =
    let rest = carve_loop fuel block_size end (b + block_size) (carve_block s b) in
    if leb (b + block_size) end then rest else s

unfoldable pub carve : ℕ → ℕ → ℕ → Carved → Carved
carve block_size start end s = carve_loop (end - start) block_size end start s

-- `while i < npages`: the sub-headers, from unit `i` on.
unfoldable pub sub_headers : ℕ → ℕ → ℕ → Memory → Memory
sub_headers zero base i memory = memory
sub_headers (suc rounds) base i memory =
    let sub = base + i * page_size in
    sub_headers rounds base (i + 1) (update (update memory sub span_submagic) (sub + 8) base)

-- `while page < npages`: the blocks of each unit, from unit `page` on.
unfoldable pub carve_units : ℕ → ℕ → ℕ → ℕ → Carved → Carved
carve_units zero block_size base page s = s
carve_units (suc rounds) block_size base page s =
    let chunk = base + page * page_size in
    let start = if page == 0 then chunk + span_master_size else chunk + span_sub_size in
    carve_units rounds block_size base (page + 1) (carve block_size start (chunk + page_size) s)

-- `SpanMaster`, and `BigMaster` with `bclass` for `mclass`.
pub record SpanMaster : Type 0 where
  pub magic : ℕ
  pub prev : ℕ
  pub next : ℕ
  pub free_head : ℕ
  pub free_count : ℕ
  pub used : ℕ
  pub class : ℕ
  pub flags : ℕ
  pub npages : ℕ
  pub owner : ℕ

abbrev pub Span : Type 0
Span = Memory × SpanMaster

unfoldable pub span_init : Memory → ℕ → ℕ → ℕ → Bool → Span
span_init memory base mclass npages arena_owned =
    let block_size = get_or medium_classes mclass 0 in
    let empty : Memory → Carved =
      λ m. record { heads = record { memory = m; head = 0 }; count = 0 } in
    let done =
      if arena_owned
      then carve block_size (base + span_master_size) (base + npages * page_size) (empty memory)
      else carve_units npages block_size base 0 (empty (sub_headers (npages - 1) base 1 memory)) in
    (
      done.heads.memory,
      record {
        magic = span_magic;
        prev = 0;
        next = 0;
        free_head = done.heads.head;
        free_count = done.count;
        used = 0;
        class = mclass % 2 ^ 16;
        flags = flag_virgin;
        npages = npages;
        owner = 0;
      },
    )

unfoldable pub big_init : Memory → ℕ → ℕ → ℕ → Span
big_init memory base bclass npages =
    let block_size = get_or big_classes bclass 0 in
    let done =
      carve block_size (base + big_master_size) (base + npages * page_size)
        (record { heads = record { memory = memory; head = 0 }; count = 0 }) in
    (
      done.heads.memory,
      record {
        magic = big_magic;
        prev = 0;
        next = 0;
        free_head = done.heads.head;
        free_count = done.count;
        used = 0;
        class = bclass % 2 ^ 16;
        flags = flag_virgin;
        npages = npages;
        owner = 0;
      },
    )

unfoldable pub mapped_bytes : SpanMaster → ℕ
mapped_bytes s = s.npages * page_size

-- `contains` of a span at `self_address`, with the magic and the class count of its tier.
unfoldable pub span_contains : ℕ → ℕ → ℕ → SpanMaster → ℕ → Bool
span_contains magic count self_address s p =
    (s.magic == magic)
    && ltb s.class count
    && ltb 0 s.npages
    && ltb self_address p
    && ltb p (self_address + mapped_bytes s)
