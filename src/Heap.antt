-- ===== src/Heap.antt =====
-- src/heap.rs: one size class of the small heap, `ListHead`, under its lock. A page's free list is
-- the list of its blocks, the head first, and a linked list of pages is the list of their addresses;
-- Links has its pointers. `pages` gives the header at an address. A flag is a Boolean field.
-- `size` is the block size of the class. What a purge reports is a parameter, and what the mapping
-- of a fresh page yields. The counters of mappings are left out.
pub mod Class
pub mod Links
pub mod Link
pub mod Unlink
pub mod Blocks
pub mod Fill
pub mod Loop
pub mod Park
pub mod Shelf
pub mod Flags
pub mod Parking
pub mod Take
pub mod Release
pub mod Steps
pub mod Owned
mod Tests
use allox.Prelude.{
  ℕ, zero, suc, ◌+◌, ◌-◌, ◌*◌, ◌/◌, ◌%◌, ◌^◌, Bool, true, false, ◌&&◌, ◌||◌, not, Option, none,
  some, List, [], ◌∷◌, ◌++◌, ltb, leb, ◌==◌, if◌then◌else◌, length, min,
}
use allox.Classes.{page_size}
use allox.Pages.{header_size}
use allox.Large.Store.{Discarded}

abbrev pub refill_batch : ℕ
refill_batch = 64

abbrev pub empty_page_cache_per_class : ℕ
empty_page_cache_per_class = 4

abbrev pub max_cold_page_slots : ℕ
max_cold_page_slots = 256

abbrev pub max_cold_page_bytes_per_class : ℕ
max_cold_page_bytes_per_class = 16 * 1024 * 1024

-- `u16` arithmetic
abbrev pub add16 : ℕ → ℕ → ℕ
add16 a b = (a + b) % 2 ^ 16

abbrev pub sub16 : ℕ → ℕ → ℕ
sub16 a b = (a + 2 ^ 16 - b) % 2 ^ 16

pub record Page : Type 0 where
  pub free : List ℕ
  pub free_count : ℕ
  pub used : ℕ
  pub in_partial : Bool
  pub virgin : Bool
  pub needs_reinit : Bool

-- `PageHeader::init`
abbrev pub fresh_page : Page
fresh_page = record {
  free = [];
  free_count = 0;
  used = 0;
  in_partial = false;
  virgin = true;
  needs_reinit = false;
}

abbrev pub Store : Type 0
Store = ℕ → Page

abbrev pub put : Store → ℕ → Page → Store
put pages p page q = if q == p then page else pages q

unfoldable pub page_capacity : ℕ → ℕ
page_capacity size = (page_size - header_size) / size

-- The blocks `start`, `start + size`, …, `n` of them, in front of a free list.
unfoldable pub laid : ℕ → ℕ → ℕ → List ℕ → List ℕ
laid zero size start rest = rest
laid (suc n) size start rest = laid n size start ((start + n * size) ∷ rest)

-- `PageHeader::provision` of the page at `p`
unfoldable pub provision_page : ℕ → ℕ → Page → ℕ → Page × ℕ
provision_page size p page most =
    let made = page.used + page.free_count in
    let count = min (page_capacity size - made) most in
    (
      record page {
        free = laid count size (p + header_size + made * size) page.free;
        free_count = add16 page.free_count count;
      },
      count,
    )

-- The arguments that `fill_from_list` changes, with the pages.
pub record Filling : Type 0 where
  pub head : List ℕ
  pub pages : Store
  pub chain : List ℕ
  pub count : ℕ
  pub virgin : Bool

-- An unlink takes the one link to `p` out of the list.
abbrev pub without : ℕ → List ℕ → List ℕ
without p [] = []
without p (q ∷ qs) = if q == p then qs else q ∷ without p qs

-- The second part says whether the page was linked.
unfoldable pub unlink_page : Filling → ℕ → Filling × Bool
unlink_page s p =
    let page = s.pages p in
    if page.in_partial
    then (
      record s {
        head = without p s.head;
        pages = put s.pages p (record page { in_partial = false });
      },
      true,
    )
    else (s, false)

unfoldable pub link_page : Filling → ℕ → Filling
link_page s p = record s {
  head = p ∷ s.head;
  pages = put s.pages p (record (s.pages p) { in_partial = true });
}

-- One round of the inner loop; the second part says whether it goes on. The cases are those of
-- `pop_block`.
unfoldable pub fill_pop : ℕ → ℕ → Filling → List ℕ → Filling × Bool
fill_pop size p s [] =
    let page = s.pages p in
    let (made, got) = provision_page size p page (refill_batch - s.count) in
    if ltb (page.used + page.free_count) (page_capacity size)
    then (if got == 0
        then ((unlink_page s p).0, false)
        else (record s { pages = put s.pages p made }, true))
    else ((unlink_page s p).0, false)
fill_pop size p s (b ∷ rest) =
    let page = s.pages p in
    let left = record page {
      free = rest;
      free_count = sub16 page.free_count 1;
      used = add16 page.used 1;
    } in
    let moved = record s { pages = put s.pages p left; chain = b ∷ s.chain; count = s.count + 1 } in
    if left.free_count == 0 && leb (page_capacity size) (left.used + left.free_count)
    then ((unlink_page moved p).0, false)
    else (moved, true)

unfoldable pub fill_round : ℕ → ℕ → Filling → Filling × Bool
fill_round size p s =
    if leb refill_batch s.count then (s, false) else fill_pop size p s (s.pages p).free

unfoldable pub fill_page : ℕ → ℕ → ℕ → Filling → Filling
fill_page zero size p s = s
fill_page (suc fuel) size p s =
    let (next, more) = fill_round size p s in
    elim more [ true ↦ fill_page fuel size p next | false ↦ next ]

-- Every block moved takes at most one round that provisions before it.
abbrev pub page_rounds : ℕ
page_rounds = 2 * refill_batch + 2

abbrev pub is_head : ℕ → List ℕ → Bool
is_head p [] = false
is_head p (q ∷ qs) = q == p

-- One round of the outer loop on the first page; the second part says whether it goes on.
unfoldable pub fill_first : ℕ → Filling → List ℕ → Filling × Bool
fill_first size s [] = (s, false)
fill_first size s (p ∷ ps) =
    let marked = record s { virgin = if (s.pages p).virgin then s.virgin else false } in
    let after = fill_page page_rounds size p marked in
    if after.count == s.count && is_head p after.head then unlink_page after p else (after, true)

unfoldable pub fill_while : ℕ → ℕ → Filling → Filling
fill_while zero size s = s
fill_while (suc fuel) size s =
    let (next, more) = fill_first size s s.head in
    elim (ltb s.count refill_batch) [
      | false ↦ s
      | true ↦ elim more [ true ↦ fill_while fuel size next | false ↦ next ]
    ]

unfoldable pub fill_from_list : ℕ → Filling → Filling
fill_from_list size s = fill_while (length s.head + 1) size s

-- An entry of the three `cold` arrays.
pub record ColdPage : Type 0 where
  pub page : ℕ
  pub zeroed : Bool
  pub decommitted : Bool

-- `cold` has the entries below `cold_len`, the last one first.
pub record ClassList : Type 0 where
  pub head : List ℕ
  pub pages : Store
  pub empty : List ℕ
  pub empty_count : ℕ
  pub cold : List ColdPage
  pub cold_bytes : ℕ

-- Addresses without a page have no blocks.
abbrev pub no_page : ℕ → Page
no_page p = record fresh_page { virgin = false }

unfoldable pub new_class_list : ClassList
new_class_list = record {
  head = [];
  pages = no_page;
  empty = [];
  empty_count = 0;
  cold = [];
  cold_bytes = 0;
}
