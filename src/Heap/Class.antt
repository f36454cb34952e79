-- ===== src/Heap/Class.antt =====
-- src/heap.rs: `take_blocks`, `release_inner`, `park_empty_page` and `retire_page_inner` of one
-- size class. The locked part of `take_blocks` and the part after a mapping are two functions, as
-- the lock is taken twice.
use allox.Prelude.{
  ℕ, ◌+◌, ◌-◌, Bool, true, false, ◌&&◌, Option, none, some, List, [], ◌∷◌, ◌++◌, ltb, leb, ◌==◌,
  if◌then◌else◌, length,
}
use allox.Classes.{page_size}
use allox.Large.Store.{Discarded}
use allox.Heap.{
  Page, fresh_page, put, Filling, unlink_page, link_page, fill_from_list, ColdPage, ClassList,
  add16, sub16, empty_page_cache_per_class, max_cold_page_slots, max_cold_page_bytes_per_class,
}

-- `take_blocks` at work: the list under the lock, and its local variables in `fill`.
pub record Taking : Type 0 where
  pub fill : Filling
  pub empty : List ℕ
  pub empty_count : ℕ
  pub cold : List ColdPage
  pub cold_bytes : ℕ

unfoldable pub lock : ClassList → List ℕ → ℕ → Bool → Taking
lock l chain count virgin = record {
  fill = record { head = l.head; pages = l.pages; chain = chain; count = count; virgin = virgin };
  empty = l.empty;
  empty_count = l.empty_count;
  cold = l.cold;
  cold_bytes = l.cold_bytes;
}

unfoldable pub unlock : Taking → ClassList
unlock t = record {
  head = t.fill.head;
  pages = t.fill.pages;
  empty = t.empty;
  empty_count = t.empty_count;
  cold = t.cold;
  cold_bytes = t.cold_bytes;
}

-- A list under the lock, with no batch.
abbrev pub idle : ClassList → Filling
idle l = record { head = l.head; pages = l.pages; chain = []; count = 0; virgin = false }

-- A page goes to the front of the partial list with the header given, and is filled from.
unfoldable pub fill_with : ℕ → Filling → ℕ → Page → Bool → Filling
fill_with size s p page virgin =
    fill_from_list size (link_page (record s { pages = put s.pages p page; virgin = virgin }) p)

abbrev pub dirty_page : Page
dirty_page = record fresh_page { virgin = false }

unfoldable pub take_empty : ℕ → Taking → List ℕ → Taking
take_empty size t [] = t
take_empty size t (p ∷ rest) =
    let page = t.fill.pages p in
    record t {
      fill =
          if page.needs_reinit
          then fill_with size (t.fill) p dirty_page false
          else fill_with size (t.fill) p page (if page.virgin then t.fill.virgin else false);
      empty = rest;
      empty_count = t.empty_count - 1;
    }

unfoldable pub take_cold : ℕ → Taking → List ColdPage → Taking
take_cold size t [] = t
take_cold size t (c ∷ rest) = record t {
  fill =
      if c.zeroed
      then fill_with size (t.fill) c.page fresh_page true
      else fill_with size (t.fill) c.page dirty_page false;
  cold = rest;
  cold_bytes = t.cold_bytes - page_size;
}

abbrev pub if_none : Taking → Taking → Taking
if_none t next = if t.fill.count == 0 then next else t

unfoldable pub take_locked : ℕ → ClassList → Taking
take_locked size l =
    let start = lock l [] 0 true in
    let filled = record start { fill = fill_from_list size (start.fill) } in
    let refilled = if_none filled (take_empty size filled filled.empty) in
    if_none refilled (take_cold size refilled refilled.cold)

-- What `map_heap_pages(1)` yields is `mapped`.
unfoldable pub take_mapped : ℕ → Taking → Option ℕ → Taking
take_mapped size t none = record t { fill = record (t.fill) { virgin = false } }
take_mapped size t (some raw) = record t {
  fill = fill_with size (t.fill) raw fresh_page t.fill.virgin;
}

unfoldable pub take_blocks : ℕ → ClassList → Option ℕ → Taking
take_blocks size l mapped = let t = take_locked size l in if_none t (take_mapped size t mapped)

pub data PageFate : Type 0 where
  keep cold unmap : PageFate

-- `cold` and the entry beside it, the last first.
unfoldable pub park_empty_page : Discarded → ClassList → ℕ → ClassList × PageFate
park_empty_page purge l p =
    let s = (unlink_page (idle l) p).0 in
    let unlinked = record l { head = s.head; pages = s.pages } in
    if ltb l.empty_count empty_page_cache_per_class
    then (record unlinked { empty = p ∷ l.empty; empty_count = l.empty_count + 1 }, keep)
    else if ltb (length l.cold) max_cold_page_slots
        && leb (l.cold_bytes + page_size) max_cold_page_bytes_per_class
    then (
      record unlinked {
        cold = (record { page = p; zeroed = purge.zeroed; decommitted = purge.physical }) ∷ l.cold;
        cold_bytes = l.cold_bytes + page_size;
      },
      cold,
    )
    else (unlinked, unmap)

-- `head..=tail` is the list `freed`, and `n` its length.
unfoldable pub release_inner : Discarded → ClassList → ℕ → List ℕ → ClassList × PageFate
release_inner purge l p freed =
    let page = l.pages p in
    let back = record page {
      virgin = false;
      free = freed ++ page.free;
      free_count = add16 page.free_count (length freed);
      used = sub16 page.used (length freed);
    } in
    let returned = record l { pages = put l.pages p back } in
    if back.used == 0
    then park_empty_page purge returned p
    else if page.in_partial
    then (returned, keep)
    else (let s = link_page (idle returned) p in
        (record returned { head = s.head; pages = s.pages }, keep))

unfoldable pub retire_page_inner : Discarded → ClassList → ℕ → ClassList × PageFate
retire_page_inner purge l p =
    park_empty_page purge
      (record l {
        pages = put l.pages p (record (l.pages p) {
          virgin = false;
          needs_reinit = true;
          free = [];
          free_count = 0;
          used = 0;
        });
      })
      p

-- `release_many` on one chunk: all blocks of a page in use retire it.
unfoldable pub release_chunk : Discarded → ClassList → ℕ → List ℕ → ClassList × PageFate
release_chunk purge l p freed =
    if length freed == (l.pages p).used
    then retire_page_inner purge l p
    else release_inner purge l p freed
