-- ===== src/Heap/Tests.antt =====
-- src/heap.rs: a class of blocks of 8192 bytes, of which one page is mapped and a block comes back.
use mathlib.Core.List.Perm
use allox.Prelude.{
  ◌⊎◌, ℕ, ◌+◌, ◌≤◌, ◌≡◌, refl, true, false, ◌==◌, if◌then◌else◌, Option, none, some, [], ◌∷◌, arith,
  occurrences,
}
use allox.Large.Store.{Discarded}
use allox.Heap.{
  new_class_list, fill_from_list, fill_while, fill_first, fill_page, fill_round, fill_pop,
  provision_page, page_capacity, laid, link_page, unlink_page, Filling, fresh_page,
}
use allox.Heap.Links.{PageLinks, Represents, unlink_partial}
use allox.Heap.Unlink.{unlink_page-Represents}
use allox.Heap.Class.{
  take_cold, take_empty, fill_with, lock, unlock, take_mapped, take_locked, take_blocks,
  release_inner, release_chunk,
}
use allox.Heap.Fill.{held}
use allox.Heap.Steps.{
  Returning, Shared, start, taken, zeroed_page, Foreign, Reach, here, next, map_page,
}
use allox.Heap.Shelf.{Parked, shelved}
use allox.Heap.Class.{take_empty, take_cold}
use allox.Heap.Owned.{
  after_map, Settled, BatchOk, out_once, take_locked_batch, take_blocks_batch, release-Settled,
}

abbrev purge : Discarded
purge = record { physical = true; zeroed = true }

abbrev mapped_page : Shared
mapped_page =
    record (taken 8192 start (take_mapped 8192 (lock new_class_list [] 0 true) (some 65536))) {
      released = zeroed_page 65536 start.released;
    }

none_parked : Foreign 8192 start 65536
unfolding new_class_list
none_parked = (record { aligned = refl; unlinked = refl; unused = refl }, refl)

mapped : Reach 8192 mapped_page
mapped = next here (map_page start true 65536 none_parked)

seven_out : mapped_page.out ≡ 114736 ∷ 106544 ∷ 98352 ∷ 90160 ∷ 81968 ∷ 73776 ∷ 65584 ∷ []
unfolding take_mapped lock new_class_list fill_with fill_from_list fill_while fill_first fill_page
    fill_round fill_pop provision_page page_capacity laid link_page unlink_page
seven_out = refl

out_once_example :
    (occurrences 65584 (mapped_page.list.pages 65536).free + occurrences 65584 mapped_page.out ≤ 1)
    × ((mapped_page.list.pages 65536).used ≡ held 65536 mapped_page.out)
out_once_example =
    out_once 8192 (omega arith) (omega arith) mapped_page mapped 65536 65584 refl (omega arith)

take_locked_batch_example :
    (let t = take_locked 8192 mapped_page.list in
      BatchOk mapped_page.released t
      × ((1 ≤ t.fill.count) ⊎ ((t.fill.head ≡ []) × (t.empty ≡ []) × (t.cold ≡ []))))
take_locked_batch_example = take_locked_batch 8192 (omega arith) (omega arith) mapped_page mapped

abbrev next_mapped : Option ℕ
next_mapped = some 131072

-- The class has no page left, and the kernel gives the one behind.
next_page :
    Parked (take_locked 8192 mapped_page.list).fill.pages 131072
    × (shelved 131072
          (take_locked 8192 mapped_page.list).empty
          (take_locked 8192 mapped_page.list).cold
        ≡ 0)
unfolding take_locked take_empty take_cold unlock take_mapped lock new_class_list fill_with
    fill_from_list fill_while fill_first fill_page fill_round fill_pop provision_page page_capacity
    laid link_page unlink_page
next_page = (record { aligned = refl; unlinked = refl; unused = refl }, refl)

take_blocks_batch_example :
    (let t = take_blocks 8192 mapped_page.list next_mapped in
      BatchOk (after_map mapped_page.released next_mapped) t
      × ((1 ≤ t.fill.count) ⊎ (next_mapped ≡ none)))
take_blocks_batch_example =
    take_blocks_batch 8192 (omega arith) (omega arith) mapped_page mapped next_mapped next_page

all_back : Returning 8192 mapped_page 65536 mapped_page.out []
unfolding take_locked take_empty take_cold unlock take_mapped lock new_class_list fill_with
    fill_from_list fill_while fill_first fill_page fill_round fill_pop provision_page page_capacity
    laid link_page unlink_page
all_back = (refl, omega arith, omega arith, Perm.refl _)

release-Settled_example :
    Settled 65536 [] (release_inner purge mapped_page.list 65536 mapped_page.out)
    × Settled 65536 [] (release_chunk purge mapped_page.list 65536 mapped_page.out)
release-Settled_example =
    release-Settled 8192 (omega arith) (omega arith) mapped_page mapped purge 65536 mapped_page.out
      [] all_back

-- Three pages in the partial list, and their pointers.
abbrev three_pages : Filling
three_pages = record {
  head = 65536 ∷ 131072 ∷ 196608 ∷ [];
  pages = λ p. record fresh_page { in_partial = true };
  chain = [];
  count = 0;
  virgin = false;
}

abbrev three_links : PageLinks
three_links = record {
  head = 65536;
  prev = λ p. if p == 131072 then 65536 else if p == 196608 then 131072 else 0;
  next = λ p. if p == 65536 then 131072 else if p == 131072 then 196608 else 0;
}

three_links-Represents : Represents three_links three_pages.head
three_links-Represents = (
  (refl, omega arith, refl, (refl, omega arith, refl, (refl, omega arith, refl, refl))),
  λ q. ground arith,
)

unlink_page-Represents_example :
    Represents (unlink_partial three_links 131072) (unlink_page three_pages 131072).0.head
unlink_page-Represents_example =
    unlink_page-Represents three_links three_pages 131072 three_links-Represents refl (omega arith)
