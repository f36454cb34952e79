-- ===== src/Heap/Parking.antt =====
-- src/heap.rs: `park_empty_page` and `link_partial` keep what holds of a class.
use allox.Prelude.{
  occurrences, ℕ, ◌+◌, ◌%◌, ◌≤◌, ◌<◌, ◌≡◌, ◌≢◌, ◌⊎◌, inl, inr, refl, ap, ◌∙◌, subst, Bool, true,
  false, ◌&&◌, List, [], ◌∷◌, ◌++◌, arith, length, same, ltb, leb, ◌==◌, Bool-cases,
}
use allox.Classes.{page_size}
use allox.Large.Store.{Discarded}
use allox.Heap.{
  Filling, link_page, unlink_page, ClassList, empty_page_cache_per_class, max_cold_page_slots,
  max_cold_page_bytes_per_class,
}
use allox.Heap.Class.{idle, PageFate, keep, cold, unmap, park_empty_page}
use allox.Heap.Blocks.{InPage}
use allox.Heap.Loop.{FillOk}
use allox.Heap.Flags.{
  link_page-FillOk, unlink_page-FillOk, link_page_others, unlink_page_others, rested,
}
use allox.Heap.Shelf.{colds, Parked, shelved, ShelfOk, ShelfOk-others}

-- A class between two operations: with no batch of its own.
pub record ClassOk (clean : ℕ → Type 0) (size : ℕ) (sized : 16 ≤ size) (out : List ℕ)
    (l : ClassList) : Type 0 where
  pub fill : FillOk size sized clean out (idle l)
  pub shelf : ShelfOk clean l.pages l.empty l.empty_count l.cold l.cold_bytes

-- Where a page is after its fate has been decided: in the partial list or among the empty ones,
-- among the cold ones, or nowhere.
abbrev pub FateOk : ℕ → ClassList × PageFate → Type 0
FateOk p (l, PageFate.keep) = ((l.pages p).in_partial ≡ true) ⊎ (1 ≤ occurrences p l.empty)
FateOk p (l, PageFate.cold) = 1 ≤ colds p l.cold
FateOk p (l, PageFate.unmap) = Parked l.pages p × (shelved p l.empty l.cold ≡ 0)

-- The class is in order, and the page is where its fate says.
abbrev pub ParkOk :
    (clean : ℕ → Type 0) (size : ℕ) → 16 ≤ size → List ℕ → ℕ → ClassList × PageFate → Type 0
ParkOk clean size sized out p r = ClassOk clean size sized out r.0 × FateOk p r

module _ (size : ℕ) (sized : 16 ≤ size) (clean : ℕ → Type 0) (out : List ℕ) (l : ClassList) where
  -- What a change of flags leaves of the class.
  rested_none :
      (s : Filling)
      → FillOk size sized clean out s
      → s.chain ≡ []
      → FillOk size sized clean out (idle (record l { head = s.head; pages = s.pages }))
  rested_none s ok none_out =
      subst
        (λ xs.
          FillOk size sized clean (xs ++ out) (idle (record l { head = s.head; pages = s.pages })))
        none_out (rested size sized clean out s ok)

  module _ (p : ℕ) (at : p % page_size ≡ 0) (fill : FillOk size sized clean out (idle l))
      (shelf : ShelfOk clean l.pages l.empty l.empty_count l.cold l.cold_bytes)
      (off : shelved p l.empty l.cold ≡ 0) where
    not_shelved : (q : ℕ) → 1 ≤ shelved q l.empty l.cold → q ≢ p
    not_shelved q on e = absurd (omega (arith, ap (λ r. shelved r l.empty l.cold) e))

    pub link_page-ClassOk :
        (l.pages p).in_partial ≡ false
        → (let s = link_page (idle l) p in
            ClassOk clean size sized out (record l { head = s.head; pages = s.pages }))
    link_page-ClassOk unlinked =
        let s = link_page (idle l) p in
        let (others, same_chain) = link_page_others (idle l) p in
        record {
          fill =
              rested_none s (link_page-FillOk size sized clean out (idle l) fill p at unlinked)
                same_chain;
          shelf =
              ShelfOk-others clean l.pages s.pages l.empty l.empty_count l.cold l.cold_bytes
                (λ q on unlinked_q. others q (not_shelved q on)) shelf;
        }

    module _ (purge : Discarded) (unused : (l.pages p).used ≡ 0)
        (zeroed : (park_empty_page purge l p).1 ≡ cold
          → purge.zeroed ≡ true
          → (b : ℕ) → InPage p b
          → clean b) where
      abbrev unlinked : Filling
      unlinked = (unlink_page (idle l) p).0

      unlinked_fill :
          FillOk size sized clean out
            (idle (record l { head = unlinked.head; pages = unlinked.pages }))
      unlinked_fill =
          rested_none unlinked (unlink_page-FillOk size sized clean out (idle l) fill p).0
            (unlink_page_others (idle l) p).2

      unlinked_shelf : ShelfOk clean unlinked.pages l.empty l.empty_count l.cold l.cold_bytes
      unlinked_shelf =
          ShelfOk-others clean l.pages unlinked.pages l.empty l.empty_count l.cold l.cold_bytes
            (λ q on unlinked_q. (unlink_page_others (idle l) p).0 q (not_shelved q on)) shelf

      parked : Parked unlinked.pages p
      parked = record {
        aligned = at;
        unlinked = (unlink_page-FillOk size sized clean out (idle l) fill p).1;
        unused = (unlink_page_others (idle l) p).1 ∙ unused;
      }

      abbrev left : ClassList
      left = record l { head = unlinked.head; pages = unlinked.pages }

      abbrev to_empty : ClassList
      to_empty = record left { empty = p ∷ l.empty; empty_count = l.empty_count + 1 }

      abbrev to_cold : ClassList
      to_cold = record left {
        cold = (record { page = p; zeroed = purge.zeroed; decommitted = purge.physical }) ∷ l.cold;
        cold_bytes = l.cold_bytes + page_size;
      }

      Parked-or_shelved :
          (q : ℕ) → 1 ≤ same q p + shelved q l.empty l.cold → Parked unlinked.pages q
      Parked-or_shelved q on = elim (Bool-cases (p == q)) [
        | inl here ↦ subst (Parked unlinked.pages) (ground arith) parked
        | inr other ↦ unlinked_shelf.parked q (ground arith)
      ]

      to_empty-ClassOk :
          l.empty_count < empty_page_cache_per_class → ClassOk clean size sized out to_empty
      to_empty-ClassOk room = record {
        fill = unlinked_fill;
        shelf = record {
          parked = λ q on. Parked-or_shelved q (omega (arith, on));
          once = λ q. ground (arith, shelf.once q, off);
          wiped = shelf.wiped;
          counted = omega (arith, shelf.counted);
          few = omega (arith, room);
          bytes_counted = shelf.bytes_counted;
          cold_few = shelf.cold_few;
        };
      }

      to_cold-ClassOk :
          length l.cold < max_cold_page_slots
          → (purge.zeroed ≡ true → (b : ℕ) → InPage p b → clean b)
          → ClassOk clean size sized out to_cold
      to_cold-ClassOk room wiped = record {
        fill = unlinked_fill;
        shelf = record {
          parked = λ q on. Parked-or_shelved q (omega (arith, on));
          once = λ q. ground (arith, shelf.once q, off);
          wiped = (wiped, shelf.wiped);
          counted = shelf.counted;
          few = shelf.few;
          bytes_counted = omega (arith, shelf.bytes_counted);
          cold_few = omega (arith, room);
        };
      }

      abbrev cold_room : Bool
      cold_room =
          ltb (length l.cold) max_cold_page_slots
          && leb (l.cold_bytes + page_size) max_cold_page_bytes_per_class

      -- The three ways of parking.
      parking :
          ((l.empty_count < empty_page_cache_per_class)
            × (park_empty_page purge l p ≡ (to_empty, keep)))
          ⊎ ((length l.cold < max_cold_page_slots) × (park_empty_page purge l p ≡ (to_cold, cold)))
          ⊎ (park_empty_page purge l p ≡ (left, unmap))
      unfolding park_empty_page
      parking = elim (Bool-cases (ltb l.empty_count empty_page_cache_per_class)) [
        | inl hot ↦ inl (ground arith, rw hot refl)
        | inr full ↦ elim (Bool-cases cold_room) [
          | inl room ↦ inr (inl (ground arith, rw (full, room) refl))
          | inr none_left ↦ inr (inr (rw (full, none_left) refl))
        ]
      ]

      pub park_empty_page-ParkOk : ParkOk clean size sized out p (park_empty_page purge l p)
      park_empty_page-ParkOk = elim parking [
        | inl (room, e) ↦ rw e (to_empty-ClassOk room, inr (ground arith))
        | inr (inl (room, e)) ↦
            rw e (
              to_cold-ClassOk room (zeroed (ap (λ (r : ClassList × PageFate). r.1) e)),
              ground arith,
            )
        | inr (inr e) ↦
            rw e (record { fill = unlinked_fill; shelf = unlinked_shelf }, (parked, off))
      ]
