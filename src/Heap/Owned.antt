-- ===== src/Heap/Owned.antt =====
-- src/heap.rs: what holds of a size class after any schedule of takes and releases.
use allox.Prelude.{
  ◌==◌, Bool-cases, ◌⊎◌, inl, inr, ℕ, ◌+◌, ◌-◌, ◌%◌, ◌≤◌, ◌≡◌, refl, Bool, true, Option, none, some,
  List, [], arith, length, All, occurrences,
}
use allox.Classes.{page_size}
use allox.Pages.{header_size}
use allox.Pages.Chain.{Avoids}
use allox.Large.Store.{Discarded}
use allox.Heap.{false, ClassList, refill_batch}
use allox.Heap.Class.{
  PageFate, release_inner, Taking, take_locked, take_mapped, take_blocks, release_chunk,
}
use allox.Heap.Blocks.{InPage, laid_once}
use allox.Heap.Fill.{held}
use allox.Heap.Park.{unlinked-Avoids}
use allox.Heap.Shelf.{Parked, shelved, colds, AllSome}
use allox.Heap.Take.{TakingOk, take_locked-TakingOk, take_mapped-TakingOk, if_none_lem}
use allox.Heap.Parking.{ParkOk}
use allox.Heap.Steps.{
  Shared, Clean, Returning, Reach, Reach-SharedOk, lock-TakingOk, TakingOk-clean, zeroed_page,
  after_release, release-ParkOk, release_group-ParkOk,
}

-- A batch: as many blocks as counted and not more than the batch size, and it is not called virgin
-- unless none of them has been released since its page was zero.
abbrev pub BatchOk : (ℕ → Bool) → Taking → Type 0
BatchOk released t =
    (t.fill.count ≤ refill_batch)
    × (length t.fill.chain ≡ t.fill.count)
    × ((t.fill.virgin ≡ false) ⊎ All (Clean released) t.fill.chain)

-- The page that is mapped is zero.
abbrev pub after_map : (ℕ → Bool) → Option ℕ → ℕ → Bool
after_map released none = released
after_map released (some p) = zeroed_page p released

-- Where a page is after a release, by the fate that the release gives it: kept, it is in the
-- partial list or among the empty pages; cold, it is among the cold ones; to be unmapped, none of
-- its blocks is out, and the class has it in no list.
abbrev pub Settled : ℕ → List ℕ → ClassList × PageFate → Type 0
Settled p out (l, PageFate.keep) = (1 ≤ occurrences p l.head) ⊎ (1 ≤ occurrences p l.empty)
Settled p out (l, PageFate.cold) = 1 ≤ colds p l.cold
Settled p out (l, PageFate.unmap) =
    (held p out ≡ 0) × Avoids p l.head × (shelved p l.empty l.cold ≡ 0)

module _ (size : ℕ) (sized : 16 ≤ size) (roomy : size ≤ page_size - header_size) (s : Shared)
    (reached : Reach size s) where
  -- After any schedule of takes, mappings and releases by any number of threads: a block of a page
  -- is out at most once, and not while it is in the free list of the page; and the page counts as
  -- used exactly its blocks that are out.
  pub out_once :
      (p x : ℕ)
      → p % page_size ≡ 0
      → InPage p x
      → (occurrences x (s.list.pages p).free + occurrences x s.out ≤ 1)
        × ((s.list.pages p).used ≡ held p s.out)
  out_once p x at i =
      let ok = Reach-SharedOk size sized roomy reached in
      let h = s.list.pages p in
      (
        omega (
          arith,
          ok.fill.balance p x at i,
          laid_once x (h.used + h.free_count) size (p + header_size) (omega arith),
        ),
        omega (arith, ok.fill.used p at),
      )

  batch :
      (released : ℕ → Bool) (t : Taking)
      → TakingOk (Clean released) size sized s.out t
      → BatchOk released t
  batch released t ok = (
    ok.fill.chain.batch,
    ok.fill.chain.counted,
    elim (Bool-cases t.fill.virgin) [
      | inl virgin ↦ inr (ok.fill.chain.cleaned virgin)
      | inr dirty ↦ inl dirty
    ],
  )

  -- After any schedule: what `take_blocks` takes under its first lock is a batch: as many blocks as
  -- counted and at most 64, and not called virgin unless none of them has been released since its
  -- page was zero. There is a block in it, or the class is left with no partial, empty or cold page.
  pub take_locked_batch :
      (let t = take_locked size s.list in
        BatchOk s.released t
        × ((1 ≤ t.fill.count) ⊎ ((t.fill.head ≡ []) × (t.empty ≡ []) × (t.cold ≡ []))))
  take_locked_batch =
      let (ok, left) = take_locked-TakingOk (Clean s.released) size sized s.out roomy s.list (
        lock-TakingOk size sized (Clean s.released) s.out s.list true
          (Reach-SharedOk size sized roomy reached)) in
      (
        batch s.released (take_locked size s.list) ok,
        elim (Bool-cases ((take_locked size s.list).fill.count == 0)) [
          | inl none_left ↦ inr (left (ground arith))
          | inr some_left ↦ inl (ground arith)
        ],
      )

  mapped-Clean :
      (mapped : Option ℕ) (t : Taking)
      → TakingOk (Clean s.released) size sized s.out t
      → TakingOk (Clean (after_map s.released mapped)) size sized s.out t
  mapped-Clean none t ok = ok
  mapped-Clean (some p) t ok =
      TakingOk-clean size sized (Clean s.released) (Clean (zeroed_page p s.released)) s.out
        (λ b h. ground arith) t ok

  from_kernel :
      (mapped : Option ℕ) (t : Taking)
      → t.fill.count ≡ 0
      → TakingOk (Clean s.released) size sized s.out t
      → AllSome (λ p. Parked t.fill.pages p × (shelved p t.empty t.cold ≡ 0)) mapped
      → BatchOk (after_map s.released mapped) (take_mapped size t mapped)
        × ((1 ≤ (take_mapped size t mapped).fill.count) ⊎ (mapped ≡ none))
  from_kernel none t few ok foreign = (
    batch s.released (take_mapped size t none)
        (take_mapped-TakingOk (Clean s.released) size sized s.out roomy t few ok none tt).0,
    inr refl,
  )
  from_kernel (some p) t few ok (parked, off) =
      let (done, gain) =
        take_mapped-TakingOk (Clean (zeroed_page p s.released)) size sized s.out roomy t few
          (mapped-Clean (some p) t ok) (some p) (parked, off, λ b i. ground arith) in
      (batch (zeroed_page p s.released) (take_mapped size t (some p)) done, inl gain)

  -- After any schedule, with nothing between its two locks and a page from the kernel, if any, that
  -- the class does not have and that is zero: `take_blocks` gives a batch (at most 64 blocks, as many
  -- as counted, not called virgin unless none has been released since its page was zero), and there
  -- is a block in it unless the kernel refused a page.
  pub take_blocks_batch :
      (mapped : Option ℕ)
      → AllSome
          (λ p.
            (Parked (take_locked size s.list).fill.pages p)
            × (shelved p (take_locked size s.list).empty (take_locked size s.list).cold ≡ 0))
          mapped
      → (let t = take_blocks size s.list mapped in
          BatchOk (after_map s.released mapped) t × ((1 ≤ t.fill.count) ⊎ (mapped ≡ none)))
  unfolding take_blocks
  take_blocks_batch mapped foreign =
      let t = take_locked size s.list in
      let ok =
        (take_locked-TakingOk (Clean s.released) size sized s.out roomy s.list (
          lock-TakingOk size sized (Clean s.released) s.out s.list true
            (Reach-SharedOk size sized roomy reached))).0 in
      if_none_lem
        (λ u. BatchOk (after_map s.released mapped) u × ((1 ≤ u.fill.count) ⊎ (mapped ≡ none))) t
        (take_mapped size t mapped)
        (λ left.
          (batch (after_map s.released mapped) t (mapped-Clean mapped t ok), inl (ground arith)))
        (λ few. from_kernel mapped t few ok foreign)

  settled :
      (clean : ℕ → Type 0) (p : ℕ) (out : List ℕ)
      → p % page_size ≡ 0
      → (r : ClassList × PageFate) → ParkOk clean size sized out p r
      → Settled p out r
  settled clean p out at (l, PageFate.keep) (ok, inl linked) = inl (ok.fill.listed p linked)
  settled clean p out at (l, PageFate.keep) (ok, inr empty) = inr empty
  settled clean p out at (l, PageFate.cold) (ok, there) = there
  settled clean p out at (l, PageFate.unmap) (ok, (parked, off)) = (
    omega (arith, ok.fill.used p at, parked.unused),
    unlinked-Avoids l.pages p l.head parked.unlinked ok.fill.linked,
    off,
  )

  -- After any schedule, for one or more blocks of one page that are out and come back, `out` being
  -- those that stay out: both ways of releasing them leave the page where the fate says it is. Kept,
  -- it is in the partial list or among the empty pages; cold, it is among the cold ones; to be
  -- unmapped, none of its blocks is out, and the class has it in no list.
  pub release-Settled :
      (purge : Discarded) (p : ℕ) (freed out : List ℕ)
      → Returning size s p freed out
      → Settled p out (release_inner purge s.list p freed)
        × Settled p out (release_chunk purge s.list p freed)
  release-Settled purge p freed out returning =
      let ok = Reach-SharedOk size sized roomy reached in
      let one = release_inner purge s.list p freed in
      let many = release_chunk purge s.list p freed in
      (
        settled (Clean (after_release purge one.1 p freed s.released)) p out returning.0 one
            (release-ParkOk size sized roomy s ok purge p freed out returning),
        settled (Clean (after_release purge many.1 p freed s.released)) p out returning.0 many
            (release_group-ParkOk size sized roomy s ok purge p freed out returning),
      )
