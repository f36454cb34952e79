-- ===== src/Heap/Steps.antt =====
-- src/heap.rs: threads on one size class. Each step is one critical section; `out` are the blocks
-- that caches and users hold, and `released` are those that came back since their page was zero.
use mathlib.Core.List.{Perm}
use allox.Prelude.{
  ℕ, ◌+◌, ◌-◌, ◌%◌, ◌≤◌, ◌≡◌, ◌≢◌, refl, ap, Bool, true, false, ◌&&◌, some, List, [], ◌∷◌, ◌++◌,
  arith, length, All, occurrences, ltb, leb, if◌then◌else◌,
}
use allox.Classes.{page_size}
use allox.Pages.{header_size}
use allox.Large.Store.{Discarded}
use allox.Heap.{Store, ColdPage, laid, Filling, ClassList, new_class_list}
use allox.Heap.Class.{
  Taking, lock, unlock, take_locked, take_mapped, PageFate, release_inner, release_chunk,
}
use allox.Heap.Blocks.{InPage}
use allox.Heap.Loop.{FillOk}
use allox.Heap.Flags.{rested}
use allox.Heap.Shelf.{Parked, shelved, ColdOk, ShelfOk}
use allox.Heap.Take.{TakingOk, take_locked-TakingOk, take_mapped-TakingOk}
use allox.Heap.Parking.{ClassOk, ParkOk}
use allox.Heap.Release.{All-imp, release_inner-ParkOk, release_chunk-ParkOk}

pub record Shared : Type 0 where
  pub list : ClassList
  pub out : List ℕ
  pub released : ℕ → Bool

abbrev pub Clean : (ℕ → Bool) → ℕ → Type 0
Clean released b = released b ≡ false

abbrev pub start : Shared
start = record { list = new_class_list; out = []; released = λ b. true }

abbrev pub in_page? : ℕ → ℕ → Bool
in_page? p b = leb (p + header_size) b && ltb b (p + page_size)

-- The page at `p` is zero again.
abbrev pub zeroed_page : ℕ → (ℕ → Bool) → ℕ → Bool
zeroed_page p released b = if in_page? p b then false else released b

abbrev pub is_cold : PageFate → Bool
is_cold PageFate.cold = true
is_cold PageFate.keep = false
is_cold PageFate.unmap = false

-- The blocks that come back to the page at `p` are released, unless a purge zeroes the page.
abbrev pub after_release : Discarded → PageFate → ℕ → List ℕ → (ℕ → Bool) → ℕ → Bool
after_release purge fate p freed released b =
    if in_page? p b
    then (if is_cold fate && purge.zeroed
        then false
        else if leb 1 (occurrences b freed)
        then true
        else released b)
    else released b

module _ (size : ℕ) where
  abbrev pub taken : Shared → Taking → Shared
  taken s t = record s { list = unlock t; out = t.fill.chain ++ s.out }

  -- The kernel's page is none of the class: it is in no list, and no block of it is out.
  abbrev pub Foreign : Shared → ℕ → Type 0
  Foreign s p = Parked s.list.pages p × (shelved p s.list.empty s.list.cold ≡ 0)

  abbrev pub Returning : Shared → ℕ → List ℕ → List ℕ → Type 0
  Returning s p freed out =
      (p % page_size ≡ 0) × (1 ≤ length freed) × All (InPage p) freed × Perm s.out (freed ++ out)

  abbrev pub given_back : Discarded → Shared → ℕ → List ℕ → List ℕ → ClassList × PageFate → Shared
  given_back purge s p freed out r = record {
    list = r.0;
    out = out;
    released = after_release purge r.1 p freed s.released;
  }

  -- A take under the lock; a take after a mapping; the release of blocks of one page, by
  -- `release_blocks` and as a chunk of `release_many`.
  pub data Step : Shared → Shared → Type 0 where
    take : (s : Shared) → Step s (taken s (take_locked size s.list))
    map_page :
        (s : Shared) (virgin : Bool) (p : ℕ)
        → Foreign s p
        → Step s (record (taken s (take_mapped size (lock s.list [] 0 virgin) (some p))) {
          released = zeroed_page p s.released;
        })
    release :
        (s : Shared) (purge : Discarded) (p : ℕ) (freed out : List ℕ)
        → Returning s p freed out
        → Step s (given_back purge s p freed out (release_inner purge s.list p freed))
    release_group :
        (s : Shared) (purge : Discarded) (p : ℕ) (freed out : List ℕ)
        → Returning s p freed out
        → Step s (given_back purge s p freed out (release_chunk purge s.list p freed))

  pub data Reach : Shared → Type 0 where
    here : Reach start
    next : {s t : Shared} → Reach s → Step s t → Reach t

-- More blocks may count as clean.
module _ (size : ℕ) (sized : 16 ≤ size) (clean clean' : ℕ → Type 0) (out : List ℕ)
    (more : (b : ℕ) → clean b → clean' b) where
  FillOk-clean : (s : Filling) → FillOk size sized clean out s → FillOk size sized clean' out s
  FillOk-clean s ok = record {
    pages = ok.pages;
    wiped = λ q at v b i. more b (ok.wiped q at v b i);
    distinct = ok.distinct;
    linked = ok.linked;
    listed = ok.listed;
    aligned = ok.aligned;
    chain = record {
      batch = ok.chain.batch;
      counted = ok.chain.counted;
      cleaned = λ v. All-imp clean clean' more s.chain (ok.chain.cleaned v);
    };
    balance = ok.balance;
    used = ok.used;
  }

  ShelfOk-clean :
      (pages : Store) (empty : List ℕ) (count : ℕ) (cold : List ColdPage) (bytes : ℕ)
      → ShelfOk clean pages empty count cold bytes
      → ShelfOk clean' pages empty count cold bytes
  ShelfOk-clean pages empty count cs bytes ok = record {
    parked = ok.parked;
    once = ok.once;
    wiped = all_more cs ok.wiped;
    counted = ok.counted;
    few = ok.few;
    bytes_counted = ok.bytes_counted;
    cold_few = ok.cold_few;
  }
    where
      all_more : (cs : List ColdPage) → All (ColdOk clean) cs → All (ColdOk clean') cs
      all_more [] h = tt
      all_more (c ∷ cs) (first, rest) = (λ z b i. more b (first z b i), all_more cs rest)

  pub TakingOk-clean :
      (t : Taking) → TakingOk clean size sized out t → TakingOk clean' size sized out t
  TakingOk-clean t ok = record {
    fill = FillOk-clean t.fill ok.fill;
    shelf = ShelfOk-clean t.fill.pages t.empty t.empty_count t.cold t.cold_bytes ok.shelf;
  }

module _ (size : ℕ) (sized : 16 ≤ size) (clean : ℕ → Type 0) (out : List ℕ) where
  pub lock-TakingOk :
      (l : ClassList) (virgin : Bool)
      → ClassOk clean size sized out l
      → TakingOk clean size sized out (lock l [] 0 virgin)
  unfolding lock
  lock-TakingOk l virgin ok = record {
    fill = record {
      pages = ok.fill.pages;
      wiped = ok.fill.wiped;
      distinct = ok.fill.distinct;
      linked = ok.fill.linked;
      listed = ok.fill.listed;
      aligned = ok.fill.aligned;
      chain = record { batch = omega arith; counted = refl; cleaned = λ v. tt };
      balance = ok.fill.balance;
      used = ok.fill.used;
    };
    shelf = ok.shelf;
  }

  unlock-ClassOk :
      (t : Taking)
      → TakingOk clean size sized out t
      → ClassOk clean size sized (t.fill.chain ++ out) (unlock t)
  unfolding unlock
  unlock-ClassOk t ok = record {
    fill = rested size sized clean out t.fill ok.fill;
    shelf = ok.shelf;
  }

module _ (size : ℕ) (sized : 16 ≤ size) (roomy : size ≤ page_size - header_size) where
  abbrev pub SharedOk : Shared → Type 0
  SharedOk s = ClassOk (Clean s.released) size sized s.out s.list

  start-ok : SharedOk start
  unfolding new_class_list laid
  start-ok = record {
    fill = record {
      pages = λ q. record { counted = refl; room = omega arith; inside = tt };
      wiped = λ q at v. cc;
      distinct = refl;
      linked = tt;
      listed = λ q on. absurd cc;
      aligned = tt;
      chain = record { batch = omega arith; counted = refl; cleaned = λ v. tt };
      balance = λ q x at i. refl;
      used = λ q at. refl;
    };
    shelf = record {
      parked = λ q on. absurd (omega arith);
      once = λ q. omega arith;
      wiped = tt;
      counted = refl;
      few = omega arith;
      bytes_counted = refl;
      cold_few = omega arith;
    };
  }

  -- A take from a mapping, which gives at least one block.
  pub map_page-TakingOk :
      (s : Shared)
      → SharedOk s
      → (virgin : Bool) (p : ℕ) → Foreign size s p
      → TakingOk
          (Clean (zeroed_page p s.released))
          size
          sized
          s.out
          (take_mapped size (lock s.list [] 0 virgin) (some p))
        × (1 ≤ (take_mapped size (lock s.list [] 0 virgin) (some p)).fill.count)
  unfolding lock
  map_page-TakingOk s ok virgin p (parked, off) =
      let clean = Clean (zeroed_page p s.released) in
      let still : TakingOk clean size sized s.out (lock s.list [] 0 virgin) =
        TakingOk-clean size sized (Clean s.released) clean s.out (λ b h. ground arith)
          (lock s.list [] 0 virgin)
          (lock-TakingOk size sized (Clean s.released) s.out s.list virgin ok) in
      take_mapped-TakingOk clean size sized s.out roomy (lock s.list [] 0 virgin) refl still
        (some p) (parked, off, λ b i. ground arith)

  module _ (s : Shared) (ok : SharedOk s) (purge : Discarded) (fate : PageFate) (p : ℕ)
      (freed : List ℕ) where
    released_keeps :
        (q b : ℕ)
        → p % page_size ≡ 0
        → q % page_size ≡ 0
        → q ≢ p
        → InPage q b
        → Clean s.released b
        → Clean (after_release purge fate p freed s.released) b
    released_keeps q b at_p at ne i h = ground arith

    released_cold :
        is_cold fate ≡ true
        → purge.zeroed ≡ true
        → (b : ℕ) → InPage p b
        → Clean (after_release purge fate p freed s.released) b
    released_cold c z b i = ground arith

  module _ (s : Shared) (ok : SharedOk s) (purge : Discarded) (p : ℕ) (freed out : List ℕ)
      (returning : Returning size s p freed out) where
    pub release-ParkOk :
        (let r = release_inner purge s.list p freed in
          ParkOk (Clean (after_release purge r.1 p freed s.released)) size sized out p r)
    release-ParkOk =
        let (at, some_freed, inside, back) = returning in
        let fate = (release_inner purge s.list p freed).1 in
        release_inner-ParkOk size sized (Clean s.released)
          (Clean (after_release purge fate p freed s.released)) s.out out s.list ok p at freed
          some_freed inside back (λ q b. released_keeps s ok purge fate p freed q b at) purge
          (λ c. released_cold s ok purge fate p freed (ap is_cold c))

    pub release_group-ParkOk :
        (let r = release_chunk purge s.list p freed in
          ParkOk (Clean (after_release purge r.1 p freed s.released)) size sized out p r)
    release_group-ParkOk =
        let (at, some_freed, inside, back) = returning in
        let fate = (release_chunk purge s.list p freed).1 in
        release_chunk-ParkOk size sized (Clean s.released)
          (Clean (after_release purge fate p freed s.released)) s.out out s.list ok p at freed
          some_freed inside back (λ q b. released_keeps s ok purge fate p freed q b at) purge
          (λ c. released_cold s ok purge fate p freed (ap is_cold c))

  Step-SharedOk : {s t : Shared} → SharedOk s → Step size s t → SharedOk t
  Step-SharedOk ok (take s) =
      unlock-ClassOk size sized (Clean s.released) s.out (take_locked size s.list)
        (take_locked-TakingOk (Clean s.released) size sized s.out roomy s.list
          (lock-TakingOk size sized (Clean s.released) s.out s.list true ok)).0
  Step-SharedOk ok (map_page s virgin p (parked, off)) =
      unlock-ClassOk size sized (Clean (zeroed_page p s.released)) s.out
        (take_mapped size (lock s.list [] 0 virgin) (some p))
        (map_page-TakingOk s ok virgin p (parked, off)).0
  Step-SharedOk ok (release s purge p freed out returning) =
      (release-ParkOk s ok purge p freed out returning).0
  Step-SharedOk ok (release_group s purge p freed out returning) =
      (release_group-ParkOk s ok purge p freed out returning).0

  pub Reach-SharedOk : {s : Shared} → Reach size s → SharedOk s
  Reach-SharedOk here = start-ok
  Reach-SharedOk (next r step) = Step-SharedOk (Reach-SharedOk r) step
