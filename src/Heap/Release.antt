-- ===== src/Heap/Release.antt =====
-- src/heap.rs: `release_inner`, `retire_page_inner` and `release_many` keep what holds of a class,
-- for blocks of one page that were out.
use mathlib.Core.List.{Perm}
use allox.Prelude.{
  ℕ, ◌+◌, ◌%◌, ◌≤◌, ◌≡◌, ◌≢◌, ◌⊎◌, inl, inr, refl, sym, ap, ◌∙◌, subst, true, false, List, [], ◌∷◌,
  ◌++◌, arith, length, All, occurrences, total, same, ◌==◌, Bool-cases, total-append, total-Perm,
  length-append,
}
use allox.Classes.{page_size}
use allox.Large.Store.{Discarded}
use allox.Heap.{Page, put, laid, link_page, ClassList, ColdPage, add16, sub16}
use allox.Heap.Class.{
  idle, PageFate, keep, cold, park_empty_page, release_inner, retire_page_inner, release_chunk,
}
use allox.Heap.Blocks.{InPage, PageOk, grid, page_capacity_few}
use allox.Heap.Fill.{held, in_page, in_page_once, in_page_elsewhere}
use allox.Heap.Loop.{outside_none, pages_apart}
use allox.Heap.Park.{held_none}
use allox.Heap.Shelf.{shelved, colds, ColdOk, ShelfOk, ShelfOk-others}
use allox.Heap.Parking.{ClassOk, link_page-ClassOk, ParkOk, park_empty_page-ParkOk}

held_all : (p : ℕ) (xs : List ℕ) → All (InPage p) xs → held p xs ≡ length xs
held_all p [] h = refl
held_all p (x ∷ xs) (here, rest) = omega (arith, in_page_once p x here, held_all p xs rest)

held_elsewhere :
    (p q : ℕ) (xs : List ℕ)
    → p % page_size ≡ 0
    → q % page_size ≡ 0
    → q ≢ p
    → All (InPage p) xs
    → held q xs ≡ 0
held_elsewhere p q [] at_p at_q ne h = refl
held_elsewhere p q (x ∷ xs) at_p at_q ne (here, rest) =
    omega
      (arith, in_page_elsewhere p q x at_p at_q ne here, held_elsewhere p q xs at_p at_q ne rest)

pub All-imp {κ μ} :
    (P : ℕ → Type κ) (Q : ℕ → Type μ) → ((x : ℕ) → P x → Q x) → (xs : List ℕ) → All P xs → All Q xs
All-imp P Q f [] h = tt
All-imp P Q f (x ∷ xs) (here, rest) = (f x here, All-imp P Q f xs rest)

All-append {κ} : (P : ℕ → Type κ) (xs ys : List ℕ) → All P xs → All P ys → All P (xs ++ ys)
All-append P [] ys h k = k
All-append P (x ∷ xs) ys (here, rest) k = (here, All-append P xs ys rest k)

All-ColdOk :
    (clean clean' : ℕ → Type 0) (p : ℕ) (cs : List ColdPage)
    → ((c : ColdPage) → c.page ≢ p → 1 ≤ colds c.page cs → ColdOk clean c → ColdOk clean' c)
    → colds p cs ≡ 0
    → All (ColdOk clean) cs
    → All (ColdOk clean') cs
All-ColdOk clean clean' p [] change off h = tt
All-ColdOk clean clean' p (c ∷ cs) change off (here, rest) = (
  change c (λ e. absurd (ground arith)) (ground arith) here,
  All-ColdOk clean clean' p cs (λ d ne on. change d ne (omega (arith, on))) (omega (arith, off))
      rest,
)

module _ (size : ℕ) (sized : 16 ≤ size) (clean clean' : ℕ → Type 0) (out out' : List ℕ)
    (l : ClassList) (ok : ClassOk clean size sized out l) (p : ℕ) (at : p % page_size ≡ 0)
    (freed : List ℕ) (some_freed : 1 ≤ length freed) (inside : All (InPage p) freed)
    (back : Perm out (freed ++ out'))
    (keeps : (q b : ℕ) → q % page_size ≡ 0 → q ≢ p → InPage q b → clean b → clean' b) where
  split : (f : ℕ → ℕ) → total f out ≡ total f freed + total f out'
  split f = total-Perm f back ∙ total-append f freed out'

  was_used : (l.pages p).used ≡ length freed + held p out'
  was_used = omega (arith, ok.fill.used p at, split (in_page p), held_all p freed inside)

  off : shelved p l.empty l.cold ≡ 0
  off = elim (Bool-cases (shelved p l.empty l.cold == 0)) [
    | inl none_there ↦ ground arith
    | inr there ↦
        let h = ok.shelf.parked p (ground arith) in
        absurd (omega (arith, h.unused, was_used, some_freed))
  ]

  shelf' : ShelfOk clean' l.pages l.empty l.empty_count l.cold l.cold_bytes
  shelf' = record {
    parked = ok.shelf.parked;
    once = ok.shelf.once;
    wiped =
        All-ColdOk clean clean' p l.cold
          (λ c ne on h zeroed b i.
            keeps c.page b (ok.shelf.parked c.page (omega (arith, on))).aligned ne i (h zeroed b i))
          (omega (arith, off)) ok.shelf.wiped;
    counted = ok.shelf.counted;
    few = ok.shelf.few;
    bytes_counted = ok.shelf.bytes_counted;
    cold_few = ok.shelf.cold_few;
  }

  -- A new header for the page, once the blocks are no longer out.
  module _ (h : Page) (same_flag : h.in_partial ≡ (l.pages p).in_partial) (dirty : h.virgin ≡ false)
      (page : PageOk size sized p h) (used : h.used ≡ held p out')
      (balance : (x : ℕ)
        → InPage p x
        → occurrences x h.free + occurrences x out'
          ≡ occurrences x (grid size sized p (h.used + h.free_count))) where
    abbrev returned : ClassList
    returned = record l { pages = put l.pages p h }

    each :
        (P : ℕ → Page → Type 0)
        → P p h
        → ((q : ℕ) → q ≢ p → P q (l.pages q))
        → (q : ℕ) → P q (put l.pages p h q)
    each P here others q = elim (Bool-cases (q == p)) [
      | inl e ↦
          let same_page : q ≡ p = ground arith in simp e (subst (λ r. P r h) (sym same_page) here)
      | inr ne ↦ simp ne (others q (λ e. absurd (ground arith)))
    ]

    returned-ClassOk : ClassOk clean' size sized out' returned
    returned-ClassOk = record {
      fill = record {
        pages = each (λ q g. PageOk size sized q g) page (λ q ne. ok.fill.pages q);
        wiped =
            each (λ q g. q % page_size ≡ 0 → g.virgin ≡ true → (b : ℕ) → InPage q b → clean' b)
              (λ at_p v. cc) (λ q ne at_q v b i. keeps q b at_q ne i (ok.fill.wiped q at_q v b i));
        distinct = ok.fill.distinct;
        linked =
            All-imp (λ q. (l.pages q).in_partial ≡ true)
              (λ q. (put l.pages p h q).in_partial ≡ true)
              (each (λ q g. (l.pages q).in_partial ≡ true → g.in_partial ≡ true)
                (λ on. same_flag ∙ on) (λ q ne on. on))
              l.head ok.fill.linked;
        listed =
            each (λ q g. g.in_partial ≡ true → 1 ≤ occurrences q l.head)
              (λ on. ok.fill.listed p (sym same_flag ∙ on)) (λ q ne on. ok.fill.listed q on);
        aligned = ok.fill.aligned;
        chain = record { batch = omega arith; counted = refl; cleaned = λ v. tt };
        balance = λ q x at_q i.
            each
              (λ q g.
                q % page_size ≡ 0
                → InPage q x
                → occurrences x g.free + 0 + occurrences x out'
                  ≡ occurrences x (grid size sized q (g.used + g.free_count)))
              (λ at_p i. omega (arith, balance x i))
              (λ q ne at_q i. omega (
                arith,
                ok.fill.balance q x at_q i,
                split (same x),
                outside_none p x freed (pages_apart p q x at at_q ne i) inside,
              ))
              q at_q i;
        used =
            each (λ q g. q % page_size ≡ 0 → g.used ≡ 0 + held q out') (λ at_p. omega (arith, used))
              (λ q ne at_q. omega (
                arith,
                ok.fill.used q at_q,
                split (in_page q),
                held_elsewhere p q freed at at_q ne inside,
              ));
      };
      shelf =
          ShelfOk-others clean' l.pages (put l.pages p h) l.empty l.empty_count l.cold l.cold_bytes
            (λ q on unlinked.
              each (λ q g. q ≢ p → g ≡ l.pages q) (λ ne. absurd (ne refl)) (λ q ne other. refl) q
                (λ e. absurd (omega (arith, off, ap (λ r. shelved r l.empty l.cold) e))))
            shelf';
    }

  abbrev retired_page : Page
  retired_page = record (l.pages p) {
    virgin = false;
    needs_reinit = true;
    free = [];
    free_count = 0;
    used = 0;
  }

  -- All blocks of the page come back, and it forgets them.
  pub retire_page_inner-ParkOk :
      (purge : Discarded)
      → held p out' ≡ 0
      → ((retire_page_inner purge l p).1 ≡ cold
          → purge.zeroed ≡ true
          → (b : ℕ) → InPage p b
          → clean' b)
      → ParkOk clean' size sized out' p (retire_page_inner purge l p)
  unfolding retire_page_inner
  retire_page_inner-ParkOk purge none_out zeroed =
      let page : PageOk size sized p retired_page = record {
        counted = refl;
        room = omega arith;
        inside = tt;
      } in
      let ok' =
        returned-ClassOk retired_page refl refl page (sym none_out)
          (λ x i. unfold laid in omega (arith, held_none p x out' i none_out)) in
      park_empty_page-ParkOk size sized clean' out'
        (record l { pages = put l.pages p retired_page }) p at ok'.fill ok'.shelf off purge
        (ground arith) zeroed

  abbrev back_page : Page
  back_page = record (l.pages p) {
    virgin = false;
    free = freed ++ (l.pages p).free;
    free_count = add16 (l.pages p).free_count (length freed);
    used = sub16 (l.pages p).used (length freed);
  }

  back_used : sub16 (l.pages p).used (length freed) ≡ held p out'
  back_used = omega (arith, was_used, (ok.fill.pages p).room, page_capacity_few size sized)

  back_count : add16 (l.pages p).free_count (length freed) ≡ (l.pages p).free_count + length freed
  back_count = omega (arith, was_used, (ok.fill.pages p).room, page_capacity_few size sized)

  back_ok : ClassOk clean' size sized out' (record l { pages = put l.pages p back_page })
  back_ok =
      returned-ClassOk back_page refl refl
        (record {
          counted =
              omega (
                arith,
                back_count,
                (ok.fill.pages p).counted,
                length-append freed (l.pages p).free,
              );
          room = omega (arith, back_count, back_used, was_used, (ok.fill.pages p).room);
          inside = All-append (InPage p) freed (l.pages p).free inside (ok.fill.pages p).inside;
        })
        back_used
        (λ x i.
          let same_places : back_page.used + back_page.free_count
              ≡ (l.pages p).used + (l.pages p).free_count =
            omega (arith, back_count, back_used, was_used) in
          omega (
            arith,
            ok.fill.balance p x at i,
            split (same x),
            total-append (same x) freed (l.pages p).free,
            ap (λ n. occurrences x (grid size sized p n)) same_places,
          ))

  abbrev given_back : ClassList
  given_back = record l { pages = put l.pages p back_page }

  abbrev linked_back : ClassList
  linked_back =
      let s = link_page (idle given_back) p in record given_back { head = s.head; pages = s.pages }

  -- The three ways of a release.
  releasing :
      (purge : Discarded)
      → ((back_page.used ≡ 0)
          × (release_inner purge l p freed ≡ park_empty_page purge given_back p))
        ⊎ (((l.pages p).in_partial ≡ true) × (release_inner purge l p freed ≡ (given_back, keep)))
        ⊎ (((l.pages p).in_partial ≡ false) × (release_inner purge l p freed ≡ (linked_back, keep)))
  unfolding release_inner
  releasing purge = elim (Bool-cases (back_page.used == 0)) [
    | inl unused ↦ inl (ground arith, rw unused refl)
    | inr in_use ↦ elim (Bool-cases (l.pages p).in_partial) [
      | inl linked ↦ inr (inl (linked, simp (in_use, linked) refl))
      | inr unlinked ↦ inr (inr (unlinked, simp (in_use, unlinked) refl))
    ]
  ]

  back_at : put l.pages p back_page p ≡ back_page
  back_at = ground arith

  pub release_inner-ParkOk :
      (purge : Discarded)
      → ((release_inner purge l p freed).1 ≡ cold
          → purge.zeroed ≡ true
          → (b : ℕ) → InPage p b
          → clean' b)
      → ParkOk clean' size sized out' p (release_inner purge l p freed)
  release_inner-ParkOk purge zeroed = elim (releasing purge) [
    | inl (unused, e) ↦ rw e (
        park_empty_page-ParkOk size sized clean' out' given_back p at back_ok.fill back_ok.shelf off
          purge (ap (λ (h : Page). h.used) back_at ∙ unused)
          (λ c. zeroed (ap (λ (r : ClassList × PageFate). r.1) e ∙ c)))
    | inr (inl (linked, e)) ↦ rw e (back_ok, inl (ap (λ (h : Page). h.in_partial) back_at ∙ linked))
    | inr (inr (unlinked, e)) ↦ rw e (
      link_page-ClassOk size sized clean' out' given_back p at back_ok.fill back_ok.shelf off
          (ap (λ (h : Page). h.in_partial) back_at ∙ unlinked),
      inl (unfold link_page in ground arith),
    )
  ]

  -- One chunk of `release_many`.
  pub release_chunk-ParkOk :
      (purge : Discarded)
      → ((release_chunk purge l p freed).1 ≡ cold
          → purge.zeroed ≡ true
          → (b : ℕ) → InPage p b
          → clean' b)
      → ParkOk clean' size sized out' p (release_chunk purge l p freed)
  unfolding release_chunk
  release_chunk-ParkOk purge zeroed = elim (Bool-cases (length freed == (l.pages p).used)) [
    | inl all_back ↦
        rw all_back
          (retire_page_inner-ParkOk purge (ground (arith, was_used)) (λ c. zeroed (rw all_back c)))
    | inr some_left ↦ rw some_left (release_inner-ParkOk purge (λ c. zeroed (rw some_left c)))
  ]
