-- ===== src/Heap/Park.antt =====
-- src/heap.rs: what a class keeps beside its partial list, the empty and the cold pages, and how a
-- page comes from there to the front of the partial list.
use native.Mathlib.Decide.{ℕ_discrete}
use allox.Prelude.{
  ℕ, ◌+◌, ◌%◌, ◌≤◌, ◌≡◌, ◌≢◌, refl, sym, ap, ◌∙◌, subst, Bool, true, false, List, [], ◌∷◌, arith,
  length, All, occurrences,
}
use allox.Classes.{page_size}
use allox.Pages.Chain.{Avoids}
use allox.Heap.{Page, Store, put, Filling, link_page}
use allox.Heap.Class.{fill_with}
use allox.Heap.Blocks.{InPage, PageOk, grid, HasSpare}
use allox.Heap.Fill.{held}
use allox.Heap.Loop.{All-others, FillOk, fill_from_list-FillOk, fill_from_list-gain}

-- A page of which no block is counted has none of the list.
pub held_none : (q x : ℕ) (xs : List ℕ) → InPage q x → held q xs ≡ 0 → occurrences x xs ≡ 0
held_none q x [] i none_held = refl
held_none q x (y ∷ ys) i none_held = elim (ℕ_discrete y x) [
  | yes e ↦ absurd (ground (arith, subst (InPage q) (sym e) i))
  | no ne ↦ ground (arith, held_none q x ys i (omega arith))
]

-- A page without the flag is not in a list of pages that have it.
pub unlinked-Avoids :
    (pages : Store) (p : ℕ) (qs : List ℕ)
    → (pages p).in_partial ≡ false
    → All (λ q. (pages q).in_partial ≡ true) qs
    → Avoids p qs
unlinked-Avoids pages p [] off h = refl
unlinked-Avoids pages p (q ∷ qs) off (on, rest) = (
  λ e.
      let on_p : (pages p).in_partial ≡ true = subst (λ r. (pages r).in_partial ≡ true) e on in
      absurd cc,
  unlinked-Avoids pages p qs off rest,
)

module _ (size : ℕ) (sized : 16 ≤ size) (clean : ℕ → Type 0) (out : List ℕ) where
  abbrev linked : Filling → ℕ → Page → Bool → Filling
  linked s p page virgin = link_page (record s { pages = put s.pages p page; virgin = virgin }) p

  -- A header for a page that none of its blocks has left.
  pub record Ready (p : ℕ) (page : Page) : Type 0 where
    pub ok : PageOk size sized p page
    pub unused : page.used ≡ 0
    pub wiped : page.virgin ≡ true → (b : ℕ) → InPage p b → clean b
    pub balance :
        (x : ℕ)
        → InPage p x
        → occurrences x page.free + occurrences x out
          ≡ occurrences x (grid size sized p (page.used + page.free_count))
    pub spare : HasSpare size page

  module _ (s : Filling) (ok : FillOk size sized clean out s) (few : s.count ≡ 0) (p : ℕ)
      (at : p % page_size ≡ 0) (off : (s.pages p).in_partial ≡ false)
      (unused : (s.pages p).used ≡ 0) (page : Page) (r : Ready p page) (virgin : Bool) where
    no_chain : s.chain ≡ []
    no_chain = by_length s.chain (ok.chain.counted ∙ few)
      where
        by_length : (xs : List ℕ) → length xs ≡ 0 → xs ≡ []
        by_length [] e = refl
        by_length (x ∷ xs) e = absurd (omega arith)

    linked_each :
        (P : ℕ → Page → Type 0)
        → P p (record page { in_partial = true })
        → ((q : ℕ) → q ≢ p → P q (s.pages q))
        → (q : ℕ) → P q ((linked s p page virgin).pages q)
    unfolding link_page
    linked_each P here others q = elim (ℕ_discrete q p) [
      | yes e ↦
          subst (λ r. P r ((linked s p page virgin).pages r)) (sym e)
            (subst (P p) (ground arith) here)
      | no ne ↦ subst (P q) (ground arith) (others q ne)
    ]

    none_out : held p out ≡ 0
    none_out = omega (arith, ok.used p at, unused)

    linked-FillOk : FillOk size sized clean out (linked s p page virgin)
    unfolding link_page
    linked-FillOk = record {
      pages =
          linked_each (λ q h. PageOk size sized q h)
            (record { counted = r.ok.counted; room = r.ok.room; inside = r.ok.inside })
            (λ q ne. ok.pages q);
      wiped =
          linked_each (λ q h. q % page_size ≡ 0 → h.virgin ≡ true → (b : ℕ) → InPage q b → clean b)
            (λ at_p. r.wiped) (λ q ne. ok.wiped q);
      distinct = (unlinked-Avoids s.pages p s.head off ok.linked, ok.distinct);
      linked = (
        ground arith,
        All-others (λ h. h.in_partial ≡ true) s.pages (linked s p page virgin).pages p s.head
            (λ q ne. ground arith) (unlinked-Avoids s.pages p s.head off ok.linked) ok.linked,
      );
      listed =
          linked_each (λ q h. h.in_partial ≡ true → 1 ≤ occurrences q (p ∷ s.head))
            (λ on. ground arith) (λ q ne on. omega (arith, ok.listed q on));
      aligned = (at, ok.aligned);
      chain = record {
        batch = ok.chain.batch;
        counted = ok.chain.counted;
        cleaned = λ v. subst (All clean) (sym no_chain) tt;
      };
      balance = λ q x at_q i.
          linked_each
            (λ q h.
              q % page_size ≡ 0
              → InPage q x
              → occurrences x h.free + occurrences x s.chain + occurrences x out
                ≡ occurrences x (grid size sized q (h.used + h.free_count)))
            (λ at_p j. omega (arith, r.balance x j, ap (occurrences x) no_chain))
            (λ q ne at_q j. ok.balance q x at_q j) q at_q i;
      used =
          linked_each (λ q h. q % page_size ≡ 0 → h.used ≡ held q s.chain + held q out)
            (λ at_p. omega (arith, none_out, r.unused, ap (held p) no_chain))
            (λ q ne at_q. ok.used q at_q);
    }

    -- Filling from the page that is put in front gives blocks, and leaves alone the other pages
    -- that are not linked.
    pub fill_with-FillOk :
        FillOk size sized clean out (fill_with size s p page virgin)
        × (1 ≤ (fill_with size s p page virgin).count)
        × ((q : ℕ)
            → q ≢ p
            → (s.pages q).in_partial ≡ false
            → (fill_with size s p page virgin).pages q ≡ s.pages q)
    unfolding fill_with
    fill_with-FillOk =
        let t = linked s p page virgin in
        let (done, ends, more, frame) =
          fill_from_list-FillOk size sized clean out t linked-FillOk in
        let gain =
          fill_from_list-gain size sized clean out t p s.head linked-FillOk
            (unfold link_page in refl) (unfold link_page in ground (arith, few)) linked_spare in
        (
          done,
          omega (arith, gain),
          λ q ne off_q. frame q (ap (λ (h : Page). h.in_partial) (there q ne) ∙ off_q) ∙ there q ne,
        )
      where
        there : (q : ℕ) → q ≢ p → (linked s p page virgin).pages q ≡ s.pages q
        there q ne = unfold link_page in ground arith

        at_p : (linked s p page virgin).pages p ≡ record page { in_partial = true }
        at_p = unfold link_page in ground arith

        linked_spare : HasSpare size ((linked s p page virgin).pages p)
        linked_spare = subst (HasSpare size) (sym at_p) r.spare
