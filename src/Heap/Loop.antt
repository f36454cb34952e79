-- ===== src/Heap/Loop.antt =====
-- src/heap.rs: the outer loop of `fill_from_list`, over the pages of the partial list, and what
-- holds of a class whatever page a batch comes from.
use native.Mathlib.Decide.{ℕ_discrete}
use allox.Prelude.{
  ℕ, zero, suc, ◌+◌, ◌%◌, ◌≤◌, ◌<◌, ◌≡◌, ◌≢◌, ◌⊎◌, inl, inr, refl, sym, ap, ◌∙◌, subst, Bool, true,
  false, ◌&&◌, List, [], ◌∷◌, arith, length, All, occurrences, ltb, ◌==◌, if◌then◌else◌, Bool-cases,
}
use allox.Classes.{page_size}
use allox.Pages.Chain.{Avoids}
use allox.Heap.{
  Page, Store, Filling, refill_batch, fill_page, page_rounds, is_head, fill_first, fill_while,
  fill_from_list,
}
use allox.Heap.Blocks.{InPage, PageOk, grid, grid-inside, HasSpare}
use allox.Heap.Fill.{ChainOk, InLoop, Left, Since, held, fill_page-Left, fill_page-gain}

abbrev pub Distinct : List ℕ → Type 0
Distinct [] = true ≡ true
Distinct (x ∷ xs) = Avoids x xs × Distinct xs

-- What a changed page does not touch.
pub All-others :
    (P : Page → Type 0) (f g : Store) (p : ℕ) (qs : List ℕ)
    → ((q : ℕ) → q ≢ p → g q ≡ f q)
    → Avoids p qs
    → All (λ q. P (f q)) qs
    → All (λ q. P (g q)) qs
All-others P f g p [] others away h = tt
All-others P f g p (q ∷ qs) others (ne, away) (here, rest) =
    (subst P (sym (others q ne)) here, All-others P f g p qs others away rest)

pub outside_none :
    (q x : ℕ) (xs : List ℕ) → (InPage q x → ⊥) → All (InPage q) xs → occurrences x xs ≡ 0
outside_none q x [] no_way h = refl
outside_none q x (y ∷ ys) no_way (here, rest) = elim (ℕ_discrete y x) [
  | yes e ↦ absurd (no_way (subst (InPage q) e here))
  | no ne ↦ ground (arith, outside_none q x ys no_way rest)
]

pub pages_apart :
    (p q x : ℕ) → p % page_size ≡ 0 → q % page_size ≡ 0 → q ≢ p → InPage q x → InPage p x → ⊥
pages_apart p q x at_p at_q ne (from, to) (from', to') = ne (omega arith)

both_gone : (b c : Bool) (u v : Filling × Bool) → c ≡ false → (if b && c then u else v) ≡ v
both_gone true c u v e = rw e refl
both_gone false c u v e = refl

first_none : (size : ℕ) (s : Filling) → fill_first size s [] ≡ (s, false)
unfolding fill_first
first_none size s = refl

is_head-Avoids : (p : ℕ) (ps : List ℕ) → Avoids p ps → is_head p ps ≡ false
is_head-Avoids p [] away = refl
is_head-Avoids p (q ∷ qs) (ne, away) = ground arith

module _ (size : ℕ) (sized : 16 ≤ size) (clean : ℕ → Type 0) (out : List ℕ) where
  -- Every page has right counts, and a virgin one is clean; the partial list is a list of different
  -- linked pages, all that are linked; every block of a page is laid out once, and is in the free list, in the chain or
  -- out; `used` counts the last two.
  pub record FillOk (s : Filling) : Type 0 where
    pub pages : (q : ℕ) → PageOk size sized q (s.pages q)
    pub wiped :
        (q : ℕ) → q % page_size ≡ 0 → (s.pages q).virgin ≡ true → (b : ℕ) → InPage q b → clean b
    pub distinct : Distinct s.head
    pub linked : All (λ q. (s.pages q).in_partial ≡ true) s.head
    pub listed : (q : ℕ) → (s.pages q).in_partial ≡ true → 1 ≤ occurrences q s.head
    pub aligned : All (λ q. q % page_size ≡ 0) s.head
    pub chain : ChainOk clean s
    pub balance :
        (q x : ℕ)
        → q % page_size ≡ 0
        → InPage q x
        → occurrences x (s.pages q).free + occurrences x s.chain + occurrences x out
          ≡ occurrences x (grid size sized q ((s.pages q).used + (s.pages q).free_count))
    pub used : (q : ℕ) → q % page_size ≡ 0 → (s.pages q).used ≡ held q s.chain + held q out

  abbrev marked : Filling → ℕ → Filling
  marked s p = record s { virgin = if (s.pages p).virgin then s.virgin else false }

  module _ (s : Filling) (ok : FillOk s) (p : ℕ) (ps : List ℕ) (e : s.head ≡ p ∷ ps) where
    head-Distinct : Distinct (p ∷ ps)
    head-Distinct = subst Distinct e ok.distinct

    head_linked : All (λ q. (s.pages q).in_partial ≡ true) (p ∷ ps)
    head_linked = subst (All (λ q. (s.pages q).in_partial ≡ true)) e ok.linked

    head_aligned : All (λ q. q % page_size ≡ 0) (p ∷ ps)
    head_aligned = subst (All (λ q. q % page_size ≡ 0)) e ok.aligned

    marked-InLoop : InLoop size sized clean p head_aligned.0 ps (marked s p)
    marked-InLoop = record {
      first = e;
      linked = head_linked.0;
      page = ok.pages p;
      chain = record {
        batch = ok.chain.batch;
        counted = ok.chain.counted;
        cleaned = λ v. ok.chain.cleaned (ground arith);
      };
      wiped = λ v. ok.wiped p head_aligned.0 (ground arith);
    }

    module _ (t : Filling) (l : Left size sized clean p head_aligned.0 ps t)
        (since : Since size sized clean p head_aligned.0 ps (marked s p) t) where
      left-balance :
          (q x : ℕ)
          → q % page_size ≡ 0
          → InPage q x
          → occurrences x (t.pages q).free + occurrences x t.chain + occurrences x out
            ≡ occurrences x (grid size sized q ((t.pages q).used + (t.pages q).free_count))
      left-balance q x at i = elim (ℕ_discrete q p) [
        | yes same_page ↦
            subst
              (λ r.
                occurrences x (t.pages r).free + occurrences x t.chain + occurrences x out
                ≡ occurrences x (grid size sized r ((t.pages r).used + (t.pages r).free_count)))
              (sym same_page)
              (omega (
                arith,
                ok.balance p x head_aligned.0 (subst (λ r. InPage r x) same_page i),
                since.blocks x,
              ))
        | no ne ↦
            let apart = pages_apart p q x head_aligned.0 at ne i in
            let before = ok.pages p in
            rw (since.others q ne) (
              omega (
                arith,
                ok.balance q x at i,
                since.blocks x,
                outside_none p x (s.pages p).free apart before.inside,
                outside_none p x (t.pages p).free apart l.page.inside,
                outside_none p x _ apart (grid-inside size sized p _ before.room),
                outside_none p x _ apart (grid-inside size sized p _ l.page.room),
              ))
      ]

      left-used : (q : ℕ) → q % page_size ≡ 0 → (t.pages q).used ≡ held q t.chain + held q out
      left-used q at = elim (ℕ_discrete q p) [
        | yes same_page ↦
            subst (λ r. (t.pages r).used ≡ held r t.chain + held r out) (sym same_page)
              (omega (arith, ok.used p head_aligned.0, since.used))
        | no ne ↦ rw (since.others q ne) (omega (arith, ok.used q at, since.elsewhere q at ne))
      ]

      left-FillOk : FillOk t
      left-FillOk = record {
        pages = λ q. elim (ℕ_discrete q p) [
          | yes same_page ↦ subst (λ r. PageOk size sized r (t.pages r)) (sym same_page) l.page
          | no ne ↦ rw (since.others q ne) (ok.pages q)
        ];
        wiped = λ q. elim (ℕ_discrete q p) [
          | yes same_page ↦
              subst
                (λ r.
                  r % page_size ≡ 0 → (t.pages r).virgin ≡ true → (b : ℕ) → InPage r b → clean b)
                (sym same_page) (λ at v. ok.wiped p at (sym since.keeps ∙ v))
          | no ne ↦ rw (since.others q ne) (ok.wiped q)
        ];
        distinct = elim l.outcome [
          | inl (same_head, flag, full) ↦ rw same_head head-Distinct
          | inr (rest, flag) ↦ rw rest head-Distinct.1
        ];
        linked =
            let later =
              All-others (λ page. page.in_partial ≡ true) s.pages t.pages p ps since.others
                head-Distinct.0 head_linked.1 in
            elim l.outcome [
              | inl (same_head, flag, full) ↦ rw same_head (flag, later)
              | inr (rest, flag) ↦ rw rest later
            ];
        listed = λ q on. elim (ℕ_discrete q p) [
          | yes same_page ↦ elim l.outcome [
            | inl (same_head, flag, full) ↦ rw same_head (ground arith)
            | inr (rest, flag) ↦
                let on_p : (t.pages p).in_partial ≡ true =
                  subst (λ r. (t.pages r).in_partial ≡ true) same_page on in
                absurd cc
          ]
          | no ne ↦
              let before : 1 ≤ occurrences q (p ∷ ps) =
                subst (λ xs. 1 ≤ occurrences q xs) e
                  (ok.listed q (sym (ap (λ (h : Page). h.in_partial) (since.others q ne)) ∙ on)) in
              elim l.outcome [
                | inl (same_head, flag, full) ↦ rw same_head before
                | inr (rest, flag) ↦ rw rest (ground arith)
              ]
        ];
        aligned = elim l.outcome [
          | inl (same_head, flag, full) ↦ rw same_head head_aligned
          | inr (rest, flag) ↦ rw rest head_aligned.1
        ];
        chain = l.chain;
        balance = left-balance;
        used = left-used;
      }

    unlinked_other : (q : ℕ) → (s.pages q).in_partial ≡ false → q ≢ p
    unlinked_other q off same_page =
        let on : (s.pages q).in_partial ≡ true =
          subst (λ r. (s.pages r).in_partial ≡ true) (sym same_page) head_linked.0 in
        absurd cc

    -- One round of the outer loop: the batch is full, or the page is done with and has left the
    -- list; with a block to give, it gave one.
    pub fill_first-FillOk :
        s.count < refill_batch
        → (t : Filling) × (fill_first size s (p ∷ ps) ≡ (t, true))
          × FillOk t
          × ((t.count ≡ refill_batch) ⊎ (t.head ≡ ps))
          × (s.count ≤ t.count)
          × (HasSpare size (s.pages p) → s.count < t.count)
          × ((q : ℕ) → (s.pages q).in_partial ≡ false → t.pages q ≡ s.pages q)
    unfolding fill_first
    fill_first-FillOk few =
        let t = fill_page page_rounds size p (marked s p) in
        let (left, since) =
          fill_page-Left size sized clean p head_aligned.0 ps page_rounds (marked s p)
            (ground arith) marked-InLoop in
        let gain =
          fill_page-gain size sized clean p head_aligned.0 ps (marked s p) marked-InLoop few in
        elim left.outcome [
          | inl (same_head, flag, full) ↦
              let moved : (t.count == s.count) ≡ false = ground arith in
              (
                t,
                rw moved refl,
                left-FillOk t left since,
                inl full,
                since.more,
                gain,
                λ q off. since.others q (unlinked_other q off),
              )
          | inr (rest, flag) ↦
              let gone : is_head p t.head ≡ false = rw rest (is_head-Avoids p ps head-Distinct.0) in
              (
                t,
                both_gone _ _ _ _ gone,
                left-FillOk t left since,
                inr rest,
                since.more,
                gain,
                λ q off. since.others q (unlinked_other q off),
              )
        ]

  fill_while_more :
      (fuel : ℕ) (s t : Filling)
      → s.count < refill_batch
      → fill_first size s s.head ≡ (t, true)
      → fill_while (suc fuel) size s ≡ fill_while fuel size t
  unfolding fill_while
  fill_while_more fuel s t few first =
      ground (arith, ap (λ (r : Filling × Bool). r.0) first, ap (λ (r : Filling × Bool). r.1) first)

  fill_while_full : (fuel : ℕ) (s : Filling) → s.count ≡ refill_batch → fill_while fuel size s ≡ s
  unfolding fill_while
  fill_while_full zero s full = refl
  fill_while_full (suc fuel) s full = ground arith

  fill_while_empty :
      (fuel : ℕ) (s : Filling)
      → s.head ≡ []
      → s.count < refill_batch
      → fill_while (suc fuel) size s ≡ s
  unfolding fill_while
  fill_while_empty fuel s none_left few =
      let first = ap (fill_first size s) none_left ∙ first_none size s in
      ground (arith, ap (λ (r : Filling × Bool). r.0) first, ap (λ (r : Filling × Bool). r.1) first)

  -- With fuel for the pages of the list, the loop ends with a full batch or an empty list.
  abbrev pub FilledTo : Filling → Filling → Type 0
  FilledTo s t =
      FillOk t
      × ((t.count ≡ refill_batch) ⊎ (t.head ≡ []))
      × (s.count ≤ t.count)
      × ((q : ℕ) → (s.pages q).in_partial ≡ false → t.pages q ≡ s.pages q)

  full_or_not : (s : Filling) → FillOk s → (s.count ≡ refill_batch) ⊎ (s.count < refill_batch)
  full_or_not s ok = elim (Bool-cases (ltb s.count refill_batch)) [
    | inl few ↦ inr (ground arith)
    | inr full ↦ inl (ground (arith, ok.chain.batch))
  ]

  fill_while-FillOk :
      (fuel : ℕ) (s : Filling) (qs : List ℕ)
      → s.head ≡ qs
      → length qs < fuel
      → FillOk s
      → FilledTo s (fill_while fuel size s)
  fill_while-FillOk zero s qs e lt ok = absurd (omega arith)
  fill_while-FillOk (suc fuel) s [] e lt ok = elim (full_or_not s ok) [
    | inl full ↦ rw (fill_while_full (suc fuel) s full) (ok, inl full, omega arith, λ q off. refl)
    | inr few ↦ rw (fill_while_empty fuel s e few) (ok, inr e, omega arith, λ q off. refl)
  ]
  fill_while-FillOk (suc fuel) s (p ∷ ps) e lt ok = elim (full_or_not s ok) [
    | inl full ↦ rw (fill_while_full (suc fuel) s full) (ok, inl full, omega arith, λ q off. refl)
    | inr few ↦
        let (t, first, ok', outcome, more, gain, frame) = fill_first-FillOk s ok p ps e few in
        rw (fill_while_more fuel s t few (ap (fill_first size s) e ∙ first)) (elim outcome [
          | inr rest ↦
              let (done, ends, more', frame') =
                fill_while-FillOk fuel t ps rest (omega arith) ok' in
              (
                done,
                ends,
                omega (arith, more, more'),
                λ q off.
                    frame' q (ap (λ (r : Page). r.in_partial) (frame q off) ∙ off) ∙ frame q off,
              )
          | inl full ↦ rw (fill_while_full fuel t full) (ok', inl full, more, frame)
        ])
  ]

  pub fill_from_list-FillOk : (s : Filling) → FillOk s → FilledTo s (fill_from_list size s)
  unfolding fill_from_list
  fill_from_list-FillOk s ok = fill_while-FillOk (length s.head + 1) s s.head refl (omega arith) ok

  -- A first page with a block to give makes the batch grow.
  pub fill_from_list-gain :
      (s : Filling) (p : ℕ) (ps : List ℕ)
      → FillOk s
      → s.head ≡ p ∷ ps
      → s.count < refill_batch
      → HasSpare size (s.pages p)
      → s.count < (fill_from_list size s).count
  unfolding fill_from_list
  fill_from_list-gain s p ps ok e few spare =
      let (t, first, ok', outcome, more, gain, frame) = fill_first-FillOk s ok p ps e few in
      let one_more : length s.head + 1 ≡ suc (length s.head) = omega arith in
      rw (one_more, fill_while_more (length s.head) s t few (ap (fill_first size s) e ∙ first))
        (still_more t (length s.head) ok' outcome (ap (length {A = ℕ}) e) (gain spare))
    where
      still_more :
          (t : Filling) (fuel : ℕ)
          → FillOk t
          → (t.count ≡ refill_batch) ⊎ (t.head ≡ ps)
          → fuel ≡ suc (length ps)
          → s.count < t.count
          → s.count < (fill_while fuel size t).count
      still_more t fuel ok' (inl full) enough more = rw (fill_while_full fuel t full) more
      still_more t fuel ok' (inr rest) enough more =
          let (done, ends, more', frame') = fill_while-FillOk fuel t ps rest (omega arith) ok' in
          omega (arith, more, more')
