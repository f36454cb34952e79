-- ===== src/Heap/Take.antt =====
-- src/heap.rs: `take_blocks` of one class: what it keeps of the class and what its batch is.
use allox.Prelude.{
  ℕ, ◌-◌, ◌≤◌, ◌≡◌, inl, inr, refl, ap, ◌∙◌, subst, Bool, true, false, Option, none, some, List, [],
  ◌∷◌, arith, length, occurrences, ltb, ◌==◌, if◌then◌else◌, Bool-cases,
}
use allox.Classes.{page_size}
use allox.Pages.{header_size}
use allox.Heap.{laid, Page, fresh_page, Filling, fill_from_list, page_capacity, ColdPage, ClassList}
use allox.Heap.Class.{
  Taking, if_none, lock, fill_with, dirty_page, take_empty, take_cold, take_locked, take_mapped,
}
use allox.Heap.Blocks.{InPage}
use allox.Heap.Fill.{held}
use allox.Heap.Loop.{FillOk, fill_from_list-FillOk}
use allox.Heap.Park.{Ready, held_none, fill_with-FillOk}
use allox.Heap.Shelf.{Parked, shelved, AllSome, ShelfOk, ShelfOk-others, pop_empty, pop_cold}

pub if_none_lem :
    (P : Taking → Type 0) (t next : Taking)
    → ((t.fill.count == 0) ≡ false → P t)
    → (t.fill.count ≡ 0 → P next)
    → P (if_none t next)
if_none_lem P t next some_blocks no_blocks = elim (Bool-cases (t.fill.count == 0)) [
  | inl none_left ↦ simp none_left (no_blocks (ground arith))
  | inr left ↦ simp left (some_blocks left)
]

module _ (clean : ℕ → Type 0) (size : ℕ) (sized : 16 ≤ size) (out : List ℕ) where
  pub record TakingOk (t : Taking) : Type 0 where
    pub fill : FillOk size sized clean out t.fill
    pub shelf : ShelfOk clean t.fill.pages t.empty t.empty_count t.cold t.cold_bytes

  filled-TakingOk :
      (t : Taking) → TakingOk t → TakingOk (record t { fill = fill_from_list size t.fill })
  filled-TakingOk t ok =
      let (done, ends, more, frame) = fill_from_list-FillOk size sized clean out t.fill ok.fill in
      record {
        fill = done;
        shelf =
            ShelfOk-others clean t.fill.pages (fill_from_list size t.fill).pages t.empty
              t.empty_count t.cold t.cold_bytes (λ q on off. frame q off) ok.shelf;
      }

  page_capacity_pos : size ≤ page_size - header_size → 1 ≤ page_capacity size
  unfolding page_capacity
  page_capacity_pos roomy = grind arith

  module _ (roomy : size ≤ page_size - header_size) (s : Filling) (few : s.count ≡ 0)
      (ok : FillOk size sized clean out s) (p : ℕ) (parked : Parked s.pages p) where
    no_chain : (xs : List ℕ) → length xs ≡ 0 → xs ≡ []
    no_chain [] e = refl
    no_chain (x ∷ xs) e = absurd (omega arith)

    none_out : held p out ≡ 0
    none_out = omega (arith, ok.used p parked.aligned, parked.unused)

    -- The header that `init` gives.
    fresh-Ready :
        (virgin : Bool)
        → (virgin ≡ true → (b : ℕ) → InPage p b → clean b)
        → Ready size sized clean out p (record fresh_page { virgin = virgin })
    fresh-Ready virgin wiped = record {
      ok = record { counted = refl; room = omega arith; inside = tt };
      unused = refl;
      wiped = wiped;
      balance = λ x i. unfold laid in omega (arith, held_none p x out i none_out);
      spare = inr (omega (arith, page_capacity_pos roomy));
    }

    -- The header that a parked page still has.
    parked-Ready : Ready size sized clean out p (s.pages p)
    parked-Ready = record {
      ok = ok.pages p;
      unused = parked.unused;
      wiped = ok.wiped p parked.aligned;
      balance = λ x i. omega (
        arith,
        ok.balance p x parked.aligned i,
        ap (occurrences x) (no_chain s.chain (ok.chain.counted ∙ few)),
      );
      spare = elim (Bool-cases (ltb 0 (length (s.pages p).free))) [
        | inl has ↦ inl (ground arith)
        | inr none_free ↦
            inr (ground (arith, page_capacity_pos roomy, (ok.pages p).counted, parked.unused))
      ];
    }

    -- The page leaves the shelf for the front of the partial list.
    refilled-TakingOk :
        (page : Page) (virgin : Bool) (empty : List ℕ) (count : ℕ) (cold : List ColdPage)
        (bytes : ℕ)
        → Ready size sized clean out p page
        → shelved p empty cold ≡ 0
        → ShelfOk clean s.pages empty count cold bytes
        → TakingOk (record {
          fill = fill_with size s p page virgin;
          empty = empty;
          empty_count = count;
          cold = cold;
          cold_bytes = bytes;
        })
          × (1 ≤ (fill_with size s p page virgin).count)
    refilled-TakingOk page virgin empty count cold bytes ready off shelf =
        let (done, gain, frame) =
          fill_with-FillOk size sized clean out s ok few p parked.aligned parked.unlinked
            parked.unused page ready virgin in
        (
          record {
            fill = done;
            shelf =
                ShelfOk-others clean s.pages (fill_with size s p page virgin).pages empty count cold
                  bytes
                  (λ q on off_q.
                    frame q (λ e. absurd (omega (arith, ap (λ r. shelved r empty cold) e))) off_q)
                  shelf;
          },
          gain,
        )

  module _ (roomy : size ≤ page_size - header_size) (t : Taking) (few : t.fill.count ≡ 0)
      (ok : TakingOk t) where
    take_empty-TakingOk :
        (empty : List ℕ)
        → t.empty ≡ empty
        → TakingOk (take_empty size t empty)
          × ((take_empty size t empty).fill.count ≡ 0
              → (empty ≡ []) × (take_empty size t empty ≡ t))
    unfolding take_empty
    take_empty-TakingOk [] e = (ok, λ h. (refl, refl))
    take_empty-TakingOk (p ∷ rest) e =
        let shelf =
          subst (λ es. ShelfOk clean t.fill.pages es t.empty_count t.cold t.cold_bytes) e
            ok.shelf in
        let (parked, off, shelf') =
          pop_empty clean t.fill.pages t.empty_count t.cold_bytes rest p t.cold shelf in
        let refilled = λ (page : Page) (virgin : Bool).
          refilled-TakingOk roomy t.fill few ok.fill p parked page virgin rest (t.empty_count - 1)
            t.cold t.cold_bytes in
        elim (Bool-cases (t.fill.pages p).needs_reinit) [
          | inl reinit ↦
              let (done, gain) =
                refilled dirty_page false
                  (fresh-Ready roomy t.fill few ok.fill p parked false (λ v. cc)) off shelf' in
              rw reinit (done, λ h. absurd (omega (arith, gain)))
          | inr ready ↦
              let (done, gain) =
                refilled (t.fill.pages p) (if (t.fill.pages p).virgin then t.fill.virgin else false)
                  (parked-Ready roomy t.fill few ok.fill p parked) off shelf' in
              simp ready (done, λ h. absurd (omega (arith, gain)))
        ]

    take_cold-TakingOk :
        (cold : List ColdPage)
        → t.cold ≡ cold
        → TakingOk (take_cold size t cold)
          × ((take_cold size t cold).fill.count ≡ 0 → (cold ≡ []) × (take_cold size t cold ≡ t))
    unfolding take_cold
    take_cold-TakingOk [] e = (ok, λ h. (refl, refl))
    take_cold-TakingOk (c ∷ rest) e =
        let shelf =
          subst (λ cs. ShelfOk clean t.fill.pages t.empty t.empty_count cs t.cold_bytes) e
            ok.shelf in
        let (parked, off, shelf') =
          pop_cold clean t.fill.pages t.empty_count t.cold_bytes t.empty c rest shelf in
        let refilled = λ (page : Page) (virgin : Bool).
          refilled-TakingOk roomy t.fill few ok.fill c.page parked page virgin t.empty t.empty_count
            rest (t.cold_bytes - page_size) in
        elim (Bool-cases c.zeroed) [
          | inl zeroed ↦
              let (done, gain) =
                refilled fresh_page true
                  (fresh-Ready roomy t.fill few ok.fill c.page parked true
                    (λ v. shelf.wiped.0 zeroed))
                  off shelf' in
              rw zeroed (done, λ h. absurd (omega (arith, gain)))
          | inr dirty ↦
              let (done, gain) =
                refilled dirty_page false
                  (fresh-Ready roomy t.fill few ok.fill c.page parked false (λ v. cc)) off shelf' in
              rw dirty (done, λ h. absurd (omega (arith, gain)))
        ]

    unmarked : FillOk size sized clean out (record (t.fill) { virgin = false })
    unmarked = record {
      pages = ok.fill.pages;
      wiped = ok.fill.wiped;
      distinct = ok.fill.distinct;
      linked = ok.fill.linked;
      listed = ok.fill.listed;
      aligned = ok.fill.aligned;
      chain = record {
        batch = ok.fill.chain.batch;
        counted = ok.fill.chain.counted;
        cleaned = λ v. cc;
      };
      balance = ok.fill.balance;
      used = ok.fill.used;
    }

    -- A page from the kernel that the class does not have, with nothing written to it yet.
    pub take_mapped-TakingOk :
        (mapped : Option ℕ)
        → AllSome
            (λ p.
              Parked t.fill.pages p
              × (shelved p t.empty t.cold ≡ 0)
              × ((b : ℕ) → InPage p b → clean b))
            mapped
        → TakingOk (take_mapped size t mapped)
          × (AllSome (λ p. 1 ≤ (take_mapped size t mapped).fill.count) mapped)
    unfolding take_mapped
    take_mapped-TakingOk none h = (record { fill = unmarked; shelf = ok.shelf }, tt)
    take_mapped-TakingOk (some p) (parked, off, wiped) =
        refilled-TakingOk roomy t.fill few ok.fill p parked fresh_page t.fill.virgin t.empty
          t.empty_count t.cold t.cold_bytes
          (fresh-Ready roomy t.fill few ok.fill p parked true (λ v. wiped)) off ok.shelf

  module _ (roomy : size ≤ page_size - header_size) (l : ClassList)
      (ok : TakingOk (lock l [] 0 true)) where
    -- The locked part takes no block only if there is no page that could give one.
    pub take_locked-TakingOk :
        TakingOk (take_locked size l)
        × ((take_locked size l).fill.count ≡ 0
            → ((take_locked size l).fill.head ≡ [])
              × ((take_locked size l).empty ≡ [])
              × ((take_locked size l).cold ≡ []))
    unfolding take_locked
    take_locked-TakingOk =
        let start = lock l [] 0 true in
        let filled = record start { fill = fill_from_list size (start.fill) } in
        let refilled = if_none filled (take_empty size filled filled.empty) in
        let filled_ok = filled-TakingOk start ok in
        let no_head : filled.fill.count ≡ 0 → filled.fill.head ≡ [] = λ none_left.
          elim (fill_from_list-FillOk size sized clean out start.fill ok.fill).1 [
            | inl full ↦ absurd (omega arith)
            | inr none_head ↦ none_head
          ] in
        let (refilled_ok, no_pages) =
          if_none_lem (λ t. TakingOk t × (t.fill.count ≡ 0 → (t.fill.head ≡ []) × (t.empty ≡ [])))
            filled (take_empty size filled filled.empty)
            (λ left. (filled_ok, λ none_left. absurd (ground arith)))
            (λ few.
              let (done, gone) = take_empty-TakingOk roomy filled few filled_ok filled.empty refl in
              (
                done,
                λ none_left.
                    let (none_empty, same_t) = gone none_left in
                    (
                      ap (λ (t : Taking). t.fill.head) same_t ∙ no_head few,
                      ap (λ (t : Taking). t.empty) same_t ∙ none_empty,
                    ),
              )) in
        if_none_lem
          (λ t.
            TakingOk t × (t.fill.count ≡ 0 → (t.fill.head ≡ []) × (t.empty ≡ []) × (t.cold ≡ [])))
          refilled (take_cold size refilled refilled.cold)
          (λ left. (refilled_ok, λ none_left. absurd (ground arith)))
          (λ few.
            let (done, gone) =
              take_cold-TakingOk roomy refilled few refilled_ok refilled.cold refl in
            (
              done,
              λ none_left.
                  let (none_cold, same_t) = gone none_left in
                  let (none_head, none_empty) = no_pages few in
                  (
                    ap (λ (t : Taking). t.fill.head) same_t ∙ none_head,
                    ap (λ (t : Taking). t.empty) same_t ∙ none_empty,
                    ap (λ (t : Taking). t.cold) same_t ∙ none_cold,
                  ),
            ))
