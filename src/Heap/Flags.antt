-- ===== src/Heap/Flags.antt =====
-- src/heap.rs: `link_partial` and `unlink_partial` keep what holds of a class.
use allox.Prelude.{
  sym, ◌∙◌, ℕ, ◌+◌, ◌%◌, ◌≤◌, ◌≡◌, ◌≢◌, inl, inr, refl, subst, Bool, true, false, List, [], ◌∷◌,
  arith, All, occurrences, same, total-append, ◌++◌, ◌==◌, Bool-cases,
}
use allox.Classes.{page_size}
use allox.Pages.Chain.{Avoids}
use allox.Heap.{Page, Store, put, Filling, link_page, unlink_page, without}
use allox.Heap.Blocks.{InPage, PageOk, grid}
use allox.Heap.Fill.{held, in_page}
use allox.Heap.Loop.{Distinct, FillOk, All-others}
use allox.Heap.Park.{unlinked-Avoids}

without-Avoids : (p x : ℕ) (qs : List ℕ) → Avoids x qs → Avoids x (without p qs)
without-Avoids p x [] h = refl
without-Avoids p x (q ∷ qs) (ne, away) = elim (Bool-cases (q == p)) [
  | inl here ↦ rw here away
  | inr there ↦ rw there (ne, without-Avoids p x qs away)
]

without-Distinct : (p : ℕ) (qs : List ℕ) → Distinct qs → Distinct (without p qs)
without-Distinct p [] h = refl
without-Distinct p (q ∷ qs) (away, apart) = elim (Bool-cases (q == p)) [
  | inl here ↦ rw here apart
  | inr there ↦ rw there (without-Avoids p q qs away, without-Distinct p qs apart)
]

-- A page that is in the list at most once is in it no more.
without_self : (p : ℕ) (qs : List ℕ) → Distinct qs → Avoids p (without p qs)
without_self p [] h = refl
without_self p (q ∷ qs) (away, apart) = elim (Bool-cases (q == p)) [
  | inl here ↦ rw here (subst (λ r. Avoids r qs) (ground arith) away)
  | inr there ↦ rw there (λ e. absurd (ground arith), without_self p qs apart)
]

without-All {κ} : (P : ℕ → Type κ) (p : ℕ) (qs : List ℕ) → All P qs → All P (without p qs)
without-All P p [] h = tt
without-All P p (q ∷ qs) (here, rest) = elim (Bool-cases (q == p)) [
  | inl found ↦ rw found rest
  | inr other ↦ rw other (here, without-All P p qs rest)
]

without_other : (p q : ℕ) (qs : List ℕ) → q ≢ p → occurrences q (without p qs) ≡ occurrences q qs
without_other p q [] ne = refl
without_other p q (r ∷ qs) ne = elim (Bool-cases (r == p)) [
  | inl here ↦ ground arith
  | inr there ↦ ground (arith, without_other p q qs ne)
]

-- The header of `p` changes in its flag only.
abbrev flagged : Store → ℕ → Bool → Store
flagged pages p b = put pages p (record (pages p) { in_partial = b })

module _ (s : Filling) (p : ℕ) where
  pub link_page_others :
      ((q : ℕ) → q ≢ p → (link_page s p).pages q ≡ s.pages q) × ((link_page s p).chain ≡ s.chain)
  unfolding link_page
  link_page_others = (λ q ne. ground arith, refl)

  pub unlink_page_others :
      ((q : ℕ) → q ≢ p → (unlink_page s p).0.pages q ≡ s.pages q)
      × (((unlink_page s p).0.pages p).used ≡ (s.pages p).used)
      × ((unlink_page s p).0.chain ≡ s.chain)
  unfolding unlink_page
  unlink_page_others = (λ q ne. ground arith, ground arith, ground arith)

-- The list goes back under the lock, and the batch is out.
pub rested :
    (size : ℕ) (sized : 16 ≤ size) (clean : ℕ → Type 0) (out : List ℕ) (s : Filling)
    → FillOk size sized clean out s
    → FillOk size sized clean
        (s.chain ++ out)
        (record { head = s.head; pages = s.pages; chain = []; count = 0; virgin = false })
rested size sized clean out s ok = record {
  pages = ok.pages;
  wiped = ok.wiped;
  distinct = ok.distinct;
  linked = ok.linked;
  listed = ok.listed;
  aligned = ok.aligned;
  chain = record { batch = omega arith; counted = refl; cleaned = λ v. cc };
  balance = λ q x at i. omega (arith, ok.balance q x at i, total-append (same x) s.chain out);
  used = λ q at. omega (arith, ok.used q at, total-append (in_page q) s.chain out);
}

module _ (size : ℕ) (sized : 16 ≤ size) (clean : ℕ → Type 0) (out : List ℕ) (s : Filling)
    (ok : FillOk size sized clean out s) (p : ℕ) where
  flagged-FillOk :
      (b : Bool) (head : List ℕ)
      → Distinct head
      → All (λ q. (flagged s.pages p b q).in_partial ≡ true) head
      → ((q : ℕ) → (flagged s.pages p b q).in_partial ≡ true → 1 ≤ occurrences q head)
      → All (λ q. q % page_size ≡ 0) head
      → FillOk size sized clean out (record s { head = head; pages = flagged s.pages p b })
  flagged-FillOk b head distinct linked listed aligned = record {
    pages =
        each (λ q h. PageOk size sized q h)
          (λ q h. record { counted = h.counted; room = h.room; inside = h.inside }) ok.pages;
    wiped =
        each (λ q h. q % page_size ≡ 0 → h.virgin ≡ true → (x : ℕ) → InPage q x → clean x)
          (λ q h. h) ok.wiped;
    distinct = distinct;
    linked = linked;
    listed = listed;
    aligned = aligned;
    chain = record {
      batch = ok.chain.batch;
      counted = ok.chain.counted;
      cleaned = ok.chain.cleaned;
    };
    balance = λ q x at i.
        each
          (λ q h.
            q % page_size ≡ 0
            → InPage q x
            → occurrences x h.free + occurrences x s.chain + occurrences x out
              ≡ occurrences x (grid size sized q (h.used + h.free_count)))
          (λ q h. h) (λ q at i. ok.balance q x at i) q at i;
    used =
        each (λ q h. q % page_size ≡ 0 → h.used ≡ held q s.chain + held q out) (λ q h. h) ok.used;
  }
    where
      each :
          (P : ℕ → Page → Type 0)
          → ((q : ℕ) → P q (s.pages q) → P q (record (s.pages q) { in_partial = b }))
          → ((q : ℕ) → P q (s.pages q))
          → (q : ℕ) → P q (flagged s.pages p b q)
      each P change h q = elim (Bool-cases (q == p)) [
        | inl here ↦
            let e : q ≡ p = ground arith in
            simp here (subst (λ r. P q (record (s.pages r) { in_partial = b })) e (change q (h q)))
        | inr other ↦ simp other (h q)
      ]

  pub link_page-FillOk :
      p % page_size ≡ 0
      → (s.pages p).in_partial ≡ false
      → FillOk size sized clean out (link_page s p)
  unfolding link_page
  link_page-FillOk at off =
      let away = unlinked-Avoids s.pages p s.head off ok.linked in
      flagged-FillOk true (p ∷ s.head) (away, ok.distinct)
        (
          ground arith,
          All-others (λ h. h.in_partial ≡ true) s.pages (flagged s.pages p true) p s.head
              (λ q ne. ground arith) away ok.linked,
        )
        (λ q on. elim (Bool-cases (q == p)) [
          | inl here ↦ ground arith
          | inr other ↦ omega (arith, ok.listed q (sym (simp other refl) ∙ on))
        ])
        (at, ok.aligned)

  pub unlink_page-FillOk :
      FillOk size sized clean out (unlink_page s p).0
      × (((unlink_page s p).0.pages p).in_partial ≡ false)
  unfolding unlink_page
  unlink_page-FillOk = elim (Bool-cases (s.pages p).in_partial) [
    | inr off ↦ simp off (ok, refl)
    | inl on ↦ simp on (
      flagged-FillOk false (without p s.head) (without-Distinct p s.head ok.distinct)
          (All-others (λ h. h.in_partial ≡ true) s.pages (flagged s.pages p false) p
            (without p s.head) (λ q ne. ground arith) (without_self p s.head ok.distinct)
            (without-All (λ q. (s.pages q).in_partial ≡ true) p s.head ok.linked))
          (λ q on. elim (Bool-cases (q == p)) [
            | inl here ↦ absurd (ground arith)
            | inr other ↦
                let before = ok.listed q (sym (simp other refl) ∙ on) in
                omega (arith, before, without_other p q s.head (ground arith))
          ])
          (without-All (λ q. q % page_size ≡ 0) p s.head ok.aligned),
      ground arith,
    )
  ]
