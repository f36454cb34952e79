-- ===== src/Heap/Links.antt =====
-- src/heap.rs: the pointers of `link_partial` and `unlink_partial`, for the list of pages that they
-- stand for. The flag of the page is in `link_page` and `unlink_page`.
use allox.Prelude.{
  ℕ, ◌≤◌, ◌<◌, ◌≡◌, ◌≢◌, ◌⊎◌, inl, inr, refl, sym, ap, ◌∙◌, subst, false, List, [], ◌∷◌, arith,
  ◌==◌, if◌then◌else◌, occurrences, Bool-cases, ==_iff,
}

pub record PageLinks : Type 0 where
  pub head : ℕ
  pub prev : ℕ → ℕ
  pub next : ℕ → ℕ

abbrev pub set_at : (ℕ → ℕ) → ℕ → ℕ → ℕ → ℕ
set_at f key value k = if k == key then value else f k

-- A store behind a null test.
abbrev pub set_real : (ℕ → ℕ) → ℕ → ℕ → ℕ → ℕ
set_real f key value = if key == 0 then f else set_at f key value

unfoldable pub link_partial : PageLinks → ℕ → PageLinks
link_partial l p = record {
  head = p;
  prev = set_real (set_at l.prev p 0) l.head p;
  next = set_at l.next p l.head;
}

unfoldable pub unlink_partial : PageLinks → ℕ → PageLinks
unlink_partial l p =
    let prev = l.prev p in
    let next = l.next p in
    record {
      head = if prev == 0 then next else l.head;
      prev = set_at (set_real l.prev next prev) p 0;
      next = set_at (set_real l.next prev next) p 0;
    }

-- The pages that are linked both ways from `current` on, behind `before`.
abbrev pub Linked : (ℕ → ℕ) → (ℕ → ℕ) → ℕ → ℕ → List ℕ → Type 0
Linked prev next before current [] = current ≡ 0
Linked prev next before current (x ∷ xs) =
    (current ≡ x) × (0 < x) × (prev x ≡ before) × Linked prev next x (next x) xs

-- The pointers are those of the list.
abbrev pub Represents : PageLinks → List ℕ → Type 0
Represents l qs = Linked l.prev l.next 0 l.head qs × ((q : ℕ) → occurrences q qs ≤ 1)

pub set_at_here : (f : ℕ → ℕ) (key value : ℕ) → set_at f key value key ≡ value
set_at_here f key value = ground arith

pub set_at_else : (f : ℕ → ℕ) (key value k : ℕ) → k ≢ key → set_at f key value k ≡ f k
set_at_else f key value k ne = elim (Bool-cases (k == key)) [
  | inl e ↦ absurd (ne ((==_iff k key).0 e))
  | inr e ↦ rw e refl
]

pub set_real_else : (f : ℕ → ℕ) (key value k : ℕ) → k ≢ key → set_real f key value k ≡ f k
set_real_else f key value k ne = elim (Bool-cases (key == 0)) [
  | inl e ↦ rw e refl
  | inr e ↦ rw e (set_at_else f key value k ne)
]

pub set_real_here : (f : ℕ → ℕ) (key value : ℕ) → 0 < key → set_real f key value key ≡ value
set_real_here f key value some =
    let real : (key == 0) ≡ false = ground arith in rw real (set_at_here f key value)

pub apart : (y p : ℕ) (xs : List ℕ) → 1 ≤ occurrences y xs → occurrences p xs ≡ 0 → y ≢ p
apart y p xs on off e = omega (arith, on, off, ap (λ k. occurrences k xs) e)

pub head_on : (x : ℕ) (xs : List ℕ) → 1 ≤ occurrences x (x ∷ xs)
head_on x xs = ground arith

pub tail_on : (y x : ℕ) (xs : List ℕ) → 1 ≤ occurrences y xs → 1 ≤ occurrences y (x ∷ xs)
tail_on y x xs on = omega (arith, on)

pub Linked-agree :
    (prev next prev' next' : ℕ → ℕ) (before current : ℕ) (xs : List ℕ)
    → ((x : ℕ) → 1 ≤ occurrences x xs → (prev' x ≡ prev x) × (next' x ≡ next x))
    → Linked prev next before current xs
    → Linked prev' next' before current xs
Linked-agree prev next prev' next' before current [] same l = l
Linked-agree prev next prev' next' before current (x ∷ xs) same (here, some, back, rest) =
    let (same_prev, same_next) = same x (head_on x xs) in
    (
      here,
      some,
      same_prev ∙ back,
      Linked-agree prev next prev' next' x (next' x) xs (λ y on. same y (tail_on y x xs on))
          (subst (λ n. Linked prev next x n xs) (sym same_next) rest),
    )

-- A page that is linked has its neighbours in the list, or none.
pub record Around (prev next : ℕ → ℕ) (before p : ℕ) (xs : List ℕ) : Type 0 where
  pub behind : (prev p ≡ before) ⊎ (1 ≤ occurrences (prev p) xs)
  pub ahead : (next p ≡ 0) ⊎ (1 ≤ occurrences (next p) xs)

pub first_on :
    (prev next : ℕ → ℕ) (before current : ℕ) (xs : List ℕ)
    → Linked prev next before current xs
    → (current ≡ 0) ⊎ (1 ≤ occurrences current xs)
first_on prev next before current [] l = inl l
first_on prev next before current (x ∷ xs) (here, some, back, rest) = inr (ground (arith, here))

pub linked-Around :
    (prev next : ℕ → ℕ) (before current p : ℕ) (xs : List ℕ)
    → Linked prev next before current xs
    → 1 ≤ occurrences p xs
    → Around prev next before p xs
linked-Around prev next before current p [] l on = absurd (omega (arith, on))
linked-Around prev next before current p (x ∷ xs) (here, some, back, rest) on =
    elim (Bool-cases (x == p)) [
      | inl e ↦
          let same_page = (==_iff x p).0 e in
          subst (λ q. Around prev next before q (x ∷ xs)) same_page
            (record {
              behind = inl back;
              ahead = elim (first_on prev next x (next x) xs rest) [
                | inl none_there ↦ inl none_there
                | inr there ↦ inr (tail_on (next x) x xs there)
              ];
            })
      | inr e ↦
          let a = linked-Around prev next x (next x) p xs rest (ground (arith, on)) in
          record {
            behind = elim a.behind [
              | inl first ↦ inr (ground (arith, first))
              | inr there ↦ inr (tail_on (prev p) x xs there)
            ];
            ahead = elim a.ahead [
              | inl none_there ↦ inl none_there
              | inr there ↦ inr (tail_on (next p) x xs there)
            ];
          }
    ]

pub linked_real :
    (prev next : ℕ → ℕ) (before current : ℕ) (xs : List ℕ)
    → Linked prev next before current xs
    → occurrences 0 xs ≡ 0
linked_real prev next before current [] l = refl
linked_real prev next before current (x ∷ xs) (here, some, back, rest) =
    ground (arith, linked_real prev next x (next x) xs rest)

-- The page that is first has what is before the list behind it; any other has a page of the list.
pub first_behind :
    (prev next : ℕ → ℕ) (before current p : ℕ) (xs : List ℕ)
    → Linked prev next before current xs
    → 1 ≤ occurrences p xs
    → current ≡ p
    → prev p ≡ before
first_behind prev next before current p [] l on e = absurd (omega (arith, on))
first_behind prev next before current p (x ∷ xs) (here, some, back, rest) on e =
    subst (λ q. prev q ≡ before) (sym here ∙ e) back

pub later_behind :
    (prev next : ℕ → ℕ) (before current p : ℕ) (xs : List ℕ)
    → Linked prev next before current xs
    → 1 ≤ occurrences p xs
    → current ≢ p
    → 1 ≤ occurrences (prev p) xs
later_behind prev next before current p [] l on ne = absurd (omega (arith, on))
later_behind prev next before current p (x ∷ xs) (here, some, back, rest) on ne =
    let in_tail : 1 ≤ occurrences p xs = elim (Bool-cases (x == p)) [
      | inl e ↦ absurd (ne (here ∙ (==_iff x p).0 e))
      | inr e ↦ ground (arith, on)
    ] in
    elim (linked-Around prev next x (next x) p xs rest in_tail).behind [
      | inl first ↦ ground (arith, first)
      | inr there ↦ tail_on (prev p) x xs there
    ]
