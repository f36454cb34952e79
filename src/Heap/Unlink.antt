-- ===== src/Heap/Unlink.antt =====
-- src/heap.rs: after `unlink_partial` the pointers are those of the list of `unlink_page`.
use allox.Prelude.{
  ℕ, ◌≤◌, ◌<◌, ◌≡◌, ◌≢◌, inl, inr, refl, sym, ◌∙◌, subst, true, false, List, [], ◌∷◌, arith, ◌==◌,
  if◌then◌else◌, occurrences, Bool-cases, ==_iff,
}
use allox.Heap.{Filling, without, unlink_page}
use allox.Heap.Links.{
  PageLinks, set_real, unlink_partial, Linked, Represents, set_at_else, set_real_else,
  set_real_here, apart, head_on, tail_on, Linked-agree, linked-Around, linked_real, first_behind,
  later_behind,
}

module _ (l : PageLinks) (p : ℕ) where
  abbrev after : PageLinks
  after = unlink_partial l p

  prev_kept : (a : ℕ) → a ≢ p → a ≢ l.next p → after.prev a ≡ l.prev a
  unfolding unlink_partial
  prev_kept a ne ne' =
      set_at_else (set_real l.prev (l.next p) (l.prev p)) p 0 a ne
      ∙ set_real_else l.prev (l.next p) (l.prev p) a ne'

  next_kept : (a : ℕ) → a ≢ p → a ≢ l.prev p → after.next a ≡ l.next a
  unfolding unlink_partial
  next_kept a ne ne' =
      set_at_else (set_real l.next (l.prev p) (l.next p)) p 0 a ne
      ∙ set_real_else l.next (l.prev p) (l.next p) a ne'

  prev_bent : (z : ℕ) → 0 < z → z ≢ p → l.next p ≡ z → after.prev z ≡ l.prev p
  unfolding unlink_partial
  prev_bent z some ne e =
      set_at_else (set_real l.prev (l.next p) (l.prev p)) p 0 z ne
      ∙ subst (λ q. set_real l.prev q (l.prev p) z ≡ l.prev p) (sym e)
          (set_real_here l.prev z (l.prev p) some)

  next_bent : (x : ℕ) → 0 < x → x ≢ p → l.prev p ≡ x → after.next x ≡ l.next p
  unfolding unlink_partial
  next_bent x some ne e =
      set_at_else (set_real l.next (l.prev p) (l.next p)) p 0 x ne
      ∙ subst (λ q. set_real l.next q (l.next p) x ≡ l.next p) (sym e)
          (set_real_here l.next x (l.next p) some)

  -- The pages behind `p` are linked on to what was before it.
  rest-Linked :
      (before : ℕ) (zs : List ℕ)
      → l.prev p ≡ before
      → Linked l.prev l.next p (l.next p) zs
      → occurrences p zs ≡ 0
      → occurrences before zs ≡ 0
      → ((q : ℕ) → occurrences q zs ≤ 1)
      → Linked after.prev after.next before (l.next p) zs
  rest-Linked before [] e linked off away once = linked
  rest-Linked before (z ∷ zs) e (here, some, back, rest) off away once =
      let ne : z ≢ p = apart z p (z ∷ zs) (head_on z zs) off in
      let ne' : z ≢ before = apart z before (z ∷ zs) (head_on z zs) away in
      let no_more : occurrences z zs ≡ 0 = ground (arith, once z) in
      let still : after.next z ≡ l.next z = next_kept z ne (λ s. ne' (s ∙ e)) in
      (
        here,
        some,
        prev_bent z some ne here ∙ e,
        Linked-agree l.prev l.next after.prev after.next z (after.next z) zs
            (λ y on.
              let other = apart y p (z ∷ zs) (tail_on y z zs on) off in
              let other' = apart y before (z ∷ zs) (tail_on y z zs on) away in
              (
                prev_kept y other (λ s. apart y z zs on no_more (s ∙ here)),
                next_kept y other (λ s. other' (s ∙ e)),
              ))
            (subst (λ n. Linked l.prev l.next z n zs) (sym still) rest),
      )

  abbrev onward : ℕ → ℕ
  onward current = if current == p then l.next p else current

  unlink-Linked :
      (before current : ℕ) (xs : List ℕ)
      → Linked l.prev l.next before current xs
      → 1 ≤ occurrences p xs
      → ((q : ℕ) → occurrences q xs ≤ 1)
      → occurrences before xs ≡ 0
      → Linked after.prev after.next before (onward current) (without p xs)
  unlink-Linked before current [] linked on once away = absurd (omega (arith, on))
  unlink-Linked before current (x ∷ xs) (here, some, back, rest) on once away =
      elim (Bool-cases (x == p)) [
        | inl e ↦
            let same_page = (==_iff x p).0 e in
            let at_p : (current == p) ≡ true = ground (arith, here, same_page) in
            rw (at_p, e)
              (rest-Linked before xs (subst (λ q. l.prev q ≡ before) same_page back)
                (subst (λ q. Linked l.prev l.next q (l.next q) xs) same_page rest)
                (ground (arith, once p)) (ground (arith, away)) (λ q. ground (arith, once q)))
        | inr e ↦
            let ne : x ≢ p = λ s. absurd (ground (arith, s)) in
            let past : (current == p) ≡ false = ground (arith, here) in
            let in_tail : 1 ≤ occurrences p xs = ground (arith, on) in
            let no_more : occurrences x xs ≡ 0 = ground (arith, once x) in
            let before_x : after.prev x ≡ l.prev x = prev_kept x ne (λ s.
              elim (linked-Around l.prev l.next x (l.next x) p xs rest in_tail).ahead [
                | inl none_there ↦ omega (arith, some, s, none_there)
                | inr there ↦ apart (l.next p) x xs there no_more (sym s)
              ]) in
            let behind_x : after.next x ≡ onward (l.next x) = elim (Bool-cases (l.next x == p)) [
              | inl next_p ↦
                  let at_next = (==_iff (l.next x) p).0 next_p in
                  rw next_p (
                    next_bent x some ne
                      (first_behind l.prev l.next x (l.next x) p xs rest in_tail at_next))
              | inr not_p ↦
                  let there =
                    later_behind l.prev l.next x (l.next x) p xs rest in_tail
                      (λ s. absurd (ground (arith, s))) in
                  rw not_p (next_kept x ne (λ s. apart (l.prev p) x xs there no_more (sym s)))
            ] in
            rw (past, e)
              (
                here,
                some,
                before_x ∙ back,
                subst (λ n. Linked after.prev after.next x n (without p xs)) (sym behind_x)
                    (unlink-Linked x (l.next x) xs rest in_tail (λ q. ground (arith, once q))
                      no_more),
              )
      ]

  without_fewer : (q : ℕ) (xs : List ℕ) → occurrences q (without p xs) ≤ occurrences q xs
  without_fewer q [] = omega arith
  without_fewer q (x ∷ xs) = elim (Bool-cases (x == p)) [
    | inl e ↦ rw e (omega arith)
    | inr e ↦ rw e (omega (arith, without_fewer q xs))
  ]

  head_onward : (qs : List ℕ) → Represents l qs → 1 ≤ occurrences p qs → onward l.head ≡ after.head
  unfolding unlink_partial
  head_onward qs (linked, once) on = elim (Bool-cases (l.head == p)) [
    | inl e ↦
        let first : (l.prev p == 0) ≡ true =
          ground
            (arith, first_behind l.prev l.next 0 l.head p qs linked on ((==_iff l.head p).0 e)) in
        rw (e, first) refl
    | inr e ↦
        let there =
          later_behind l.prev l.next 0 l.head p qs linked on (λ s. absurd (ground (arith, s))) in
        let real = linked_real l.prev l.next 0 l.head qs linked in
        let later : (l.prev p == 0) ≡ false = elim (Bool-cases (l.prev p == 0)) [
          | inl none_there ↦
              absurd (apart (l.prev p) 0 qs there real ((==_iff (l.prev p) 0).0 none_there))
          | inr some ↦ some
        ] in
        rw (e, later) refl
  ]

  -- `unlink_partial` on a page of the list leaves the pointers of the list without it.
  unlink_partial-Represents :
      (qs : List ℕ) → Represents l qs → 1 ≤ occurrences p qs → Represents after (without p qs)
  unlink_partial-Represents qs (linked, once) on = (
    subst (λ h. Linked after.prev after.next 0 h (without p qs)) (head_onward qs (linked, once) on)
        (unlink-Linked 0 l.head qs linked on once (linked_real l.prev l.next 0 l.head qs linked)),
    λ q. omega (arith, without_fewer q qs, once q),
  )

-- When the pointers are those of the partial list, both ways, and no page is in it twice: after
-- `unlink_partial` on a page that is in the list, with its flag set, the pointers are those of the
-- list that `unlink_page` leaves, both ways, and no page is in that twice.
pub unlink_page-Represents :
    (l : PageLinks) (s : Filling) (p : ℕ)
    → Represents l s.head
    → (s.pages p).in_partial ≡ true
    → 1 ≤ occurrences p s.head
    → Represents (unlink_partial l p) (unlink_page s p).0.head
unfolding unlink_page
unlink_page-Represents l s p rep flag on = rw flag (unlink_partial-Represents l p s.head rep on)
