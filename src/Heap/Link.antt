-- ===== src/Heap/Link.antt =====
-- src/heap.rs: after `link_partial` the pointers are those of the list of `link_page`.
use allox.Prelude.{
  ℕ, ◌<◌, ◌≡◌, inl, inr, refl, sym, ap, ◌∙◌, subst, List, [], ◌∷◌, arith, ◌==◌, occurrences,
  Bool-cases, ==_iff,
}
use allox.Heap.{Filling, link_page}
use allox.Heap.Links.{
  PageLinks, set_at, set_real, link_partial, Linked, Represents, set_at_here, set_at_else,
  set_real_else, set_real_here, apart, head_on, tail_on, Linked-agree, first_on,
}

module _ (l : PageLinks) (p : ℕ) where
  pushed-Linked :
      (qs : List ℕ)
      → Represents l qs
      → occurrences p qs ≡ 0
      → Linked (link_partial l p).prev (link_partial l p).next p l.head qs
  unfolding link_partial
  pushed-Linked [] (linked, once) off = linked
  pushed-Linked (z ∷ zs) ((here, some, back, rest), once) off =
      let no_more : occurrences z zs ≡ 0 = ground (arith, once z) in
      let still = set_at_else l.next p l.head z (apart z p (z ∷ zs) (head_on z zs) off) in
      (
        here,
        some,
        subst (λ q. set_real (set_at l.prev p 0) q p z ≡ p) (sym here)
            (set_real_here (set_at l.prev p 0) z p some),
        Linked-agree l.prev l.next (link_partial l p).prev (link_partial l p).next z
            (set_at l.next p l.head z) zs
            (λ y on.
              let other = apart y p (z ∷ zs) (tail_on y z zs on) off in
              (
                set_real_else (set_at l.prev p 0) l.head p y
                      (λ s. apart y z zs on no_more (s ∙ here))
                    ∙ set_at_else l.prev p 0 y other,
                set_at_else l.next p l.head y other,
              ))
            (subst (λ n. Linked l.prev l.next z n zs) (sym still) rest),
      )

  -- `link_partial` on a page that is not in the list puts it in front.
  link_partial-Represents :
      (qs : List ℕ)
      → Represents l qs
      → 0 < p
      → occurrences p qs ≡ 0
      → Represents (link_partial l p) (p ∷ qs)
  unfolding link_partial
  link_partial-Represents qs (linked, once) some off = (
    (
      refl,
      some,
      set_real_else (set_at l.prev p 0) l.head p p (λ s. not_head s) ∙ set_at_here l.prev p 0,
      subst (λ n. Linked (link_partial l p).prev (link_partial l p).next p n qs)
          (sym (set_at_here l.next p l.head)) (pushed-Linked qs (linked, once) off),
    ),
    λ q. elim (Bool-cases (q == p)) [
      | inl e ↦ ground (arith, ap (λ k. occurrences k qs) ((==_iff q p).0 e))
      | inr e ↦ ground (arith, once q)
    ],
  )
    where
      not_head : p ≡ l.head → ⊥
      not_head s = elim (first_on l.prev l.next 0 l.head qs linked) [
        | inl none_there ↦ omega (arith, some, s, none_there)
        | inr there ↦ apart l.head p qs there off (sym s)
      ]

-- A page that is not in the partial list, once it is linked, is in front of it.
pub link_page-Represents :
    (l : PageLinks) (s : Filling) (p : ℕ)
    → Represents l s.head
    → 0 < p
    → occurrences p s.head ≡ 0
    → Represents (link_partial l p) (link_page s p).head
unfolding link_page
link_page-Represents l s p rep some off = link_partial-Represents l p s.head rep some off
