-- ===== src/Registry/Links.antt =====
-- src/lib.rs: the chains of `registry_next` through the headers, and what the walks find and bend.
use allox.Prelude.{
  ℕ, zero, suc, ◌-◌, ◌≤◌, ◌<◌, ◌≡◌, ◌≢◌, refl, sym, ap, subst, ◌∙◌, true, false, List, [], ◌∷◌,
  arith, ◌==◌, if◌then◌else◌, length, occurrences, Bool-cases, inl, inr, ==_iff,
}
use allox.Registry.{Registry, set_at, find_header, bend_past, unlink_header}
use allox.Registry.Buckets.{in_chain, cut_header}

-- The headers that `next` chains from `current` on, to null.
abbrev pub Linked : (ℕ → ℕ) → ℕ → List ℕ → Type 0
Linked next current [] = current ≡ 0
Linked next current (x ∷ xs) = (current ≡ x) × (0 < x) × Linked next (next x) xs

-- Headers that keep their successor keep their chain.
pub Linked-agree :
    (next next' : ℕ → ℕ) (current : ℕ) (xs : List ℕ)
    → ((x : ℕ) → 1 ≤ occurrences x xs → next' x ≡ next x)
    → Linked next current xs
    → Linked next' current xs
Linked-agree next next' current [] same l = l
Linked-agree next next' current (x ∷ xs) same (here, some, rest) =
    let kept : next' x ≡ next x = same x (ground arith) in
    (
      here,
      some,
      Linked-agree next next' (next' x) xs (λ y on. same y (ground arith))
          (subst (λ n. Linked next n xs) (sym kept) rest),
    )

pub set_at_here : (f : ℕ → ℕ) (key value : ℕ) → set_at f key value key ≡ value
set_at_here f key value = ground arith

pub set_at_else : (f : ℕ → ℕ) (key value k : ℕ) → k ≢ key → set_at f key value k ≡ f k
set_at_else f key value k ne = elim (Bool-cases (k == key)) [
  | inl e ↦ absurd (ne ((==_iff k key).0 e))
  | inr e ↦ rw e refl
]

pub find_header-in_chain :
    (next : ℕ → ℕ) (rounds expected current : ℕ) (xs : List ℕ)
    → Linked next current xs
    → length xs ≤ rounds
    → find_header rounds next expected current ≡ in_chain expected xs
unfolding find_header in_chain
find_header-in_chain next zero expected current [] l short = refl
find_header-in_chain next zero expected current (x ∷ xs) l short = absurd (omega arith)
find_header-in_chain next (suc rounds) expected current [] l short = rw l refl
find_header-in_chain next (suc rounds) expected current (x ∷ xs) (here, some, rest) short =
    let real : (x == 0) ≡ false = ground arith in
    rw (here, real)
      (ap (λ b. if x == expected then true else b)
        (find_header-in_chain next rounds expected (next x) xs rest (omega arith)))

-- What the walk behind a header `previous` makes of the registry, if it meets the header.
record Bent (r u : Registry) (hdr previous : ℕ) (xs : List ℕ) : Type 0 where
  heads : (k : ℕ) → u.heads k ≡ r.heads k
  len : u.len ≡ r.len - 1
  linked : Linked u.next (u.next previous) (cut_header hdr xs)
  others : (a : ℕ) → a ≢ previous → occurrences a xs ≡ 0 → u.next a ≡ r.next a

pub apart : (y p : ℕ) (xs : List ℕ) → 1 ≤ occurrences y xs → occurrences p xs ≡ 0 → y ≢ p
apart y p xs on off e = omega (arith, on, off, ap (λ k. occurrences k xs) e)

not_head : (a x : ℕ) (xs : List ℕ) → occurrences a (x ∷ xs) ≡ 0 → a ≢ x
not_head a x xs none_there e = ground (arith, none_there)

module _ (r : Registry) (bucket hdr : ℕ) where
  found_later :
      (x : ℕ) (xs : List ℕ)
      → (x == hdr) ≡ false
      → in_chain hdr (x ∷ xs) ≡ true
      → in_chain hdr xs ≡ true
  unfolding in_chain
  found_later x xs e found = ground arith

  unlink_header-Bent :
      (rounds previous : ℕ) (xs : List ℕ)
      → Linked r.next (r.next previous) xs
      → length xs ≤ rounds
      → 0 < previous
      → occurrences previous xs ≡ 0
      → ((a : ℕ) → occurrences a xs ≤ 1)
      → in_chain hdr xs ≡ true
      → Bent r (unlink_header rounds r bucket hdr previous (r.next previous)) hdr previous xs
  unfolding unlink_header bend_past in_chain cut_header
  unlink_header-Bent rounds previous [] l short real away once found = absurd cc
  unlink_header-Bent zero previous (x ∷ xs) l short real away once found = absurd (omega arith)
  unlink_header-Bent (suc rounds) previous (x ∷ xs) (here, some, rest) short real away once found =
      let nonnull : (x == 0) ≡ false = ground arith in
      let behind : (previous == 0) ≡ false = ground arith in
      rw (here, nonnull)
        (elim (Bool-cases (x == hdr)) [
          | inl e ↦
              rw (e, behind)
                (record {
                  heads = λ k. refl;
                  len = refl;
                  linked = rw e (
                      subst (λ n. Linked (set_at r.next previous (r.next x)) n xs)
                        (sym (set_at_here r.next previous (r.next x)))
                        (Linked-agree r.next (set_at r.next previous (r.next x)) (r.next x) xs
                          (λ y on.
                            set_at_else r.next previous (r.next x) y
                              (apart y previous xs on (ground arith)))
                          rest));
                  others = λ a ne none_there. set_at_else r.next previous (r.next x) a ne;
                })
          | inr e ↦ rw e (
              let once_x : occurrences x xs ≡ 0 = ground (arith, once x) in
              let b =
                unlink_header-Bent rounds x xs rest (omega arith) some once_x
                  (λ a. ground (arith, once a)) (found_later x xs e found) in
              let before : (unlink_header rounds r bucket hdr x (r.next x)).next previous ≡ x =
                b.others previous (not_head previous x xs away) (ground arith) ∙ here in
              record {
                heads = b.heads;
                len = b.len;
                linked = rw e (before, some, b.linked);
                others = λ a ne none_there. b.others a (not_head a x xs none_there) (ground arith);
              })
        ])

  -- A header that is not in the chain changes nothing.
  pub unlink_header_missed :
      (rounds previous current : ℕ) (xs : List ℕ)
      → Linked r.next current xs
      → in_chain hdr xs ≡ false
      → unlink_header rounds r bucket hdr previous current ≡ r
  unfolding unlink_header in_chain
  unlink_header_missed zero previous current xs l missed = refl
  unlink_header_missed (suc rounds) previous current [] l missed = rw l refl
  unlink_header_missed (suc rounds) previous current (x ∷ xs) (here, some, rest) missed =
      let nonnull : (x == 0) ≡ false = ground arith in
      let other : (x == hdr) ≡ false = ground arith in
      rw (here, nonnull, other) (unlink_header_missed rounds x (r.next x) xs rest (ground arith))

  -- The walk from the head of a bucket.
  pub record Cut (u : Registry) (xs : List ℕ) : Type 0 where
    pub len : u.len ≡ r.len - 1
    pub linked : Linked u.next (u.heads bucket) (cut_header hdr xs)
    pub heads : (k : ℕ) → k ≢ bucket → u.heads k ≡ r.heads k
    pub others : (a : ℕ) → occurrences a xs ≡ 0 → u.next a ≡ r.next a

  pub unlink_header-Cut :
      (rounds : ℕ) (xs : List ℕ)
      → Linked r.next (r.heads bucket) xs
      → length xs ≤ rounds
      → ((a : ℕ) → occurrences a xs ≤ 1)
      → in_chain hdr xs ≡ true
      → Cut (unlink_header rounds r bucket hdr 0 (r.heads bucket)) xs
  unfolding unlink_header bend_past in_chain cut_header
  unlink_header-Cut rounds [] l short once found = absurd cc
  unlink_header-Cut zero (x ∷ xs) l short once found = absurd (omega arith)
  unlink_header-Cut (suc rounds) (x ∷ xs) (here, some, rest) short once found =
      let nonnull : (x == 0) ≡ false = ground arith in
      rw (here, nonnull)
        (elim (Bool-cases (x == hdr)) [
          | inl e ↦ rw e (record {
            len = refl;
            linked = rw e (
                subst (λ n. Linked r.next n xs) (sym (set_at_here r.heads bucket (r.next x))) rest);
            heads = λ k ne. set_at_else r.heads bucket (r.next x) k ne;
            others = λ a none_there. refl;
          })
          | inr e ↦ rw e (
              let once_x : occurrences x xs ≡ 0 = ground (arith, once x) in
              let b =
                unlink_header-Bent rounds x xs rest (omega arith) some once_x
                  (λ a. ground (arith, once a)) (found_later x xs e found) in
              record {
                len = b.len;
                linked = rw e (b.heads bucket ∙ here, some, b.linked);
                heads = λ k ne. b.heads k;
                others = λ a none_there. b.others a (not_head a x xs none_there) (ground arith);
              })
        ])
