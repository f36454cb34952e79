-- ===== src/Registry/Mirrors.antt =====
-- src/lib.rs: the lists of the buckets hold the same headers as one list of them all.
use allox.Prelude.{
  ℕ, ◌+◌, ◌-◌, ◌≤◌, ◌≡◌, refl, ap, true, false, List, [], ◌∷◌, arith, ltb, ◌==◌, if◌then◌else◌,
  length, same, occurrences, ==_iff, sym, ◌∙◌, ◌≢◌, Bool-cases, inl, inr,
}
use native.Mathlib.Decide.{ℕ_discrete}
use allox.Registry.{legacy_bucket}
use allox.Registry.Buckets.{Buckets, set_bucket, add_header, in_chain, cut_header, drop_header}

pub in_chain-occurrences : (h : ℕ) (xs : List ℕ) → in_chain h xs ≡ ltb 0 (occurrences h xs)
unfolding in_chain
in_chain-occurrences h [] = refl
in_chain-occurrences h (x ∷ xs) = ground (arith, in_chain-occurrences h xs)

pub cut_header-occurrences :
    (hdr h : ℕ) (xs : List ℕ)
    → occurrences h (cut_header hdr xs)
      ≡ (if hdr == h then occurrences h xs - 1 else occurrences h xs)
unfolding cut_header
cut_header-occurrences hdr h [] = ground arith
cut_header-occurrences hdr h (x ∷ xs) = elim (Bool-cases (x == hdr)) [
  | inl e ↦ rw e (ground arith)
  | inr e ↦ rw e (ground (arith, cut_header-occurrences hdr h xs))
]

in_chain_some : (hdr : ℕ) (xs : List ℕ) → in_chain hdr xs ≡ true → 1 ≤ length xs
unfolding in_chain
in_chain_some hdr [] h = absurd cc
in_chain_some hdr (x ∷ xs) h = omega arith

pub length-cut_header :
    (hdr : ℕ) (xs : List ℕ)
    → length (cut_header hdr xs) ≡ (if in_chain hdr xs then length xs - 1 else length xs)
unfolding cut_header in_chain
length-cut_header hdr [] = refl
length-cut_header hdr (x ∷ xs) = elim (Bool-cases (x == hdr)) [
  | inl e ↦ rw e (omega arith)
  | inr e ↦ rw e (ground (arith, length-cut_header hdr xs, in_chain_some hdr xs))
]

-- Beside the buckets, one list of all headers in them.
pub record Mirrors (r : Buckets) (live : List ℕ) : Type 0 where
  pub chains : (h : ℕ) → occurrences h (r.buckets (legacy_bucket h)) ≡ occurrences h live
  pub counted : r.len ≡ length live

module _ (r : Buckets) (live : List ℕ) (m : Mirrors r live) (hdr : ℕ) where
  -- What a new chain for the bucket of `hdr` makes of the occurrences of a header.
  chain-occurrences :
      (chain : List ℕ) (h : ℕ)
      → (legacy_bucket h ≡ legacy_bucket hdr
          → occurrences h (set_bucket r.buckets (legacy_bucket hdr) chain (legacy_bucket h))
            ≡ occurrences h chain)
        × (legacy_bucket h ≢ legacy_bucket hdr
            → occurrences h (set_bucket r.buckets (legacy_bucket hdr) chain (legacy_bucket h))
              ≡ occurrences h live)
  unfolding set_bucket
  chain-occurrences chain h = (
    λ e. let hit : (legacy_bucket h == legacy_bucket hdr) ≡ true = ground arith in rw hit refl,
    λ ne.
        let miss : (legacy_bucket h == legacy_bucket hdr) ≡ false = ground arith in
        rw miss (m.chains h),
  )

  own_bucket :
      (h : ℕ)
      → legacy_bucket h ≡ legacy_bucket hdr
      → occurrences h (r.buckets (legacy_bucket hdr)) ≡ occurrences h live
  own_bucket h e = ap (λ k. occurrences h (r.buckets k)) (sym e) ∙ m.chains h

  apart : (h : ℕ) → legacy_bucket h ≢ legacy_bucket hdr → (hdr == h) ≡ false
  apart h ne = elim (Bool-cases (hdr == h)) [
    | inl e ↦ absurd (ne (ap legacy_bucket (sym ((==_iff hdr h).0 e))))
    | inr e ↦ e
  ]

  other_added :
      (h : ℕ)
      → legacy_bucket h ≢ legacy_bucket hdr
      → occurrences h live ≡ same h hdr + occurrences h live
  other_added h ne = rw (apart h ne) (omega arith)

  found_same : in_chain hdr (r.buckets (legacy_bucket hdr)) ≡ in_chain hdr live
  found_same =
      in_chain-occurrences hdr (r.buckets (legacy_bucket hdr))
      ∙ ap (ltb 0) (m.chains hdr)
      ∙ sym (in_chain-occurrences hdr live)

  unlinked :
      (h : ℕ)
      → legacy_bucket h ≡ legacy_bucket hdr
      → occurrences h (cut_header hdr (r.buckets (legacy_bucket hdr)))
        ≡ occurrences h (cut_header hdr live)
  unlinked h e = ground (
    arith,
    cut_header-occurrences hdr h (r.buckets (legacy_bucket hdr)),
    cut_header-occurrences hdr h live,
    own_bucket h e,
  )

  other_unlinked :
      (h : ℕ)
      → legacy_bucket h ≢ legacy_bucket hdr
      → occurrences h live ≡ occurrences h (cut_header hdr live)
  other_unlinked h ne = rw (cut_header-occurrences hdr h live, apart h ne) refl

  none_unlinked :
      (h : ℕ) → in_chain hdr live ≡ false → occurrences h live ≡ occurrences h (cut_header hdr live)
  none_unlinked h e = elim (Bool-cases (hdr == h)) [
    | inl same_header ↦
        let is_h : hdr ≡ h = (==_iff hdr h).0 same_header in
        ground (
          arith,
          cut_header-occurrences hdr h live,
          in_chain-occurrences hdr live,
          ap (λ k. occurrences k live) is_h,
        )
    | inr other ↦ rw (cut_header-occurrences hdr h live, other) refl
  ]

  pub drop_header-Mirrors : Mirrors (drop_header r hdr) (cut_header hdr live)
  unfolding drop_header
  drop_header-Mirrors =
      let chain = cut_header hdr (r.buckets (legacy_bucket hdr)) in
      elim (Bool-cases (in_chain hdr live)) [
        | inl found ↦
            rw (found_same, found)
              (record {
                chains = λ h. elim (ℕ_discrete (legacy_bucket h) (legacy_bucket hdr)) [
                  | yes e ↦ (chain-occurrences chain h).0 e ∙ unlinked h e
                  | no ne ↦ (chain-occurrences chain h).1 ne ∙ other_unlinked h ne
                ];
                counted = ground (arith, m.counted, length-cut_header hdr live);
              })
        | inr missing ↦
            rw (found_same, missing)
              (record {
                chains = λ h. m.chains h ∙ none_unlinked h missing;
                counted = ground (arith, m.counted, length-cut_header hdr live);
              })
      ]

  pub add_header-Mirrors : Mirrors (add_header r hdr) (hdr ∷ live)
  unfolding add_header
  add_header-Mirrors = record {
    chains = λ h. elim (ℕ_discrete (legacy_bucket h) (legacy_bucket hdr)) [
      | yes e ↦
          (chain-occurrences (hdr ∷ r.buckets (legacy_bucket hdr)) h).0 e
          ∙ ap (λ n. same h hdr + n) (own_bucket h e)
      | no ne ↦ (chain-occurrences (hdr ∷ r.buckets (legacy_bucket hdr)) h).1 ne ∙ other_added h ne
    ];
    counted = omega (arith, m.counted);
  }
