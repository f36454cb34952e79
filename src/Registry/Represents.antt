-- ===== src/Registry/Represents.antt =====
-- src/lib.rs: the registry keeps the list of each bucket as a chain, when only new headers are
-- registered.
use allox.Prelude.{
  ℕ, ◌≤◌, ◌<◌, ◌≡◌, ◌≢◌, refl, ap, sym, ◌∙◌, subst, true, List, [], ◌∷◌, arith, ◌==◌, length,
  occurrences, ==_iff, Bool-cases, inl, inr,
}
use native.Mathlib.Decide.{ℕ_discrete}
use allox.Registry.{
  Registry, legacy_bucket, set_at, register_legacy_large, find_header, unlink_header,
  unregister_legacy_large,
}
use allox.Registry.Buckets.{Buckets, set_bucket, add_header, in_chain, cut_header, drop_header}
use allox.Registry.Links.{
  Linked, Linked-agree, set_at_here, set_at_else, apart, find_header-in_chain, unlink_header-Cut,
  unlink_header_missed,
}
use allox.Registry.Mirrors.{
  in_chain-occurrences, cut_header-occurrences, length-cut_header, Mirrors,
}

-- The registry holds the lists of the buckets: a chain for each, of headers that hash there.
pub record Represents (r : Registry) (b : Buckets) : Type 0 where
  pub chains : (k : ℕ) → Linked r.next (r.heads k) (b.buckets k)
  pub placed : (k h : ℕ) → 1 ≤ occurrences h (b.buckets k) → legacy_bucket h ≡ k
  pub counted : r.len ≡ b.len

sub-length :
    (xs ys : List ℕ) → ((h : ℕ) → occurrences h xs ≤ occurrences h ys) → length xs ≤ length ys
sub-length [] ys sub = omega arith
sub-length (x ∷ xs) [] sub = absurd (ground (arith, sub x))
sub-length (x ∷ xs) (y ∷ ys) sub =
    let on : in_chain x (y ∷ ys) ≡ true = ground (arith, in_chain-occurrences x (y ∷ ys), sub x) in
    let shorter : length (cut_header x (y ∷ ys)) ≡ length ys =
      length-cut_header x (y ∷ ys) ∙ rw on (omega arith) in
    omega (
      arith,
      shorter,
      sub-length xs (cut_header x (y ∷ ys))
          (λ h. ground (arith, cut_header-occurrences x h (y ∷ ys), sub h)),
    )

module _ (r : Registry) (b : Buckets) (live : List ℕ) (rep : Represents r b) (m : Mirrors b live)
    (few : (h : ℕ) → occurrences h live ≤ 1) where
  within : (k h : ℕ) → occurrences h (b.buckets k) ≤ occurrences h live
  within k h = elim (ℕ_discrete (legacy_bucket h) k) [
    | yes e ↦
        subst (λ j. occurrences h (b.buckets j) ≤ occurrences h live) e (omega (arith, m.chains h))
    | no ne ↦ elim (Bool-cases (occurrences h (b.buckets k) == 0)) [
      | inl none_there ↦ ground arith
      | inr some_there ↦ absurd (ne (rep.placed k h (ground arith)))
    ]
  ]

  once : (k h : ℕ) → occurrences h (b.buckets k) ≤ 1
  once k h = omega (arith, within k h, few h)

  short : (k : ℕ) → length (b.buckets k) ≤ r.len
  short k = omega (arith, sub-length (b.buckets k) live (within k), rep.counted, m.counted)

  pub find_header-Represents :
      (h k : ℕ) → find_header r.len r.next h (r.heads k) ≡ in_chain h (b.buckets k)
  find_header-Represents h k =
      find_header-in_chain r.next r.len h (r.heads k) (b.buckets k) (rep.chains k) (short k)

  set_bucket-placed :
      (bucket : ℕ) (chain : List ℕ)
      → ((h : ℕ) → 1 ≤ occurrences h chain → legacy_bucket h ≡ bucket)
      → (k h : ℕ) → 1 ≤ occurrences h (set_bucket b.buckets bucket chain k)
      → legacy_bucket h ≡ k
  unfolding set_bucket
  set_bucket-placed bucket chain inside k h on = elim (Bool-cases (k == bucket)) [
    | inl e ↦ inside h (rw e at on) ∙ sym ((==_iff k bucket).0 e)
    | inr e ↦ rep.placed k h (rw e at on)
  ]

  -- The headers of two buckets differ.
  elsewhere :
      (j k x : ℕ) → k ≢ j → 1 ≤ occurrences x (b.buckets k) → occurrences x (b.buckets j) ≡ 0
  elsewhere j k x ne on = elim (Bool-cases (occurrences x (b.buckets j) == 0)) [
    | inl none_there ↦ ground arith
    | inr there ↦ absurd (ne (sym (rep.placed k x on) ∙ rep.placed j x (ground arith)))
  ]

  module _ (hdr : ℕ) where
    pub register-Represents :
        0 < hdr
        → occurrences hdr live ≡ 0
        → Represents (register_legacy_large r hdr) (add_header b hdr)
    unfolding register_legacy_large add_header set_bucket
    register-Represents some fresh =
        let bucket = legacy_bucket hdr in
        let next = set_at r.next hdr (r.heads bucket) in
        let untouched : (k x : ℕ) → 1 ≤ occurrences x (b.buckets k) → next x ≡ r.next x = λ k x on.
          set_at_else r.next hdr (r.heads bucket) x
            (apart x hdr (b.buckets k) on (omega (arith, within k hdr, fresh))) in
        record {
          chains = λ k. elim (Bool-cases (k == bucket)) [
            | inl e ↦ rw e (
              refl,
              some,
              subst (λ n. Linked next n (b.buckets bucket))
                  (sym (set_at_here r.next hdr (r.heads bucket)))
                  (Linked-agree r.next next (r.heads bucket) (b.buckets bucket) (untouched bucket)
                    (rep.chains bucket)),
            )
            | inr e ↦
                rw e
                  (Linked-agree r.next next (r.heads k) (b.buckets k) (untouched k) (rep.chains k))
          ];
          placed = set_bucket-placed bucket (hdr ∷ b.buckets bucket) (λ h on.
              elim (ℕ_discrete hdr h) [
                | yes e ↦ ap legacy_bucket (sym e)
                | no ne ↦ rep.placed bucket h (ground (arith, on))
              ]);
          counted = omega (arith, rep.counted);
        }

    pub unregister-Represents : Represents (unregister_legacy_large r hdr) (drop_header b hdr)
    unfolding unregister_legacy_large drop_header set_bucket
    unregister-Represents =
        let bucket = legacy_bucket hdr in
        elim (Bool-cases (in_chain hdr (b.buckets bucket))) [
          | inr missed ↦
              rw
                (
                  missed,
                  unlink_header_missed r bucket hdr r.len 0 (r.heads bucket) (b.buckets bucket)
                      (rep.chains bucket) missed,
                )
                rep
          | inl found ↦
              let u = unlink_header r.len r bucket hdr 0 (r.heads bucket) in
              let cut =
                unlink_header-Cut r bucket hdr r.len (b.buckets bucket) (rep.chains bucket)
                  (short bucket) (once bucket) found in
              rw found (record {
                chains = λ k. elim (Bool-cases (k == bucket)) [
                  | inl e ↦ rw e (
                      subst (λ j. Linked u.next (u.heads j) (cut_header hdr (b.buckets bucket)))
                        (sym ((==_iff k bucket).0 e)) cut.linked)
                  | inr e ↦
                      let ne : k ≢ bucket = λ same. absurd (ground (arith, same)) in
                      rw e (
                        subst (λ n. Linked u.next n (b.buckets k)) (sym (cut.heads k ne))
                          (Linked-agree r.next u.next (r.heads k) (b.buckets k)
                            (λ x on. cut.others x (elsewhere bucket k x ne on)) (rep.chains k)))
                ];
                placed = set_bucket-placed bucket (cut_header hdr (b.buckets bucket)) (λ h on.
                    rep.placed bucket h
                      (ground (arith, on, cut_header-occurrences hdr h (b.buckets bucket))));
                counted = omega (arith, cut.len, rep.counted);
              })
        ]
