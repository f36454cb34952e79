-- ===== src/Registry/History.antt =====
-- src/lib.rs: after any history of registrations the registry knows exactly the headers that are
-- still registered, in spite of buckets, links and of the shortcut on an empty registry.
use allox.Prelude.{
  ℕ, ◌+◌, ◌-◌, ◌%◌, ◌≤◌, ◌<◌, Bool, subst, ◌≡◌, refl, ap, true, false, List, [], ◌∷◌, arith, ltb,
  leb, ◌==◌, if◌then◌else◌, length, occurrences, ==_iff, ◌∙◌, Bool-cases, inl, inr,
}
use allox.Classes.{min_align}
use allox.Large.Header.{large_header_size}
use allox.Registry.{
  Registry, new_registry, legacy_bucket, register_legacy_large, unregister_legacy_large,
  contains_header, legacy_large_contains,
}
use allox.Registry.Buckets.{Buckets, new_buckets, add_header, cut_header, drop_header}
use allox.Registry.Represents.{
  Represents, find_header-Represents, register-Represents, unregister-Represents,
}
use allox.Registry.Mirrors.{
  in_chain-occurrences, cut_header-occurrences, Mirrors, add_header-Mirrors, drop_header-Mirrors,
}

-- A registration or its end.
pub data Event : Type 0 where
  register unregister : ℕ → Event

-- The latest event stands first.
unfoldable pub after : List Event → Registry
after [] = new_registry
after (register hdr ∷ before) = register_legacy_large (after before) hdr
after (unregister hdr ∷ before) = unregister_legacy_large (after before) hdr

-- Whether the latest event of a header registers it.
unfoldable pub registered : List Event → ℕ → Bool
registered [] h = false
registered (register hdr ∷ before) h = let r = registered before h in if hdr == h then true else r
registered (unregister hdr ∷ before) h =
    let r = registered before h in if hdr == h then false else r

-- Only headers that are not null, and not registered at the time, are registered, as mappings that
-- are new have.
unfoldable pub IsNew : List Event → Type 0
IsNew [] = true ≡ true
IsNew (register hdr ∷ before) = (0 < hdr) × (registered before hdr ≡ false) × IsNew before
IsNew (unregister hdr ∷ before) = IsNew before

-- The headers of a history, with their repetitions.
live_after : List Event → List ℕ
live_after [] = []
live_after (register hdr ∷ before) = hdr ∷ live_after before
live_after (unregister hdr ∷ before) = cut_header hdr (live_after before)

-- The lists of the buckets.
after_buckets : List Event → Buckets
after_buckets [] = new_buckets
after_buckets (register hdr ∷ before) = add_header (after_buckets before) hdr
after_buckets (unregister hdr ∷ before) = drop_header (after_buckets before) hdr

after_buckets-Mirrors : (events : List Event) → Mirrors (after_buckets events) (live_after events)
unfolding after_buckets live_after new_buckets
after_buckets-Mirrors [] = record { chains = λ h. refl; counted = refl }
after_buckets-Mirrors (register hdr ∷ before) =
    add_header-Mirrors (after_buckets before) (live_after before) (after_buckets-Mirrors before) hdr
after_buckets-Mirrors (unregister hdr ∷ before) =
    drop_header-Mirrors (after_buckets before) (live_after before) (after_buckets-Mirrors before)
      hdr

live_after-registered :
    (events : List Event)
    → IsNew events
    → (h : ℕ) → occurrences h (live_after events) ≡ (if registered events h then 1 else 0)
unfolding live_after registered IsNew
live_after-registered [] new h = refl
live_after-registered (register hdr ∷ before) (nonnull, fresh, new) h =
    let earlier = live_after-registered before new h in
    elim (Bool-cases (hdr == h)) [
      | inl e ↦
          let not_yet : registered before h ≡ false =
            subst (λ k. registered before k ≡ false) ((==_iff hdr h).0 e) fresh in
          rw e (ground (arith, earlier))
      | inr e ↦ rw e (omega (arith, earlier))
    ]
live_after-registered (unregister hdr ∷ before) new h =
    ground
      (arith, live_after-registered before new h, cut_header-occurrences hdr h (live_after before))

ltb_one : (b : Bool) → ltb 0 (if b then 1 else 0) ≡ b
ltb_one true = refl
ltb_one false = refl

no_occurrences : (h : ℕ) (xs : List ℕ) → length xs ≡ 0 → occurrences h xs ≡ 0
no_occurrences h [] e = refl
no_occurrences h (x ∷ xs) e = absurd (omega arith)

-- Every header is in the lists once at most, and what the registry chains is those lists.
live_once : (events : List Event) → IsNew events → (h : ℕ) → occurrences h (live_after events) ≤ 1
live_once events new h = ground (arith, live_after-registered events new h)

after-Represents :
    (events : List Event) → IsNew events → Represents (after events) (after_buckets events)
unfolding after after_buckets IsNew new_registry new_buckets
after-Represents [] new = record {
  chains = λ k. refl;
  placed = λ k h on. absurd (omega (arith, on));
  counted = refl;
}
after-Represents (register hdr ∷ before) (some, fresh, new) =
    register-Represents (after before) (after_buckets before) (live_after before)
      (after-Represents before new) (after_buckets-Mirrors before) (live_once before new) hdr some
      (live_after-registered before new hdr ∙ rw fresh refl)
after-Represents (unregister hdr ∷ before) new =
    unregister-Represents (after before) (after_buckets before) (live_after before)
      (after-Represents before new) (after_buckets-Mirrors before) (live_once before new) hdr

-- After any history of registrations and their ends, latest first, in which a header is registered
-- only when it is not null and not registered: the registry holds the pointer behind a 16-aligned
-- header to be a large region exactly when the latest event of the header registered it.
pub legacy_large_contains-registered :
    (events : List Event) (h : ℕ)
    → IsNew events
    → h % min_align ≡ 0
    → legacy_large_contains (after events) (h + large_header_size) ≡ registered events h
unfolding legacy_large_contains contains_header
legacy_large_contains-registered events h new aligned =
    let r = after events in
    let b = after_buckets events in
    let m = after_buckets-Mirrors events in
    let rep = after-Represents events new in
    let known = live_after-registered events new h in
    let back : h + large_header_size - large_header_size ≡ h = omega arith in
    let fits : leb large_header_size (h + large_header_size) ≡ true = ground arith in
    rw (fits, back, aligned)
      (elim (Bool-cases (r.len == 0)) [
        | inl empty ↦
            rw empty
              (ground (arith, rep.counted, m.counted, no_occurrences h (live_after events), known))
        | inr some_left ↦ rw some_left (
            find_header-Represents r b (live_after events) rep m (live_once events new) h
              (legacy_bucket h)
            ∙ in_chain-occurrences h (b.buckets (legacy_bucket h))
            ∙ ap (ltb 0) (m.chains h ∙ known)
            ∙ ltb_one (registered events h))
      ])
