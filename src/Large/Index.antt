-- ===== src/Large/Index.antt =====
-- src/lib.rs: the exact-size index of a tier is right after every operation, so a look through it
-- misses no region that it covers.
use allox.Prelude.{
  ℕ, ◌+◌, ◌-◌, ◌≤◌, ◌<◌, ◌≡◌, ◌≢◌, ◌⊎◌, ap, sym, inl, inr, false, none, some, List, [], ◌∷◌, ◌++◌,
  arith, ◌==◌, if◌then◌else◌, length, swap_remove, ◌∙◌, get_or-swap_remove, length-swap_remove,
  get_or-append_left, get_or-append_last, length-append,
}
use native.Mathlib.Decide.{ℕ_discrete}
use allox.Regions.{Region, null_region, pages_at, refresh_loop}
use allox.Regions.Index.{SlotOk, refresh_lem}
use allox.Large.{Tier, large_exact_max_pages, index_tier, exact_tier, moved_exact, removed_exact}

-- Every slot that the index has is right about the entries.
abbrev pub IndexOk : List Region → (ℕ → ℕ) → Type 0
IndexOk entries exact =
    (p : ℕ) → p ≤ large_exact_max_pages → SlotOk entries (length entries) p (exact p)

-- A look through a right index finds an entry of the length wanted if there is one.
pub exact_tier_complete :
    (t : Tier) (wanted : ℕ)
    → IndexOk t.entries t.exact
    → wanted ≤ large_exact_max_pages
    → exact_tier t wanted ≡ none
    → (j : ℕ) → j < length t.entries
    → (pages_at t.entries j == wanted) ≡ false
unfolding exact_tier
exact_tier_complete t wanted ok small e j lt = elim (ok wanted small) [
  | inl (found, same) ↦ ground arith
  | inr (empty, absent) ↦ absent j lt
]

pub exact_tier-exact :
    (t : Tier) (wanted k : ℕ)
    → exact_tier t wanted ≡ some k
    → (k < length t.entries) × (pages_at t.entries k ≡ wanted)
unfolding exact_tier
exact_tier-exact t wanted k e = ground arith

module _ (entries : List Region) (r : Region) (exact : ℕ → ℕ) (ok : IndexOk entries exact) where
  -- A slot of another length stays right when `r` is appended.
  append-SlotOk :
      (p : ℕ)
      → p ≤ large_exact_max_pages
      → p ≢ r.1
      → SlotOk (entries ++ r ∷ []) (length entries + 1) p (exact p)
  append-SlotOk p small ne = elim (ok p small) [
    | inl (lt, e) ↦ inl (
      omega arith,
      ap (λ (q : Region). q.1) (get_or-append_left entries (r ∷ []) (exact p) null_region lt) ∙ e,
    )
    | inr (e, absent) ↦ inr (e, λ j lt. other p ne absent j lt)
  ]
    where
      other :
          (p : ℕ)
          → p ≢ r.1
          → ((j : ℕ) → j < length entries → (pages_at entries j == p) ≡ false)
          → (j : ℕ) → j < length entries + 1
          → (pages_at (entries ++ r ∷ []) j == p) ≡ false
      other p ne absent j lt = elim (ℕ_discrete j (length entries)) [
        | yes e ↦
            let last : pages_at (entries ++ r ∷ []) j ≡ r.1 =
              rw e (ap (λ (q : Region). q.1) (get_or-append_last entries r null_region)) in
            ground arith
        | no e ↦
            let old =
              ap (λ (q : Region). q.1)
                (get_or-append_left entries (r ∷ []) j null_region (omega arith)) in
            ground (arith, absent j (omega arith))
      ]

  appended_last : pages_at (entries ++ r ∷ []) (length entries) ≡ r.1
  appended_last = ap (λ (q : Region). q.1) (get_or-append_last entries r null_region)

  appended_length : length (entries ++ r ∷ []) ≡ length entries + 1
  appended_length = length-append entries (r ∷ [])

-- The slots of other lengths, and that of the length appended.
index_tier_other :
    (t : Tier) (r : Region) (p : ℕ)
    → p ≢ r.1
    → (index_tier (record t { entries = t.entries ++ r ∷ [] }) (length t.entries) r.1).exact p
      ≡ t.exact p
unfolding index_tier
index_tier_other t r p ne = ground arith

index_tier_own :
    (t : Tier) (r : Region) (p : ℕ)
    → p ≡ r.1
    → p ≤ large_exact_max_pages
    → length t.entries < 65535
    → let entries = t.entries ++ r ∷ [] in
      let value = (index_tier (record t { entries = entries }) (length t.entries) r.1).exact p in
      (value ≡ length t.entries)
      ⊎ ((value ≡ refresh_loop (length entries) entries p 0)
          ⊎ ((value ≡ t.exact p)
              × (t.exact p < length entries)
              × (pages_at entries (t.exact p) ≡ p)))
unfolding index_tier
index_tier_own t r p e small room = ground arith

-- Recording a region just appended keeps the index right.
pub index_tier-IndexOk :
    (t : Tier) (r : Region)
    → IndexOk t.entries t.exact
    → length t.entries < 65535
    → let entries = t.entries ++ r ∷ [] in
      IndexOk entries (index_tier (record t { entries = entries }) (length t.entries) r.1).exact
index_tier-IndexOk t r ok room p small =
    let entries = t.entries ++ r ∷ [] in
    let appended = appended_length t.entries r t.exact ok in
    elim (ℕ_discrete p r.1) [
      | no ne ↦
          rw (index_tier_other t r p ne, appended) (append-SlotOk t.entries r t.exact ok p small ne)
      | yes e ↦ elim (index_tier_own t r p e small room) [
        | inl value ↦
            rw (value, appended) (inl (omega arith, appended_last t.entries r t.exact ok ∙ sym e))
        | inr (inl value) ↦ rw value (refresh_lem entries p (omega (arith, appended)))
        | inr (inr (value, lt, same)) ↦ rw value (inl (lt, same))
      ]
    ]

-- The index after a removal: slot `p` of `exact`, as `remove_tier` leaves it.
module _ (entries : List Region) (index : ℕ) (exact : ℕ → ℕ) (lt : index < length entries)
    (room : length entries < 65535) (ok : IndexOk entries exact) where
  left : List Region
  left = swap_remove entries index null_region

  left-length : length left ≡ length entries - 1
  unfolding left
  left-length = length-swap_remove entries index null_region

  left_pages :
      (j : ℕ)
      → j < length entries - 1
      → pages_at left j
        ≡ (if index == j then pages_at entries (length entries - 1) else pages_at entries j)
  unfolding left
  left_pages j h =
      ground (arith, ap (λ (q : Region). q.1) (get_or-swap_remove entries index j null_region h))

  removed_value :
      (exact' : ℕ → ℕ)
      → let p = pages_at entries index in
        p ≤ large_exact_max_pages
        → (removed_exact left index p exact' p ≡ refresh_loop (length left) left p 0)
          ⊎ ((removed_exact left index p exact' p ≡ exact' p)
              × (exact' p < length left)
              × (pages_at left (exact' p) ≡ p))
  unfolding removed_exact
  removed_value exact' small = ground arith

  -- The slot of the removed length is refreshed if it does not name a region of that length.
  removed-SlotOk :
      (exact' : ℕ → ℕ)
      → let p = pages_at entries index in
        p ≤ large_exact_max_pages
        → SlotOk left (length left) p (removed_exact left index p exact' p)
  removed-SlotOk exact' small =
      let p = pages_at entries index in
      elim (removed_value exact' small) [
        | inl e ↦ rw e (refresh_lem left p (omega (arith, left-length)))
        | inr (e, lt', same) ↦ rw e (inl (lt', same))
      ]

  -- A slot that names the last entry follows it to its new place.
  moved_to :
      (p : ℕ)
      → p ≤ large_exact_max_pages
      → p ≢ pages_at entries index
      → exact p ≡ length entries - 1
      → pages_at entries (exact p) ≡ p
      → (moved_exact left index (length entries - 1) exact p ≡ index)
        × (index < length left)
        × (pages_at left index ≡ p)
  unfolding moved_exact
  moved_to p small ne at_last e =
      let last : pages_at entries (length entries - 1) ≡ p = rw (← at_last) e in
      let before : index ≢ length entries - 1 = λ h. ne (ground (arith, last, h)) in
      ground (arith, left-length, left_pages index, last, before)

  -- Any other slot keeps its value.
  moved_same :
      (p : ℕ)
      → exact p ≢ length entries - 1
      → moved_exact left index (length entries - 1) exact p ≡ exact p
  unfolding moved_exact
  moved_same p ne = ground arith

  -- A slot of another length than the removed one is right after the move.
  moved-SlotOk :
      (p : ℕ)
      → p ≤ large_exact_max_pages
      → p ≢ pages_at entries index
      → SlotOk left (length left) p (moved_exact left index (length entries - 1) exact p)
  moved-SlotOk p small ne = elim (ok p small) [
    | inr (e, absent) ↦ rw (moved_same p (ground arith)) (
        inr (
          e,
          λ j h. ground (arith, left-length, left_pages j, absent j, absent (length entries - 1)),
        ))
    | inl (lt', e) ↦ elim (ℕ_discrete (exact p) (length entries - 1)) [
      | yes at_last ↦
          let (value, h, same) = moved_to p small ne at_last e in rw value (inl (h, same))
      | no other ↦
          rw (moved_same p other)
            (inl (omega (arith, left-length), ground (arith, left_pages (exact p), e, ne)))
    ]
  ]

  removed_other :
      (exact' : ℕ → ℕ) (p q : ℕ) → p ≢ q → removed_exact left index q exact' p ≡ exact' p
  unfolding removed_exact
  removed_other exact' p q ne = ground arith

  -- Removing an entry keeps the index right.
  pub remove-IndexOk : IndexOk (swap_remove entries index null_region) (
      removed_exact
        (swap_remove entries index null_region)
        index
        (pages_at entries index)
        (moved_exact (swap_remove entries index null_region) index (length entries - 1) exact))
  unfolding left
  remove-IndexOk p small =
      let moved = moved_exact left index (length entries - 1) exact in
      elim (ℕ_discrete p (pages_at entries index)) [
        | yes e ↦ rw e (removed-SlotOk moved (rw (← e) small))
        | no ne ↦ rw (removed_other moved p (pages_at entries index) ne) (moved-SlotOk p small ne)
      ]
