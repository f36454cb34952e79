-- ===== src/Large/Fit.antt =====
-- src/lib.rs: which region `take_fit` recycles.
use allox.Prelude.{
  ℕ, ◌*◌, ◌/◌, ◌%◌, ◌^◌, ◌≤◌, ◌<◌, ◌≡◌, ◌⊎◌, refl, Bool, true, false, Option, none, some, arith,
  length, inl, inr, subst, ◌-◌, get_or, swap_remove,
}
use allox.Regions.{null_region, pages_at, best_loop, exact_loop}
use allox.Regions.BestFit.{BestBelow, best_loop_lem, ExactBelow, exact_loop_lem}
use allox.Classes.{page_size}
use allox.Large.{
  Tier, RegionCache, Fit, clear_flags, remove_tier, take_hot, take_cold, found_or, holds_bytes,
  take_fit,
}
use allox.Large.Index.{exact_tier-exact}

pub found_or-cases {ℓ} :
    (P : Fit → Type ℓ) (o : Option ℕ) (found : ℕ → Fit) (rest : Fit)
    → ((i : ℕ) → o ≡ some i → P (found i))
    → (o ≡ none → P rest)
    → P (found_or o found rest)
found_or-cases P none found rest hit miss = miss refl
found_or-cases P (some i) found rest hit miss = hit i refl

-- No entry of the tier has enough pages for `mapped` bytes.
abbrev pub NoneFits : ℕ → Tier → Type 0
NoneFits mapped t =
    (j : ℕ) → j < length t.entries → holds_bytes mapped (pages_at t.entries j) ≡ false

-- No entry of the tier has more than enough, yet fewer pages than `pages`.
abbrev pub NoneBetter : ℕ → ℕ → Tier → Type 0
NoneBetter mapped pages t =
    (j : ℕ)
    → j < length t.entries
    → holds_bytes mapped (pages_at t.entries j) ≡ true
    → pages ≤ pages_at t.entries j

-- Exactly the entry `i` has left the tier, and its flags and its bytes with it.
pub record Removed (t : Tier) (i : ℕ) (u : Tier) : Type 0 where
  pub entries : u.entries ≡ swap_remove t.entries i null_region
  pub flags : u.flags ≡ swap_remove t.flags i clear_flags
  pub bytes : u.bytes ≡ t.bytes - pages_at t.entries i * page_size

remove_tier-Removed : (t : Tier) (i : ℕ) → Removed t i (remove_tier t i)
unfolding remove_tier
remove_tier-Removed t i = record { entries = refl; flags = refl; bytes = refl }

-- A recycled region is large enough; no hot region that is large enough is smaller; and no cold
-- one is, unless a hot one was taken.
abbrev pub FitOutcome : RegionCache → ℕ → Fit → Type 0
FitOutcome c mapped (d, none) = NoneFits mapped c.hot × NoneFits mapped c.cold × (d ≡ c)
FitOutcome c mapped (d, some r) =
    (mapped ≤ r.region.1 * page_size)
    × NoneBetter mapped r.region.1 c.hot
    × (((i : ℕ) × (i < length c.hot.entries)
          × (r.region ≡ get_or c.hot.entries i null_region)
          × (r.zeroed ≡ (get_or c.hot.flags i clear_flags).zeroed)
          × (r.decommitted ≡ (get_or c.hot.flags i clear_flags).decommitted)
          × Removed c.hot i d.hot
          × (d.cold ≡ c.cold))
        ⊎ ((i : ℕ) × (i < length c.cold.entries)
            × (r.region ≡ get_or c.cold.entries i null_region)
            × (r.zeroed ≡ (get_or c.cold.flags i clear_flags).zeroed)
            × (r.decommitted ≡ (get_or c.cold.flags i clear_flags).decommitted)
            × (d.hot ≡ c.hot)
            × Removed c.cold i d.cold
            × NoneBetter mapped r.region.1 c.cold))

module _ (c : RegionCache) (mapped : ℕ) (whole : mapped % page_size ≡ 0)
    (small : mapped / page_size < 2 ^ 32) where
  abbrev wanted : ℕ
  wanted = mapped / page_size % 2 ^ 32

  -- An entry of exactly the pages wanted is as good as any.
  exact-NoneBetter : (t : Tier) (pages : ℕ) → pages ≡ wanted → NoneBetter mapped pages t
  exact-NoneBetter t pages e j lt fits = ground arith

  exact_hot-FitOutcome :
      (i : ℕ)
      → i < length c.hot.entries
      → pages_at c.hot.entries i ≡ wanted
      → FitOutcome c mapped (take_hot c i)
  unfolding take_hot
  exact_hot-FitOutcome i lt e = (
    omega (arith, whole, small),
    exact-NoneBetter c.hot (pages_at c.hot.entries i) e,
    inl (i, lt, refl, refl, refl, remove_tier-Removed c.hot i, refl),
  )

  exact_cold-FitOutcome :
      (i : ℕ)
      → i < length c.cold.entries
      → pages_at c.cold.entries i ≡ wanted
      → FitOutcome c mapped (take_cold c i)
  unfolding take_cold
  exact_cold-FitOutcome i lt e = (
    omega (arith, whole, small),
    exact-NoneBetter c.hot (pages_at c.cold.entries i) e,
    inr (
      i,
      lt,
      refl,
      refl,
      refl,
      refl,
      remove_tier-Removed c.cold i,
      exact-NoneBetter c.cold (pages_at c.cold.entries i) e,
    ),
  )

  best_hot-FitOutcome :
      (i : ℕ)
      → best_loop (holds_bytes mapped) (length c.hot.entries) c.hot.entries 0 none ≡ some i
      → FitOutcome c mapped (take_hot c i)
  unfolding take_hot
  best_hot-FitOutcome i e =
      let best =
        subst (BestBelow (holds_bytes mapped) c.hot.entries (length c.hot.entries)) e
          (best_loop_lem (holds_bytes mapped) c.hot.entries) in
      (
        ground (arith, best.1),
        best.2,
        inl (i, best.0, refl, refl, refl, remove_tier-Removed c.hot i, refl),
      )

  none_hot-NoneFits :
      best_loop (holds_bytes mapped) (length c.hot.entries) c.hot.entries 0 none ≡ none
      → NoneFits mapped c.hot
  none_hot-NoneFits e =
      subst (BestBelow (holds_bytes mapped) c.hot.entries (length c.hot.entries)) e
        (best_loop_lem (holds_bytes mapped) c.hot.entries)

  best_cold-FitOutcome :
      (i : ℕ)
      → NoneFits mapped c.hot
      → best_loop (holds_bytes mapped) (length c.cold.entries) c.cold.entries 0 none ≡ some i
      → FitOutcome c mapped (take_cold c i)
  unfolding take_cold
  best_cold-FitOutcome i no_hot e =
      let best =
        subst (BestBelow (holds_bytes mapped) c.cold.entries (length c.cold.entries)) e
          (best_loop_lem (holds_bytes mapped) c.cold.entries) in
      (
        ground (arith, best.1),
        λ j lt fits. absurd_fit (no_hot j lt) fits,
        inr (i, best.0, refl, refl, refl, refl, remove_tier-Removed c.cold i, best.2),
      )
    where
      absurd_fit : {b : Bool} {m n : ℕ} → b ≡ false → b ≡ true → m ≤ n
      absurd_fit p q = cc

  none_cold-NoneFits :
      best_loop (holds_bytes mapped) (length c.cold.entries) c.cold.entries 0 none ≡ none
      → NoneFits mapped c.cold
  none_cold-NoneFits e =
      subst (BestBelow (holds_bytes mapped) c.cold.entries (length c.cold.entries)) e
        (best_loop_lem (holds_bytes mapped) c.cold.entries)

  scan-exact :
      (t : Tier) (i : ℕ)
      → exact_loop (length t.entries) t.entries wanted 0 ≡ some i
      → (i < length t.entries) × (pages_at t.entries i ≡ wanted)
  scan-exact t i e =
      subst (ExactBelow wanted t.entries (length t.entries)) e (exact_loop_lem wanted t.entries)

  -- For a request of whole pages, fewer than 2 ^ 32: with no result, no parked region is large
  -- enough, and the shard is unchanged. A region that is taken is large enough, no hot region that
  -- is large enough is smaller, and one taken from the cold tier has no smaller fitting rival
  -- there. Exactly the entry taken has left its tier, where the last one takes its place, with its
  -- flags and its bytes; the flags come with the region, and the other tier is as before.
  pub take_fit-best : FitOutcome c mapped (take_fit c mapped)
  unfolding take_fit
  take_fit-best =
      let P = FitOutcome c mapped in
      found_or-cases P _ _ _
        (λ i e.
          let (lt, same) = exact_tier-exact c.hot wanted i e in exact_hot-FitOutcome i lt same)
        λ _.
          found_or-cases P _ _ _
            (λ i e.
              let (lt, same) = exact_tier-exact c.cold wanted i e in
              exact_cold-FitOutcome i lt same)
            λ _.
              found_or-cases P _ _ _
                (λ i e. let (lt, same) = scan-exact c.hot i e in exact_hot-FitOutcome i lt same)
                λ _.
                  found_or-cases P _ _ _
                    (λ i e.
                      let (lt, same) = scan-exact c.cold i e in exact_cold-FitOutcome i lt same)
                    λ _. found_or-cases P _ _ _ best_hot-FitOutcome λ no_hot.
                      found_or-cases P _ _ _
                        (λ i e. best_cold-FitOutcome i (none_hot-NoneFits no_hot) e)
                        λ no_cold. (none_hot-NoneFits no_hot, none_cold-NoneFits no_cold, refl)
