-- ===== src/Cache/Trimmed.antt =====
-- src/cache.rs: what a trim keeps of a thread cache, and where it ends.
use allox.Prelude.{
  ℕ, zero, suc, ◌+◌, ◌≤◌, ◌<◌, ◌≡◌, ◌⊎◌, inl, inr, refl, sym, ◌∙◌, subst, Bool, true, false, Option,
  none, some, List, [], ◌∷◌, arith, length, All, ltb, ◌==◌, if◌then◌else◌, Bool-cases, length-map,
}
use allox.Heap.{refill_batch}
use allox.Cache.{Tier, medium, big}
use allox.Cache.Trim.{
  Active, ThreadCache, Budget, refresh_budget, Best, best_bin, bin_at, active_at, active_bins,
  halve_bin, halve_mbin, halve_bbin, flush_active_medium, flush_active_big, trim_mbin, trim_bbin,
  trim_bactive, trim_mactive, trim_round, trim_loop, trim, trim_target, blocks_held,
}
use allox.Cache.Search.{IsCounted, best_bin-found, best_bin-none, best_bin-none_bytes}
use allox.Cache.Rounds.{
  ActiveOk, all_blocks, CacheOk, Rounded, halve_bin-Rounded, halve_mbin-Rounded, halve_bbin-Rounded,
  flush_active_medium-Rounded, flush_active_big-Rounded,
}

module _ (owner : Tier → ℕ → ℕ) where
  -- Nothing is left that a trim could take: small bins are short, and the others are empty.
  pub record Spent (c : ThreadCache) : Type 0 where
    pub bins : All (λ b. b.len ≤ refill_batch) c.bins
    pub mbins : All (λ b. b.len ≤ 0) c.mbins
    pub mactive : All (λ b. b.len ≤ 0) (active_bins c.mactive)
    pub bigbins : All (λ b. b.len ≤ 0) c.bigbins
    pub bactive : All (λ b. b.len ≤ 0) (active_bins c.bactive)

  abbrev RoundOk : ThreadCache → ThreadCache × Bool → Type 0
  RoundOk c (t, true) = Rounded owner c t
  RoundOk c (t, false) = (t ≡ c) × Spent c

  active_counted :
      (o : ℕ → ℕ) (xs : List Active) → All (ActiveOk o) xs → All IsCounted (active_bins xs)
  active_counted o [] h = tt
  active_counted o (a ∷ xs) (ok, oks) = (ok.bin, active_counted o xs oks)

  active_len :
      (xs : List Active) (i : ℕ)
      → i < length xs
      → (bin_at (active_bins xs) i).len ≡ (active_at xs i).bin.len
  active_len [] i lt = elim lt [ ]
  active_len (a ∷ xs) zero lt = refl
  active_len (a ∷ xs) (suc i) lt = active_len xs i (omega arith)

  active_found :
      (xs : List Active) (j : ℕ)
      → (best_bin 0 (active_bins xs)).index ≡ some j
      → (j < length xs) × (1 ≤ (active_at xs j).bin.len)
  active_found xs j e =
      let (lt, long, more) = best_bin-found 0 (active_bins xs) j e in
      let lt' : j < length xs = omega (arith, length-map xs (λ a. a.bin)) in
      (lt', omega (arith, active_len xs j lt'))

  module _ (c : ThreadCache) (ok : CacheOk owner c) where
    abbrev m : Best
    m = best_bin 0 c.mbins

    abbrev b : Best
    b = best_bin 0 c.bigbins

    -- The part of a round for the medium and the big bins, once the others have nothing.
    module _ (short : All (λ x. x.len ≤ refill_batch) c.bins)
        (no_mactive : All (λ x. x.len ≤ 0) (active_bins c.mactive))
        (no_bactive : All (λ x. x.len ≤ 0) (active_bins c.bactive)) where
      by_mbin :
          (m.index ≡ none → b.index ≡ none)
          → (r : Option ℕ) → m.index ≡ r
          → RoundOk c (elim r [ none ↦ (c, false) | some i ↦ (halve_mbin owner i c, true) ])
      by_mbin no_big none e = (
        refl,
        record {
          bins = short;
          mbins = best_bin-none 0 c.mbins ok.mbins e;
          mactive = no_mactive;
          bigbins = best_bin-none 0 c.bigbins ok.bigbins (no_big e);
          bactive = no_bactive;
        },
      )
      by_mbin no_big (some i) e =
          let (lt, long, more) = best_bin-found 0 c.mbins i e in
          halve_mbin-Rounded owner c i ok lt long

      by_bbin :
          (r : Option ℕ)
          → b.index ≡ r
          → RoundOk c (elim r [
            | none ↦ trim_mbin owner c m
            | some j ↦
                if ltb m.bytes b.bytes then (halve_bbin owner j c, true) else trim_mbin owner c m
          ])
      unfolding trim_mbin
      by_bbin none e = by_mbin (λ none_left. e) m.index refl
      by_bbin (some j) e = elim (Bool-cases (ltb m.bytes b.bytes)) [
        | inl larger ↦
            let (lt, long, more) = best_bin-found 0 c.bigbins j e in
            simp larger (halve_bbin-Rounded owner c j ok lt long)
        | inr not_larger ↦ simp not_larger (
            by_mbin
              (λ none_left.
                let none_bytes = best_bin-none_bytes 0 c.mbins none_left in
                let (lt, long, more) = best_bin-found 0 c.bigbins j e in absurd (ground arith))
              m.index refl)
      ]

    by_bactive :
        All (λ x. x.len ≤ refill_batch) c.bins
        → All (λ x. x.len ≤ 0) (active_bins c.mactive)
        → (r : Option ℕ) → (best_bin 0 (active_bins c.bactive)).index ≡ r
        → RoundOk c
            (elim r [ some j ↦ (flush_active_big j c, true) | none ↦ trim_bbin owner c m b ])
    unfolding trim_bbin
    by_bactive short no_mactive none e =
        by_bbin short no_mactive
          (best_bin-none 0 (active_bins c.bactive) (active_counted (owner big) c.bactive ok.bactive)
            e)
          b.index refl
    by_bactive short no_mactive (some j) e =
        let (lt, long) = active_found c.bactive j e in flush_active_big-Rounded owner c j ok lt long

    by_mactive :
        All (λ x. x.len ≤ refill_batch) c.bins
        → (r : Option ℕ) → (best_bin 0 (active_bins c.mactive)).index ≡ r
        → RoundOk c
            (elim r [ some i ↦ (flush_active_medium i c, true) | none ↦ trim_bactive owner c ])
    unfolding trim_bactive
    by_mactive short none e =
        by_bactive short
          (best_bin-none 0 (active_bins c.mactive)
            (active_counted (owner medium) c.mactive ok.mactive) e)
          (best_bin 0 (active_bins c.bactive)).index refl
    by_mactive short (some i) e =
        let (lt, long) = active_found c.mactive i e in
        flush_active_medium-Rounded owner c i ok lt long

    by_bins :
        (r : Option ℕ)
        → (best_bin refill_batch c.bins).index ≡ r
        → RoundOk c (elim r [ some i ↦ (halve_bin owner i c, true) | none ↦ trim_mactive owner c ])
    unfolding trim_mactive
    by_bins none e =
        by_mactive (best_bin-none refill_batch c.bins ok.bins e)
          (best_bin 0 (active_bins c.mactive)).index refl
    by_bins (some i) e =
        let (lt, long, more) = best_bin-found refill_batch c.bins i e in
        halve_bin-Rounded owner c i ok lt (omega (arith, long))

    trim_round-RoundOk : RoundOk c (trim_round owner c)
    unfolding trim_round
    trim_round-RoundOk = by_bins (best_bin refill_batch c.bins).index refl

  -- Where a trim ends.
  pub record Trimmed (target : ℕ) (c t : ThreadCache) : Type 0 where
    pub ok : CacheOk owner t
    pub all_there : (f : ℕ → ℕ) → all_blocks f t ≡ all_blocks f c
    pub fewer : blocks_held t ≤ blocks_held c
    pub ended : (t.cached_bytes ≤ target) ⊎ Spent t

  Trimmed-later :
      (target : ℕ) (c m t : ThreadCache)
      → Rounded owner c m
      → Trimmed target m t
      → Trimmed target c t
  Trimmed-later target c m t one more = record {
    ok = more.ok;
    all_there = λ f. more.all_there f ∙ one.all_there f;
    fewer = omega (arith, one.fewer, more.fewer);
    ended = more.ended;
  }

  trim_loop_done :
      (fuel target : ℕ) (c : ThreadCache)
      → ltb target c.cached_bytes ≡ false
      → trim_loop owner (suc fuel) target c ≡ c
  unfolding trim_loop
  trim_loop_done fuel target c done = rw (done, trim_loop)

  abbrev continued : ℕ → ℕ → ThreadCache × Bool → ThreadCache
  continued fuel target (t, true) = trim_loop owner fuel target t
  continued fuel target (t, false) = t

  trim_loop_more :
      (fuel target : ℕ) (c : ThreadCache)
      → ltb target c.cached_bytes ≡ true
      → trim_loop owner (suc fuel) target c ≡ continued fuel target (trim_round owner c)
  unfolding trim_loop
  trim_loop_more fuel target c over = rw (over, trim_loop)

  trim_loop-Trimmed :
      (fuel target : ℕ) (c : ThreadCache)
      → blocks_held c < fuel
      → CacheOk owner c
      → Trimmed target c (trim_loop owner fuel target c)
  trim_loop-Trimmed zero target c lt ok = absurd (omega arith)
  trim_loop-Trimmed (suc fuel) target c lt ok = elim (Bool-cases (ltb target c.cached_bytes)) [
    | inr done ↦
        subst (Trimmed target c) (sym (trim_loop_done fuel target c done)) (record {
          ok = ok;
          all_there = λ f. refl;
          fewer = omega arith;
          ended = inl (ground arith);
        })
    | inl over ↦
        subst (Trimmed target c) (sym (trim_loop_more fuel target c over))
          (by_round (trim_round owner c) (trim_round-RoundOk c ok) (trim_loop-Trimmed fuel target))
  ]
    where
      by_round :
          (r : ThreadCache × Bool)
          → RoundOk c r
          → ((t : ThreadCache)
              → blocks_held t < fuel
              → CacheOk owner t
              → Trimmed target t (trim_loop owner fuel target t))
          → Trimmed target c (continued fuel target r)
      by_round (t, true) one later =
          Trimmed-later target c t (trim_loop owner fuel target t) one
            (later t (omega (arith, one.fewer)) one.ok)
      by_round (t, false) (same_cache, spent) later =
          subst (Trimmed target c) (sym same_cache)
            (record { ok = ok; all_there = λ f. refl; fewer = omega arith; ended = inr spent })

  refreshed :
      (global : Budget) (c : ThreadCache)
      → CacheOk owner c
      → CacheOk owner (refresh_budget global c)
        × ((f : ℕ → ℕ) → all_blocks f (refresh_budget global c) ≡ all_blocks f c)
        × (blocks_held (refresh_budget global c) ≡ blocks_held c)
  unfolding refresh_budget
  refreshed global c ok = elim (Bool-cases (c.budget_epoch == global.epoch)) [
    | inl same_epoch ↦ simp same_epoch (ok, λ f. refl, refl)
    | inr other ↦ simp other (
      record {
        bins = ok.bins;
        mbins = ok.mbins;
        mactive = ok.mactive;
        bigbins = ok.bigbins;
        bactive = ok.bactive;
        tier_counted = ok.tier_counted;
        byte_counted = ok.byte_counted;
        given = ok.given;
      },
      λ f. refl,
      refl,
    )
  ]

  -- For a cache that is right: a trim ends, keeps it right, and loses no block: every block is still
  -- cached or in a group given to the heap, under its owner. It ends at or under the target for the
  -- current budget, or with nothing left to take: no small bin longer than a batch, and no block in
  -- the bins and active spans of the other tiers.
  pub trim-Trimmed :
      (global : Budget) (c : ThreadCache)
      → CacheOk owner c
      → Trimmed (trim_target (refresh_budget global c)) c (trim owner global c)
  unfolding trim
  trim-Trimmed global c ok =
      let d = refresh_budget global c in
      let (ok', there, held) = refreshed global c ok in
      let t = trim_loop-Trimmed (blocks_held d + 1) (trim_target d) d (omega arith) ok' in
      record {
        ok = t.ok;
        all_there = λ f. t.all_there f ∙ there f;
        fewer = omega (arith, t.fewer, held);
        ended = t.ended;
      }
