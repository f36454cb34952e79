-- ===== src/Cache/Rounds.antt =====
-- src/cache.rs: what is right of a thread cache, and that each round of `trim` keeps it.
use native.Mathlib.Nat.{mul_comm}
use allox.Prelude.{
  ℕ, ◌+◌, ◌*◌, ◌≤◌, ◌<◌, ◌≡◌, refl, subst, false, ◌||◌, List, arith, length, All, total, ◌==◌, set,
  total-set, get_or-le-total,
}
use allox.Cache.{Tier, small, medium, big}
use allox.Cache.Groups.{given_weight}
use allox.Cache.Trim.{
  Active, empty_active, ThreadCache, bin_bytes, bin_at, active_at, binned, halve_bin, halve_mbin,
  halve_bbin, give_active, flush_active_medium, flush_active_big, blocks_held,
}
use allox.Cache.Flush.{ReleaseOk}
use allox.Cache.Search.{IsCounted}
use allox.Cache.Halve.{All-get_or, All-set, bytes, contents, flush_tier-Halved}

-- An active span whose counts are right, with blocks of its own only.
pub record ActiveOk (owner : ℕ → ℕ) (a : Active) : Type 0 where
  pub bin : IsCounted a.bin
  pub own : All (λ b. owner b ≡ a.span) a.bin.blocks
  pub spanned : a.span ≡ 0 → a.bin.len ≡ 0

abbrev pub active_bytes : List Active → ℕ
active_bytes = total (λ a. bin_bytes a.bin)

abbrev pub active_contents : (ℕ → ℕ) → List Active → ℕ
active_contents f = total (λ a. total f a.bin.blocks)

-- A weight of blocks over the cache and over what it has given to the heap.
abbrev pub all_blocks : (ℕ → ℕ) → ThreadCache → ℕ
all_blocks f c =
    contents f c.bins
    + contents f c.mbins
    + active_contents f c.mactive
    + contents f c.bigbins
    + active_contents f c.bactive
    + given_weight f c.given

module _ (owner : Tier → ℕ → ℕ) where
  -- The counts of all bins are right, the bytes counted are those of the bins, and what has been
  -- given to the heap is grouped by owner.
  pub record CacheOk (c : ThreadCache) : Type 0 where
    pub bins : All IsCounted c.bins
    pub mbins : All IsCounted c.mbins
    pub mactive : All (ActiveOk (owner medium)) c.mactive
    pub bigbins : All IsCounted c.bigbins
    pub bactive : All (ActiveOk (owner big)) c.bactive
    pub tier_counted :
        c.tier_cached_bytes
        ≡ bytes c.mbins + active_bytes c.mactive + bytes c.bigbins + active_bytes c.bactive
    pub byte_counted : c.cached_bytes ≡ bytes c.bins + c.tier_cached_bytes
    pub given : All (ReleaseOk owner) c.given

  -- A round that took blocks out of the cache, and gave them to the heap.
  pub record Rounded (c t : ThreadCache) : Type 0 where
    pub ok : CacheOk t
    pub fewer : blocks_held t < blocks_held c
    pub all_there : (f : ℕ → ℕ) → all_blocks f t ≡ all_blocks f c
    pub budget : t.budget ≡ c.budget

  pub halve_bin-Rounded :
      (c : ThreadCache) (i : ℕ)
      → CacheOk c
      → i < length c.bins
      → 1 ≤ (bin_at c.bins i).len
      → Rounded c (halve_bin owner i c)
  unfolding halve_bin
  halve_bin-Rounded c i ok lt long =
      let h =
        flush_tier-Halved owner small c.bins i (binned c (bin_at c.bins i)) refl lt ok.bins long
          (omega (arith, ok.byte_counted)) (omega arith) ok.given in
      record {
        ok = record {
          bins = h.counted;
          mbins = ok.mbins;
          mactive = ok.mactive;
          bigbins = ok.bigbins;
          bactive = ok.bactive;
          tier_counted = omega (arith, h.tiered, ok.tier_counted);
          byte_counted = omega (arith, h.cached, h.tiered, ok.byte_counted);
          given = h.given;
        };
        fewer = omega (arith, h.fewer);
        all_there = λ f. omega (arith, h.all_there f);
        budget = refl;
      }

  pub halve_mbin-Rounded :
      (c : ThreadCache) (i : ℕ)
      → CacheOk c
      → i < length c.mbins
      → 1 ≤ (bin_at c.mbins i).len
      → Rounded c (halve_mbin owner i c)
  unfolding halve_mbin
  halve_mbin-Rounded c i ok lt long =
      let h =
        flush_tier-Halved owner medium c.mbins i (binned c (bin_at c.mbins i)) refl lt ok.mbins long
          (omega (arith, ok.byte_counted, ok.tier_counted)) (omega (arith, ok.tier_counted))
          ok.given in
      record {
        ok = record {
          bins = ok.bins;
          mbins = h.counted;
          mactive = ok.mactive;
          bigbins = ok.bigbins;
          bactive = ok.bactive;
          tier_counted = omega (arith, h.tiered, ok.tier_counted);
          byte_counted = omega (arith, h.cached, h.tiered, ok.byte_counted);
          given = h.given;
        };
        fewer = omega (arith, h.fewer);
        all_there = λ f. omega (arith, h.all_there f);
        budget = refl;
      }

  pub halve_bbin-Rounded :
      (c : ThreadCache) (i : ℕ)
      → CacheOk c
      → i < length c.bigbins
      → 1 ≤ (bin_at c.bigbins i).len
      → Rounded c (halve_bbin owner i c)
  unfolding halve_bbin
  halve_bbin-Rounded c i ok lt long =
      let h =
        flush_tier-Halved owner big c.bigbins i (binned c (bin_at c.bigbins i)) refl lt ok.bigbins
          long (omega (arith, ok.byte_counted, ok.tier_counted)) (omega (arith, ok.tier_counted))
          ok.given in
      record {
        ok = record {
          bins = ok.bins;
          mbins = ok.mbins;
          mactive = ok.mactive;
          bigbins = h.counted;
          bactive = ok.bactive;
          tier_counted = omega (arith, h.tiered, ok.tier_counted);
          byte_counted = omega (arith, h.cached, h.tiered, ok.byte_counted);
          given = h.given;
        };
        fewer = omega (arith, h.fewer);
        all_there = λ f. omega (arith, h.all_there f);
        budget = refl;
      }

  -- An active span that is emptied.
  module _ (tier : Tier) (class : ℕ) (c : ThreadCache) (xs : List Active) (i : ℕ)
      (lt : i < length xs) (oks : All (ActiveOk (owner tier)) xs) where
    abbrev taken : Active
    taken = active_at xs i

    abbrev left : List Active
    left = set xs i (empty_active taken.bin.size)

    taken_ok : ActiveOk (owner tier) taken
    taken_ok = All-get_or (ActiveOk (owner tier)) xs i (empty_active 0) lt oks

    left_ok : All (ActiveOk (owner tier)) left
    left_ok = All-set (ActiveOk (owner tier)) xs i (empty_active taken.bin.size) oks (record {
      bin = record { counted = refl; virgin = omega arith; sized = taken_ok.bin.sized };
      own = tt;
      spanned = λ e. refl;
    })

    left-total :
        (f : Active → ℕ) → total f left + f taken ≡ total f xs + f (empty_active taken.bin.size)
    left-total f = total-set f xs i (empty_active taken.bin.size) (empty_active 0) lt

    active_in : bin_bytes taken.bin ≤ active_bytes xs
    active_in = get_or-le-total (λ a. bin_bytes a.bin) xs i (empty_active 0) lt

    commuted : taken.bin.size * taken.bin.len ≡ bin_bytes taken.bin
    commuted = mul_comm taken.bin.size taken.bin.len

    given_ok :
        All (ReleaseOk owner) c.given → All (ReleaseOk owner) (give_active tier class c taken).given
    unfolding give_active
    given_ok h = (
      ((record { counted = taken_ok.bin.counted; own = taken_ok.own }, tt), λ o. ground arith),
      h,
    )

  pub flush_active_medium-Rounded :
      (c : ThreadCache) (i : ℕ)
      → CacheOk c
      → i < length c.mactive
      → 1 ≤ (active_at c.mactive i).bin.len
      → Rounded c (flush_active_medium i c)
  unfolding flush_active_medium give_active
  flush_active_medium-Rounded c i ok lt long =
      let a = active_at c.mactive i in
      let a_ok = taken_ok medium i c c.mactive i lt ok.mactive in
      let sums = left-total medium i c c.mactive i lt ok.mactive in
      let in_sum = active_in medium i c c.mactive i lt ok.mactive in
      let comm = commuted medium i c c.mactive i lt ok.mactive in
      let full : (length a.bin.blocks == 0 || a.bin.len == 0) ≡ false =
        ground (arith, a_ok.bin.counted) in
      subst (Rounded c)
        {x = record (give_active medium i c a) {
          mactive = set c.mactive i (empty_active a.bin.size);
        }}
        (simp full refl)
        (record {
          ok = record {
            bins = ok.bins;
            mbins = ok.mbins;
            mactive = left_ok medium i c c.mactive i lt ok.mactive;
            bigbins = ok.bigbins;
            bactive = ok.bactive;
            tier_counted =
                omega (arith, sums (λ b. bin_bytes b.bin), in_sum, comm, ok.tier_counted);
            byte_counted = omega (
              arith,
              sums (λ b. bin_bytes b.bin),
              in_sum,
              comm,
              ok.tier_counted,
              ok.byte_counted,
            );
            given = given_ok medium i c c.mactive i lt ok.mactive ok.given;
          };
          fewer = omega (arith, sums (λ b. b.bin.len), long);
          all_there = λ f. omega (arith, sums (λ b. total f b.bin.blocks));
          budget = refl;
        })

  pub flush_active_big-Rounded :
      (c : ThreadCache) (i : ℕ)
      → CacheOk c
      → i < length c.bactive
      → 1 ≤ (active_at c.bactive i).bin.len
      → Rounded c (flush_active_big i c)
  unfolding flush_active_big give_active
  flush_active_big-Rounded c i ok lt long =
      let a = active_at c.bactive i in
      let a_ok = taken_ok big i c c.bactive i lt ok.bactive in
      let sums = left-total big i c c.bactive i lt ok.bactive in
      let in_sum = active_in big i c c.bactive i lt ok.bactive in
      let comm = commuted big i c c.bactive i lt ok.bactive in
      let full : (a.span == 0 || length a.bin.blocks == 0 || a.bin.len == 0) ≡ false =
        ground (arith, a_ok.bin.counted, a_ok.spanned) in
      subst (Rounded c)
        {x = record (give_active big i c a) { bactive = set c.bactive i (empty_active a.bin.size) }}
        (simp full refl)
        (record {
          ok = record {
            bins = ok.bins;
            mbins = ok.mbins;
            bactive = left_ok big i c c.bactive i lt ok.bactive;
            bigbins = ok.bigbins;
            mactive = ok.mactive;
            tier_counted =
                omega (arith, sums (λ b. bin_bytes b.bin), in_sum, comm, ok.tier_counted);
            byte_counted = omega (
              arith,
              sums (λ b. bin_bytes b.bin),
              in_sum,
              comm,
              ok.tier_counted,
              ok.byte_counted,
            );
            given = given_ok big i c c.bactive i lt ok.bactive ok.given;
          };
          fewer = omega (arith, sums (λ b. b.bin.len), long);
          all_there = λ f. omega (arith, sums (λ b. total f b.bin.blocks));
          budget = refl;
        })
