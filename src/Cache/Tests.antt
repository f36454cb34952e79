-- ===== src/Cache/Tests.antt =====
-- src/cache.rs: a small and a medium bin that are flushed and trimmed.
use allox.Prelude.{ℕ, ◌-◌, ◌*◌, ◌%◌, ◌≡◌, refl, [], ◌∷◌, arith}
use allox.Cache.{
  Tier, small, Binned, flush_tier, flush_loop, flush_one_chunk, flush_pops, flush_pop, group_block,
  add_to_group, pop_bin,
}
use allox.Cache.Flush.{BinOk, Flushed, flush_tier-Flushed}
use allox.Cache.Trim.{
  ThreadCache, Budget, trim, trim_target, refresh_budget, trim_loop, trim_round, trim_mactive,
  trim_bactive, trim_bbin, trim_mbin, halve_mbin, best_bin, best_of,
}
use allox.Cache.Rounds.{CacheOk}
use allox.Cache.Trimmed.{Trimmed, trim-Trimmed}

-- The 64 KiB unit of a block.
abbrev unit_of : Tier → ℕ → ℕ
unit_of tier b = b - b % 65536

abbrev two_pages : Binned
two_pages = record {
  bin = record { size = 16; blocks = 65600 ∷ 131136 ∷ 65584 ∷ 65568 ∷ []; len = 4; virgin = 2 };
  cached_bytes = 164;
  tier_cached_bytes = 100;
  given = [];
}

two_pages-BinOk : BinOk unit_of small 100 100 two_pages
two_pages-BinOk = record {
  counted = refl;
  virgin = omega arith;
  bytes = refl;
  tier_counted = refl;
  grouped = tt;
}

flush_tier-Flushed_example :
    Flushed unit_of small 100 100 1 two_pages (flush_tier small (unit_of small) 0 1 two_pages)
flush_tier-Flushed_example =
    flush_tier-Flushed unit_of small 100 100 0 1 two_pages two_pages-BinOk (omega arith)

-- Two groups: the blocks of one page in the order they left the bin.
two_groups :
    (flush_tier small (unit_of small) 0 1 two_pages).given
    ≡ (record {
      tier = small;
      class = 0;
      groups =
          (record { owner = 65536; blocks = 65600 ∷ 65584 ∷ []; n = 2 })
          ∷ (record { owner = 131072; blocks = 131136 ∷ []; n = 1 })
          ∷ [];
    })
      ∷ []
unfolding flush_tier flush_loop flush_one_chunk flush_pops flush_pop group_block add_to_group
    pop_bin
two_groups = refl

abbrev full_cache : ThreadCache
full_cache = record {
  bins = (record { size = 16; blocks = 65600 ∷ 65584 ∷ []; len = 2; virgin = 0 }) ∷ [];
  mbins = (record { size = 10000; blocks = 200000 ∷ 210000 ∷ []; len = 2; virgin = 2 }) ∷ [];
  mactive = [];
  bigbins = [];
  bactive = [];
  cached_bytes = 20032;
  tier_cached_bytes = 20000;
  budget = 32 * 1024 * 1024;
  budget_epoch = 0;
  foreign_bytes = 0;
  given = [];
}

abbrev small_budget : Budget
small_budget = record { bytes = 1024; epoch = 1 }

full_cache-CacheOk : CacheOk unit_of full_cache
full_cache-CacheOk = record {
  bins = (record { counted = refl; virgin = omega arith; sized = omega arith }, tt);
  mbins = (record { counted = refl; virgin = omega arith; sized = omega arith }, tt);
  mactive = tt;
  bigbins = tt;
  bactive = tt;
  tier_counted = refl;
  byte_counted = refl;
  given = tt;
}

trim-Trimmed_example :
    Trimmed unit_of
      (trim_target (refresh_budget small_budget full_cache))
      full_cache
      (trim unit_of small_budget full_cache)
trim-Trimmed_example = trim-Trimmed unit_of small_budget full_cache full_cache-CacheOk

-- Both medium blocks go, one after the other.
trim_to_small : (trim unit_of small_budget full_cache).cached_bytes ≡ 32
unfolding trim refresh_budget trim_loop trim_round trim_mactive trim_bactive trim_bbin trim_mbin
    halve_mbin best_bin best_of flush_tier flush_loop flush_one_chunk flush_pops flush_pop
    group_block add_to_group pop_bin
trim_to_small = refl
