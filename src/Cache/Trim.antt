-- ===== src/Cache/Trim.antt =====
-- src/cache.rs: `trim`, which brings the bytes of a thread cache under a target by halving its
-- largest bins, and the flushes of the active spans. Indices that no search gives read an empty
-- bin. `owner` is the owner of a block in each tier.
use allox.Prelude.{
  ℕ, zero, suc, ◌+◌, ◌-◌, ◌*◌, ◌/◌, ◌^◌, Bool, true, false, ◌&&◌, ◌||◌, Option, none, some, List,
  [], ◌∷◌, ltb, ◌==◌, if◌then◌else◌, length, set, get_or, map, total, min,
}
use allox.Heap.{refill_batch}
use allox.Cache.{Tier, small, medium, big, Bin, Release, Binned, flush_bin, flush_mbin, flush_bbin}

-- `ActiveMedium` and `ActiveBig`; the free list, its length and its virgin blocks are in `bin`.
pub record Active : Type 0 where
  pub span : ℕ
  pub base : ℕ
  pub end : ℕ
  pub bin : Bin

abbrev pub empty_bin : ℕ → Bin
empty_bin size = record { size = size; blocks = []; len = 0; virgin = 0 }

abbrev pub empty_active : ℕ → Active
empty_active size = record { span = 0; base = 0; end = 0; bin = empty_bin size }

pub record ThreadCache : Type 0 where
  pub bins : List Bin
  pub mbins : List Bin
  pub mactive : List Active
  pub bigbins : List Bin
  pub bactive : List Active
  pub cached_bytes : ℕ
  pub tier_cached_bytes : ℕ
  pub budget : ℕ
  pub budget_epoch : ℕ
  pub foreign_bytes : ℕ
  pub given : List Release

-- The global budget.
pub record Budget : Type 0 where
  pub bytes : ℕ
  pub epoch : ℕ

unfoldable pub refresh_budget : Budget → ThreadCache → ThreadCache
refresh_budget global c =
    if c.budget_epoch == global.epoch
    then c
    else record c { budget = global.bytes; budget_epoch = global.epoch }

-- A search for the largest bin with more than `least` blocks.
pub record Best : Type 0 where
  pub index : Option ℕ
  pub bytes : ℕ

abbrev pub bin_bytes : Bin → ℕ
bin_bytes b = b.len * b.size

unfoldable pub best_of : ℕ → ℕ → List Bin → Best → Best
best_of least i [] best = best
best_of least i (b ∷ bs) best = best_of least (i + 1) bs (
    if ltb least b.len && ltb best.bytes (bin_bytes b)
    then (record { index = some i; bytes = bin_bytes b })
    else best)

unfoldable pub best_bin : ℕ → List Bin → Best
best_bin least bins = best_of least 0 bins (record { index = none; bytes = 0 })

abbrev pub bin_at : List Bin → ℕ → Bin
bin_at bins i = get_or bins i (empty_bin 0)

abbrev pub active_at : List Active → ℕ → Active
active_at actives i = get_or actives i (empty_active 0)

abbrev pub binned : ThreadCache → Bin → Binned
binned c b = record {
  bin = b;
  cached_bytes = c.cached_bytes;
  tier_cached_bytes = c.tier_cached_bytes;
  given = c.given;
}

abbrev pub with_counts : ThreadCache → Binned → ThreadCache
with_counts c r = record c {
  cached_bytes = r.cached_bytes;
  tier_cached_bytes = r.tier_cached_bytes;
  given = r.given;
}

module _ (owner : Tier → ℕ → ℕ) where
  -- `flush_bin`, `flush_mbin` and `flush_bbin` of half a bin
  unfoldable pub halve_bin : ℕ → ThreadCache → ThreadCache
  unfolding flush_bin
  halve_bin i c =
      let b = bin_at c.bins i in
      let r = flush_bin (owner small) i (b.len / 2) (binned c b) in
      record (with_counts c r) { bins = set c.bins i r.bin }

  unfoldable pub halve_mbin : ℕ → ThreadCache → ThreadCache
  unfolding flush_mbin
  halve_mbin i c =
      let b = bin_at c.mbins i in
      let r = flush_mbin (owner medium) i (b.len / 2) (binned c b) in
      record (with_counts c r) { mbins = set c.mbins i r.bin }

  unfoldable pub halve_bbin : ℕ → ThreadCache → ThreadCache
  unfolding flush_bbin
  halve_bbin i c =
      let b = bin_at c.bigbins i in
      let r = flush_bbin (owner big) i (b.len / 2) (binned c b) in
      record (with_counts c r) { bigbins = set c.bigbins i r.bin }

-- All blocks of an active span go back to it.
unfoldable pub give_active : Tier → ℕ → ThreadCache → Active → ThreadCache
give_active tier class c a = record c {
  cached_bytes = c.cached_bytes - a.bin.size * a.bin.len;
  tier_cached_bytes = c.tier_cached_bytes - a.bin.size * a.bin.len;
  given =
      (record {
        tier = tier;
        class = class;
        groups = (record { owner = a.span; blocks = a.bin.blocks; n = a.bin.len }) ∷ [];
      })
      ∷ c.given;
}

unfoldable pub flush_active_medium : ℕ → ThreadCache → ThreadCache
flush_active_medium i c =
    let a = active_at c.mactive i in
    if length a.bin.blocks == 0 || a.bin.len == 0
    then c
    else record (give_active medium i c a) { mactive = set c.mactive i (empty_active a.bin.size) }

unfoldable pub flush_active_big : ℕ → ThreadCache → ThreadCache
flush_active_big i c =
    let a = active_at c.bactive i in
    let gone = set c.bactive i (empty_active a.bin.size) in
    if a.span == 0 || length a.bin.blocks == 0 || a.bin.len == 0
    then record c { bactive = gone }
    else record (give_active big i c a) { bactive = gone }

abbrev pub active_bins : List Active → List Bin
active_bins = map (λ a. a.bin)

module _ (owner : Tier → ℕ → ℕ) where
  -- One round of the loop; the second part says whether it goes on. The later parts of the round
  -- come first.
  unfoldable pub trim_mbin : ThreadCache → Best → ThreadCache × Bool
  trim_mbin c m = elim m.index [ none ↦ (c, false) | some i ↦ (halve_mbin owner i c, true) ]

  unfoldable pub trim_bbin : ThreadCache → Best → Best → ThreadCache × Bool
  trim_bbin c m b = elim b.index [
    | none ↦ trim_mbin c m
    | some j ↦ if ltb m.bytes b.bytes then (halve_bbin owner j c, true) else trim_mbin c m
  ]

  unfoldable pub trim_bactive : ThreadCache → ThreadCache × Bool
  trim_bactive c = elim (best_bin 0 (active_bins c.bactive)).index [
    | some j ↦ (flush_active_big j c, true)
    | none ↦ trim_bbin c (best_bin 0 c.mbins) (best_bin 0 c.bigbins)
  ]

  unfoldable pub trim_mactive : ThreadCache → ThreadCache × Bool
  trim_mactive c = elim (best_bin 0 (active_bins c.mactive)).index [
    | some i ↦ (flush_active_medium i c, true)
    | none ↦ trim_bactive c
  ]

  unfoldable pub trim_round : ThreadCache → ThreadCache × Bool
  trim_round c = elim (best_bin refill_batch c.bins).index [
    | some i ↦ (halve_bin owner i c, true)
    | none ↦ trim_mactive c
  ]

  unfoldable pub trim_loop : ℕ → ℕ → ThreadCache → ThreadCache
  trim_loop zero target c = c
  trim_loop (suc fuel) target c =
      let (next, more) = trim_round c in
      elim (ltb target c.cached_bytes) [
        | false ↦ c
        | true ↦ elim more [ true ↦ trim_loop fuel target next | false ↦ next ]
      ]

abbrev pub saturating_double : ℕ → ℕ
saturating_double n = min (n * 2) (2 ^ 64 - 1)

abbrev pub blocks_held : ThreadCache → ℕ
blocks_held c =
    total (λ b. b.len) c.bins
    + total (λ b. b.len) c.mbins
    + total (λ a. a.bin.len) c.mactive
    + total (λ b. b.len) c.bigbins
    + total (λ a. a.bin.len) c.bactive

abbrev pub trim_target : ThreadCache → ℕ
trim_target c = c.budget / 2 + min c.tier_cached_bytes (saturating_double c.budget)

-- Every round but the last takes a block.
unfoldable pub trim : (Tier → ℕ → ℕ) → Budget → ThreadCache → ThreadCache
trim owner global c =
    let d = refresh_budget global c in trim_loop owner (blocks_held d + 1) (trim_target d) d

unfoldable pub shed : (Tier → ℕ → ℕ) → Budget → ThreadCache → ThreadCache
shed owner global c = record (trim owner global c) { foreign_bytes = 0 }
