-- ===== src/Large.antt =====
-- src/lib.rs: the cache of freed large regions, one shard, and the per-thread stash of
-- src/cache.rs in front of it. The hot tier and the cold tier are each an array of regions with a
-- flag array beside it and an exact-size index; the model keeps one record `Tier` for a tier, with
-- the slots below its length. Purging a region is the kernel's: what it reports is a parameter.
pub mod Store
pub mod Fit
pub mod Index
pub mod Stash
pub mod Header
mod Tests
use allox.Prelude.{
  ℕ, zero, suc, ◌+◌, ◌-◌, ◌*◌, ◌/◌, ◌%◌, ◌^◌, Bool, true, false, ◌&&◌, ◌||◌, not, Option, none,
  some, List, [], ◌∷◌, ◌++◌, ltb, leb, ◌==◌, if◌then◌else◌, length, get_or, swap_remove,
}
use allox.Regions.{
  Region, null_region, pages_at, empty_index, refresh_loop, update, best_loop, exact_loop,
}
use allox.Classes.{page_size}

abbrev pub large_shard_slots : ℕ
large_shard_slots = 64

abbrev pub large_shard_cap_bytes : ℕ
large_shard_cap_bytes = 32 * 1024 * 1024

abbrev pub large_cold_slots : ℕ
large_cold_slots = 512

abbrev pub large_cold_cap_bytes : ℕ
large_cold_cap_bytes = 64 * 1024 * 1024

abbrev pub large_exact_max_pages : ℕ
large_exact_max_pages = large_cold_cap_bytes / page_size

-- `decommitted` stays false in the hot tier.
pub record Flags : Type 0 where
  pub zeroed : Bool
  pub decommitted : Bool

abbrev pub clear_flags : Flags
clear_flags = record { zeroed = false; decommitted = false }

pub record Tier : Type 0 where
  pub bytes : ℕ
  pub entries : List Region
  pub flags : List Flags
  pub exact : ℕ → ℕ

pub record RegionCache : Type 0 where
  pub hot : Tier
  pub cold : Tier

abbrev pub new_tier : Tier
new_tier = record { bytes = 0; entries = []; flags = []; exact = λ p. empty_index }

abbrev pub new_cache : RegionCache
new_cache = record { hot = new_tier; cold = new_tier }

unfoldable pub refresh_large_exact : List Region → ℕ → (ℕ → ℕ) → ℕ → ℕ
refresh_large_exact entries pages exact =
    if ltb large_exact_max_pages pages
    then exact
    else update exact pages (refresh_loop (length entries) entries pages 0)

-- `index_hot` and `index_cold`
unfoldable pub index_tier : Tier → ℕ → ℕ → Tier
unfolding refresh_large_exact
index_tier t index pages =
    let current = t.exact pages in
    if ltb large_exact_max_pages pages
    then t
    else if current == empty_index
    then record t { exact = update t.exact pages (index % 2 ^ 16) }
    else if leb (length t.entries) current || not (pages_at t.entries current == pages)
    then record t { exact = refresh_large_exact t.entries pages t.exact }
    else t

-- `exact_hot` and `exact_cold`
unfoldable pub exact_tier : Tier → ℕ → Option ℕ
exact_tier t wanted =
    if ltb large_exact_max_pages wanted
    then none
    else (let index = t.exact wanted in
        if ltb index (length t.entries) && pages_at t.entries index == wanted
        then some index
        else none)

-- The index after the entry that was last has moved to `index`.
unfoldable pub moved_exact : List Region → ℕ → ℕ → (ℕ → ℕ) → ℕ → ℕ
moved_exact entries index last exact =
    let moved = pages_at entries index in
    if ltb index (length entries) && leb moved large_exact_max_pages && exact moved == last % 2 ^ 16
    then update exact moved (index % 2 ^ 16)
    else exact

-- The index after an entry of `removed` pages has left slot `index`.
unfoldable pub removed_exact : List Region → ℕ → ℕ → (ℕ → ℕ) → ℕ → ℕ
unfolding refresh_large_exact
removed_exact entries index removed exact =
    let bucket = exact removed in
    if leb removed large_exact_max_pages
      && (bucket == index
          || leb (length entries) bucket
          || not (pages_at entries bucket == removed))
    then refresh_large_exact entries removed exact
    else exact

-- A region taken from the cache: its base, its pages, and its two flags.
pub record Recycled : Type 0 where
  pub region : Region
  pub zeroed : Bool
  pub decommitted : Bool

abbrev pub recycled_at : Tier → ℕ → Recycled
recycled_at t index =
    let f = get_or t.flags index clear_flags in
    record {
      region = get_or t.entries index null_region;
      zeroed = f.zeroed;
      decommitted = f.decommitted;
    }

-- `remove_hot` and `remove_cold`: the last entry takes the place of the one removed.
unfoldable pub remove_tier : Tier → ℕ → Tier
unfolding moved_exact removed_exact
remove_tier t index =
    let last = length t.entries - 1 in
    let entry = get_or t.entries index null_region in
    let entries = swap_remove t.entries index null_region in
    record {
      bytes = t.bytes - entry.1 * page_size;
      entries = entries;
      flags = swap_remove t.flags index clear_flags;
      exact = removed_exact entries index entry.1 (moved_exact entries index last t.exact);
    }

abbrev pub Fit : Type 0
Fit = RegionCache × Option Recycled

unfoldable pub take_hot : RegionCache → ℕ → Fit
take_hot c i = (record c { hot = remove_tier c.hot i }, some (recycled_at c.hot i))

unfoldable pub take_cold : RegionCache → ℕ → Fit
take_cold c i = (record c { cold = remove_tier c.cold i }, some (recycled_at c.cold i))

-- Take the entry that a search found, or go on.
abbrev pub found_or : Option ℕ → (ℕ → Fit) → Fit → Fit
found_or none found rest = rest
found_or (some i) found rest = found i

abbrev pub holds_bytes : ℕ → ℕ → Bool
holds_bytes mapped pages = leb mapped (pages * page_size)

-- The searches of `take_fit` in their order: exact by the index, hot then cold; exact by a scan,
-- hot then cold; best fit, hot then cold.
unfoldable pub take_fit : RegionCache → ℕ → Fit
take_fit c mapped =
    let wanted = mapped / page_size % 2 ^ 32 in
    let hot = c.hot.entries in
    let cold = c.cold.entries in
    found_or (exact_tier c.hot wanted) (take_hot c) (
      found_or (exact_tier c.cold wanted) (take_cold c) (
        found_or (exact_loop (length hot) hot wanted 0) (take_hot c) (
          found_or (exact_loop (length cold) cold wanted 0) (take_cold c) (
            found_or (best_loop (holds_bytes mapped) (length hot) hot 0 none) (take_hot c) (
              found_or (best_loop (holds_bytes mapped) (length cold) cold 0 none) (take_cold c)
                (c, none))))))
