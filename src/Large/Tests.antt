-- ===== src/Large/Tests.antt =====
-- src/lib.rs and src/cache.rs: concrete large regions.
use allox.Prelude.{ℕ, ◌+◌, ◌*◌, ◌%◌, ◌≤◌, ◌<◌, ◌≡◌, refl, true, some, [], ◌∷◌, arith}
use allox.Classes.{page_size}
use allox.Large.{RegionCache, new_cache, take_fit}
use allox.Large.Store.{
  Discarded, park_region, ParkOutcome, new_cache-CacheOk, park_region-ParkOutcome,
}
use allox.Large.Fit.{FitOutcome, take_fit-best}
use allox.Large.Stash.{
  Stash, StashOk, StashOutcome, take_large_stash, push_large_stash, take_large_stash-best,
  PushOutcome, push_large_stash-PushOutcome,
}
use allox.Large.Header.{
  Headers, init_large_header, large_header_size, large_header_of, large_mapped, place_large,
  place_large-mapped, large_header_of-init, large_total, mapped_for, whole_pages, add_or_none,
}

abbrev demo_purge : Discarded
demo_purge = record { physical = true; zeroed = true }

abbrev demo_shard : RegionCache
demo_shard = (park_region demo_purge new_cache 65536 (2 * page_size)).0

park_region-ParkOutcome_example :
    ParkOutcome demo_purge new_cache 65536
      (2 * page_size)
      (park_region demo_purge new_cache 65536 (2 * page_size))
park_region-ParkOutcome_example =
    park_region-ParkOutcome demo_purge new_cache 65536 (2 * page_size) new_cache-CacheOk
      (refl, omega arith)

take_fit-best_example : FitOutcome demo_shard page_size (take_fit demo_shard page_size)
take_fit-best_example = take_fit-best demo_shard page_size refl (omega arith)

abbrev demo_stash : Stash
demo_stash = record { large = (65536, 4) ∷ (655360, 2) ∷ []; large_bytes = 6 * page_size }

demo_stash-StashOk : StashOk demo_stash
demo_stash-StashOk = record { bytes = refl; room = omega arith; cap = omega arith }

take_large_stash-best_example : StashOutcome demo_stash 1 (take_large_stash demo_stash 1)
take_large_stash-best_example = take_large_stash-best demo_stash demo_stash-StashOk 1

push_large_stash-PushOutcome_example :
    PushOutcome demo_stash 6553600 3 (push_large_stash demo_stash 6553600 3)
push_large_stash-PushOutcome_example =
    push_large_stash-PushOutcome demo_stash demo_stash-StashOk 6553600 3

demo_mapped : large_mapped 100000 4096 0 ≡ some (2 * page_size)
unfolding large_mapped large_total mapped_for whole_pages add_or_none
demo_mapped = refl

place_large-mapped_example :
    (ret : ℕ) × (place_large 1048576 (2 * page_size) 100000 4096 ≡ some ret)
    × (ret % 4096 ≡ 0)
    × (1048576 + large_header_size ≤ ret)
    × (ret + 100000 + 0 < 1048576 + 2 * page_size)
    × (2 * page_size % page_size ≡ 0)
    × (2 * page_size < 100000 + 4096 + large_header_size + 0 + page_size)
place_large-mapped_example =
    place_large-mapped 100000 4096 0 (2 * page_size) 1048576 (omega arith) demo_mapped

abbrev demo_headers : Headers
demo_headers address = record {
  magic = 0;
  mapped_size = 0;
  base = 0;
  requested_size = 0;
  registry_next = 0;
}

large_header_of-init_example :
    large_header_of
      (init_large_header demo_headers 1048576 1048576 (2 * page_size) 100000)
      (1048576 + large_header_size)
    ≡ some (1048576, 2 * page_size)
large_header_of-init_example =
    large_header_of-init demo_headers 1048576 1048576 (2 * page_size) 100000 refl (omega arith)
      (omega arith) refl (omega arith)
