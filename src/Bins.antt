-- ===== src/Bins.antt =====
-- src/cache.rs: one small bin of a thread cache: the hit of `alloc_zeroed`, the end of `refill`,
-- which splits a batch of the heap, and the push of `dealloc`. A free list is the list of its
-- blocks, the head first; the heap's batch is a parameter. Budgets, trims and flushes, which only
-- take blocks away from the bin, are not in it.
pub mod Virgin
mod Tests
use allox.Prelude.{
  ℕ, ◌+◌, ◌-◌, ◌*◌, Bool, true, false, Option, none, some, List, [], ◌∷◌, ltb, if◌then◌else◌,
  length,
}

pub record SmallBin : Type 0 where
  pub blocks : List ℕ
  pub len : ℕ
  pub virgin : ℕ

-- The bin of one class, and the bytes that the cache counts for it.
pub record Cached : Type 0 where
  pub bin : SmallBin
  pub cached_bytes : ℕ

abbrev pub Popped : Type 0
Popped = Cached × Option (ℕ × Bool)

-- `size` is the block size of the class; the flag says that the block is still zero.
unfoldable pub alloc_zeroed_hit : ℕ → Cached → List ℕ → Popped
alloc_zeroed_hit size c [] = (c, none)
alloc_zeroed_hit size c (p ∷ rest) =
    let below = c.bin.len - 1 in
    let zeroed = ltb below c.bin.virgin in
    (
      record {
        bin = record {
          blocks = rest;
          len = below;
          virgin = if zeroed then c.bin.virgin - 1 else c.bin.virgin;
        };
        cached_bytes = c.cached_bytes - size;
      },
      some (p, zeroed),
    )

unfoldable pub alloc_zeroed : ℕ → Cached → Popped
unfolding alloc_zeroed_hit
alloc_zeroed size c = alloc_zeroed_hit size c c.bin.blocks

-- The batch that the heap gave for an empty bin: its blocks, and whether their page is virgin.
unfoldable pub refill : ℕ → Cached → List ℕ → Bool → Popped
refill size c [] virgin = (c, none)
refill size c (first ∷ rest) virgin =
    let count = length rest + 1 in
    (
      record {
        bin = record {
          blocks = rest;
          len = c.bin.len + (count - 1);
          virgin = if virgin then count - 1 else 0;
        };
        cached_bytes = c.cached_bytes + size * (count - 1);
      },
      some (first, virgin),
    )

unfoldable pub dealloc : ℕ → Cached → ℕ → Cached
dealloc size c p = record {
  bin = record (c.bin) { blocks = p ∷ c.bin.blocks; len = c.bin.len + 1 };
  cached_bytes = c.cached_bytes + size;
}
