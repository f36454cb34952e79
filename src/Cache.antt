-- ===== src/Cache.antt =====
-- src/cache.rs: how a thread cache gives blocks back: `flush_bin`, `flush_mbin` and `flush_bbin`,
-- which group what they take from a bin by the page or span that owns it. They differ in the size of
-- a chunk, in the byte count of their tier and in the owner of a block, and are `flush_tier` at a
-- tier; `owner` is `PageHeader::of`, `SpanMaster::of` and the look-up in the side table. A free list
-- is the list of its blocks, the head first, and a bin has the block size of its class with it. What
-- is given to the heap is logged, the latest first.
pub mod Trim
pub mod Groups
pub mod Flush
pub mod Search
pub mod Halve
pub mod Rounds
pub mod Trimmed
mod Tests
use allox.Prelude.{
  ℕ, zero, suc, ◌+◌, ◌-◌, ◌*◌, Bool, true, false, ◌&&◌, Option, none, some, List, [], ◌∷◌, ◌++◌,
  ltb, leb, ◌==◌, if◌then◌else◌, length,
}

pub data Tier : Type 0 where
  small medium big : Tier

pub record Bin : Type 0 where
  pub size : ℕ
  pub blocks : List ℕ
  pub len : ℕ
  pub virgin : ℕ

-- `head..=tail`, in this order, with its count.
pub record Group : Type 0 where
  pub owner : ℕ
  pub blocks : List ℕ
  pub n : ℕ

pub record Release : Type 0 where
  pub tier : Tier
  pub class : ℕ
  pub groups : List Group

abbrev pub flush_chunk : Tier → ℕ
flush_chunk small = 2048
flush_chunk medium = 256
flush_chunk big = 64

abbrev pub max_flush_groups : Tier → ℕ
max_flush_groups small = flush_chunk small + 8
max_flush_groups medium = flush_chunk medium + 4
max_flush_groups big = flush_chunk big + 4

-- A bin with the byte counts of its cache, and what has been given to the heap.
pub record Binned : Type 0 where
  pub bin : Bin
  pub cached_bytes : ℕ
  pub tier_cached_bytes : ℕ
  pub given : List Release

-- The local variables of one chunk.
pub record Flushing : Type 0 where
  pub at : Binned
  pub groups : List Group
  pub popped : ℕ

abbrev pub tier_bytes_less : Tier → ℕ → ℕ → ℕ
tier_bytes_less small bytes size = bytes
tier_bytes_less medium bytes size = bytes - size
tier_bytes_less big bytes size = bytes - size

-- The slot whose owner is the block's, if there is one, takes the block at its tail.
unfoldable pub add_to_group : ℕ → ℕ → List Group → Option (List Group)
add_to_group o b [] = none
add_to_group o b (g ∷ gs) =
    let rest = add_to_group o b gs in
    if g.owner == o
    then some ((record g { blocks = g.blocks ++ b ∷ []; n = g.n + 1 }) ∷ gs)
    else elim rest [ none ↦ none | some hs ↦ some (g ∷ hs) ]

-- Without room for a group, a small block is dropped and another is released alone.
unfoldable pub no_room : Tier → ℕ → ℕ → ℕ → Flushing → Flushing
no_room small class o b s = s
no_room medium class o b s = record s {
  at = record (s.at) {
    given =
        (record {
          tier = medium;
          class = class;
          groups = (record { owner = o; blocks = b ∷ []; n = 1 }) ∷ [];
        })
        ∷ s.at.given;
  };
}
no_room big class o b s = record s {
  at = record (s.at) {
    given =
        (record {
          tier = big;
          class = class;
          groups = (record { owner = o; blocks = b ∷ []; n = 1 }) ∷ [];
        })
        ∷ s.at.given;
  };
}

unfoldable pub group_block : Tier → ℕ → ℕ → ℕ → Flushing → Flushing
group_block tier class o b s = elim (add_to_group o b s.groups) [
  | some gs ↦ record s { groups = gs }
  | none ↦
      if leb (max_flush_groups tier) (length s.groups)
      then no_room tier class o b s
      else record s { groups = s.groups ++ (record { owner = o; blocks = b ∷ []; n = 1 }) ∷ [] }
]

-- A block leaves the bin.
unfoldable pub pop_bin : Tier → Binned → List ℕ → Binned
pop_bin tier c rest =
    let below = c.bin.len - 1 in
    record c {
      bin = record (c.bin) {
        blocks = rest;
        len = below;
        virgin = if ltb below c.bin.virgin then c.bin.virgin - 1 else c.bin.virgin;
      };
      cached_bytes = c.cached_bytes - c.bin.size;
      tier_cached_bytes = tier_bytes_less tier c.tier_cached_bytes c.bin.size;
    }

-- One round of the inner loop; the second part says whether it goes on.
unfoldable pub flush_pop : Tier → (ℕ → ℕ) → ℕ → Flushing → List ℕ → Flushing × Bool
flush_pop tier owner class s [] = (s, false)
flush_pop tier owner class s (b ∷ rest) = (
  group_block tier class (owner b) b
      (record s { at = pop_bin tier s.at rest; popped = s.popped + 1 }),
  true,
)

unfoldable pub flush_pops : ℕ → Tier → (ℕ → ℕ) → ℕ → ℕ → Flushing → Flushing
flush_pops zero tier owner class floor s = s
flush_pops (suc fuel) tier owner class floor s =
    let (next, more) = flush_pop tier owner class s s.at.bin.blocks in
    elim (ltb floor s.at.bin.len && ltb s.popped (flush_chunk tier)) [
      | false ↦ s
      | true ↦ elim more [ true ↦ flush_pops fuel tier owner class floor next | false ↦ s ]
    ]

-- One round of the outer loop.
unfoldable pub flush_one_chunk : Tier → (ℕ → ℕ) → ℕ → ℕ → Binned → Flushing
flush_one_chunk tier owner class floor c =
    flush_pops (flush_chunk tier) tier owner class floor
      (record { at = c; groups = []; popped = 0 })

abbrev pub give_chunk : Tier → ℕ → Flushing → Binned
give_chunk tier class t = record (t.at) {
  given = (record { tier = tier; class = class; groups = t.groups }) ∷ t.at.given;
}

unfoldable pub flush_loop : ℕ → Tier → (ℕ → ℕ) → ℕ → ℕ → Binned → Binned
flush_loop zero tier owner class floor c = c
flush_loop (suc fuel) tier owner class floor c =
    let t = flush_one_chunk tier owner class floor c in
    elim (ltb floor c.bin.len) [
      | false ↦ c
      | true ↦ elim (t.popped == 0) [
        | true ↦ give_chunk tier class t
        | false ↦ flush_loop fuel tier owner class floor (give_chunk tier class t)
      ]
    ]

-- Every round but the last takes a block.
unfoldable pub flush_tier : Tier → (ℕ → ℕ) → ℕ → ℕ → Binned → Binned
flush_tier tier owner class floor c = flush_loop (c.bin.len + 1) tier owner class floor c

unfoldable pub flush_bin : (ℕ → ℕ) → ℕ → ℕ → Binned → Binned
flush_bin = flush_tier small

unfoldable pub flush_mbin : (ℕ → ℕ) → ℕ → ℕ → Binned → Binned
flush_mbin = flush_tier medium

unfoldable pub flush_bbin : (ℕ → ℕ) → ℕ → ℕ → Binned → Binned
flush_bbin = flush_tier big
