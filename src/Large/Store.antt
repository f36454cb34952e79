-- ===== src/Large/Store.antt =====
-- src/lib.rs: parking a freed region on its shard (the locked part of `free_large`), and the
-- invariant of a shard: the byte counts are those of the regions, the flag arrays run beside the
-- entries, the exact-size indexes are right, and slots and bytes stay within their caps.
use allox.Prelude.{
  ℕ, ◌+◌, ◌*◌, ◌/◌, ◌%◌, ◌^◌, ◌≤◌, ◌<◌, ◌≡◌, refl, Bool, true, false, ◌&&◌, not, [], ◌∷◌, ◌++◌,
  arith, ltb, leb, if◌then◌else◌, length, total, total-append, total-swap_remove, length-append,
  length-swap_remove, Bool-cases, inl, inr, ◌⊎◌, ◌∙◌, ap,
}
use allox.Regions.{Region, null_region}
use allox.Classes.{page_size}
use allox.Large.{
  Flags, clear_flags, Tier, RegionCache, new_cache, index_tier, remove_tier, large_shard_slots,
  large_shard_cap_bytes, large_cold_slots, large_cold_cap_bytes,
}
use allox.Large.Index.{IndexOk, index_tier-IndexOk, remove-IndexOk}

-- What a purge reports: the physical pages are gone; the range reads as zero.
pub record Discarded : Type 0 where
  pub physical : Bool
  pub zeroed : Bool

-- A region of `mapped` bytes takes the next slot of a tier.
unfoldable pub push_tier : Tier → ℕ → ℕ → Flags → Tier
push_tier t base mapped flags =
    let pages = mapped / page_size % 2 ^ 32 in
    index_tier
      (record t {
        bytes = t.bytes + mapped;
        entries = t.entries ++ (base, pages) ∷ [];
        flags = t.flags ++ flags ∷ [];
      })
      (length t.entries) pages

abbrev pub takes_more : Tier → ℕ → ℕ → ℕ → Bool
takes_more t slots cap mapped = ltb (length t.entries) slots && leb (t.bytes + mapped) cap

-- Hot if there is room, else cold and purged; the result says whether the region was kept.
unfoldable pub park_region : Discarded → RegionCache → ℕ → ℕ → RegionCache × Bool
park_region purge c base mapped =
    if takes_more c.hot large_shard_slots large_shard_cap_bytes mapped
    then (record c { hot = push_tier c.hot base mapped clear_flags }, true)
    else if takes_more c.cold large_cold_slots large_cold_cap_bytes mapped
    then (
      record c {
        cold =
            push_tier c.cold base mapped
              (record { zeroed = purge.zeroed; decommitted = purge.physical && not purge.zeroed });
      },
      true,
    )
    else (c, false)

abbrev pub region_bytes : Region → ℕ
region_bytes (base, pages) = pages * page_size

pub record TierOk (slots limit : ℕ) (t : Tier) : Type 0 where
  pub bytes : t.bytes ≡ total region_bytes t.entries
  pub flags : length t.flags ≡ length t.entries
  pub index : IndexOk t.entries t.exact
  pub room : length t.entries ≤ slots
  pub cap : t.bytes ≤ limit

pub record CacheOk (c : RegionCache) : Type 0 where
  pub hot : TierOk large_shard_slots large_shard_cap_bytes c.hot
  pub cold : TierOk large_cold_slots large_cold_cap_bytes c.cold

pub new_cache-CacheOk : CacheOk new_cache
new_cache-CacheOk = record {
  hot = record {
    bytes = refl;
    flags = refl;
    index = λ p h. inr (refl, λ j lt. elim lt [ ]);
    room = omega arith;
    cap = omega arith;
  };
  cold = record {
    bytes = refl;
    flags = refl;
    index = λ p h. inr (refl, λ j lt. elim lt [ ]);
    room = omega arith;
    cap = omega arith;
  };
}

-- Recording in the index changes nothing else.
index_tier-fields :
    (t : Tier) (i pages : ℕ)
    → ((index_tier t i pages).entries ≡ t.entries)
      × ((index_tier t i pages).bytes ≡ t.bytes)
      × ((index_tier t i pages).flags ≡ t.flags)
unfolding index_tier
index_tier-fields t i pages = ground arith

-- A mapped size: whole pages, fewer than 2 ^ 32 of them.
abbrev pub IsMapped : ℕ → Type 0
IsMapped mapped = (mapped % page_size ≡ 0) × (mapped / page_size < 2 ^ 32)

module _ (slots cap : ℕ) (few : slots ≤ 512) (t : Tier) (ok : TierOk slots cap t) where
  pub push_tier-TierOk :
      (base mapped : ℕ) (flags : Flags)
      → IsMapped mapped
      → takes_more t slots cap mapped ≡ true
      → TierOk slots cap (push_tier t base mapped flags)
  unfolding push_tier
  push_tier-TierOk base mapped flags whole room =
      let pages = mapped / page_size % 2 ^ 32 in
      let r : Region = (base, pages) in
      let counted : Tier = record t { bytes = t.bytes + mapped; flags = t.flags ++ flags ∷ [] } in
      let pushed : Tier = record counted { entries = t.entries ++ r ∷ [] } in
      let (same, bytes, same_flags) = index_tier-fields pushed (length t.entries) pages in
      record {
        bytes =
            rw (same, bytes)
              (omega (arith, ok.bytes, total-append region_bytes t.entries (r ∷ [])));
        flags =
            rw (same, same_flags)
              (omega (
                arith,
                ok.flags,
                length-append t.entries (r ∷ []),
                length-append t.flags (flags ∷ []),
              ));
        index = rw same (index_tier-IndexOk counted r ok.index (omega (arith, ok.room)));
        room = rw same (ground (arith, length-append t.entries (r ∷ [])));
        cap = rw bytes (ground arith);
      }

  pub remove_tier-TierOk : (i : ℕ) → i < length t.entries → TierOk slots cap (remove_tier t i)
  unfolding remove_tier
  remove_tier-TierOk i lt = record {
    bytes = omega (arith, ok.bytes, total-swap_remove region_bytes t.entries i null_region lt);
    flags = omega (
      arith,
      ok.flags,
      length-swap_remove t.entries i null_region,
      length-swap_remove t.flags i clear_flags,
    );
    index = remove-IndexOk t.entries i t.exact lt (omega (arith, ok.room)) ok.index;
    room = omega (arith, ok.room, length-swap_remove t.entries i null_region);
    cap = omega (arith, ok.cap);
  }

-- The tier has no slot left or no bytes.
abbrev pub IsFull : Tier → ℕ → ℕ → ℕ → Type 0
IsFull t slots cap mapped = (slots ≤ length t.entries) ⊎ (cap < t.bytes + mapped)

-- The region is the last of the tier, with its flags beside it.
pub record Added (t : Tier) (base mapped : ℕ) (zeroed decommitted : Bool) (u : Tier) : Type 0 where
  pub entries : u.entries ≡ t.entries ++ (base, mapped / page_size) ∷ []
  pub flags : u.flags ≡ t.flags ++ (record { zeroed = zeroed; decommitted = decommitted }) ∷ []

-- What parking does: a region is kept in the hot tier, dirty, while that has room; else in the cold
-- tier with what the purge reports; and refused when both are full.
abbrev pub ParkOutcome : Discarded → RegionCache → ℕ → ℕ → RegionCache × Bool → Type 0
ParkOutcome purge c base mapped (d, false) =
    (d ≡ c)
    × IsFull c.hot large_shard_slots large_shard_cap_bytes mapped
    × IsFull c.cold large_cold_slots large_cold_cap_bytes mapped
ParkOutcome purge c base mapped (d, true) =
    CacheOk d
    × (((d.cold ≡ c.cold) × Added c.hot base mapped false false d.hot)
        ⊎ (IsFull c.hot large_shard_slots large_shard_cap_bytes mapped
            × (d.hot ≡ c.hot)
            × Added c.cold base mapped purge.zeroed (purge.physical && not purge.zeroed) d.cold))

push_tier-Added :
    (t : Tier) (base mapped : ℕ) (flags : Flags)
    → IsMapped mapped
    → Added t base mapped flags.zeroed flags.decommitted (push_tier t base mapped flags)
unfolding push_tier
push_tier-Added t base mapped flags whole =
    let pages = mapped / page_size % 2 ^ 32 in
    let pushed : Tier = record t {
      bytes = t.bytes + mapped;
      entries = t.entries ++ (base, pages) ∷ [];
      flags = t.flags ++ flags ∷ [];
    } in
    let (same, bytes, same_flags) = index_tier-fields pushed (length t.entries) pages in
    let short : pages ≡ mapped / page_size = omega (arith, whole.1) in
    record { entries = same ∙ ap (λ n. t.entries ++ (base, n) ∷ []) short; flags = same_flags }

takes_more-IsFull :
    (t : Tier) (slots cap mapped : ℕ)
    → takes_more t slots cap mapped ≡ false
    → IsFull t slots cap mapped
takes_more-IsFull t slots cap mapped e = ground arith

-- Parking a region of whole pages, fewer than 2 ^ 32, in a shard whose counts, flag arrays and
-- indexes are right: with a slot and bytes left in the hot tier it is the last entry there, and not
-- known to be zero; with none it is the last entry of the cold tier, flagged zero when the purge
-- says so and decommitted when its memory is gone but not zero; it is refused only when both tiers
-- are full, and then the shard is unchanged. The other tier is as before, and the shard is still
-- right.
pub park_region-ParkOutcome :
    (purge : Discarded) (c : RegionCache) (base mapped : ℕ)
    → CacheOk c
    → IsMapped mapped
    → ParkOutcome purge c base mapped (park_region purge c base mapped)
unfolding park_region
park_region-ParkOutcome purge c base mapped ok whole =
    elim (Bool-cases (takes_more c.hot large_shard_slots large_shard_cap_bytes mapped)) [
      | inl e ↦ rw e (
        record {
          hot =
              push_tier-TierOk large_shard_slots large_shard_cap_bytes (omega arith) c.hot ok.hot
                base mapped clear_flags whole e;
          cold = ok.cold;
        },
        inl (refl, push_tier-Added c.hot base mapped clear_flags whole),
      )
      | inr e ↦
          let full = takes_more-IsFull c.hot large_shard_slots large_shard_cap_bytes mapped e in
          rw e (elim (Bool-cases (takes_more c.cold large_cold_slots large_cold_cap_bytes mapped)) [
            | inl e' ↦ rw e' (
              record {
                hot = ok.hot;
                cold =
                    push_tier-TierOk large_cold_slots large_cold_cap_bytes (omega arith) c.cold
                      ok.cold base mapped _ whole e';
              },
              inr (full, refl, push_tier-Added c.cold base mapped _ whole),
            )
            | inr e' ↦ rw e' (
              refl,
              full,
              takes_more-IsFull c.cold large_cold_slots large_cold_cap_bytes mapped e',
            )
          ])
    ]
