-- ===== src/Large/Stash.antt =====
-- src/cache.rs: the large stash of a thread, `take_large_stash` and `push_large_stash`.
use allox.Prelude.{
  ℕ, ◌+◌, ◌-◌, ◌*◌, ◌≤◌, ◌<◌, ◌≡◌, refl, subst, Bool, true, false, ◌||◌, Option, none, some, List,
  [], ◌∷◌, ◌++◌, arith, ltb, leb, if◌then◌else◌, length, get_or, swap_remove, total, total-append,
  total-swap_remove, length-append, length-swap_remove, ◌⊎◌, inl, inr, Bool-cases,
}
use allox.Regions.{Region, null_region, pages_at, best_loop, exact_loop}
use allox.Regions.BestFit.{BestBelow, best_loop_lem, ExactBelow, exact_loop_lem}
use allox.Classes.{page_size}
use allox.Large.Store.{region_bytes}

abbrev large_stash_slots : ℕ
large_stash_slots = 8

abbrev large_stash_cap_bytes : ℕ
large_stash_cap_bytes = 32 * 1024 * 1024

abbrev large_stash_huge_cap_bytes : ℕ
large_stash_huge_cap_bytes = 64 * 1024 * 1024

abbrev large_stash_huge_threshold : ℕ
large_stash_huge_threshold = 4 * 1024 * 1024

-- `large[..large_len]` and `large_bytes`
pub record Stash : Type 0 where
  pub large : List Region
  pub large_bytes : ℕ

abbrev pub Taken : Type 0
Taken = Stash × Option Region

unfoldable pub take_slot : Stash → ℕ → Taken
take_slot s i = (
  record {
    large = swap_remove s.large i null_region;
    large_bytes = s.large_bytes - pages_at s.large i * page_size;
  },
  some (get_or s.large i null_region),
)

abbrev pub slot_or : Option ℕ → Stash → Taken → Taken
slot_or none s rest = rest
slot_or (some i) s rest = take_slot s i

unfoldable pub take_large_stash : Stash → ℕ → Taken
take_large_stash s pages_needed =
    slot_or (exact_loop (length s.large) s.large pages_needed 0) s
      (slot_or (best_loop (leb pages_needed) (length s.large) s.large 0 none) s (s, none))

unfoldable pub push_large_stash : Stash → ℕ → ℕ → Stash × Bool
push_large_stash s base pages =
    let bytes = pages * page_size in
    let cap =
      if leb large_stash_huge_threshold bytes
      then large_stash_huge_cap_bytes
      else large_stash_cap_bytes in
    if leb large_stash_slots (length s.large) || ltb cap (s.large_bytes + bytes)
    then (s, false)
    else (
      record { large = s.large ++ (base, pages) ∷ []; large_bytes = s.large_bytes + bytes },
      true,
    )

-- The byte count is that of the regions; slots and bytes are within their limits.
pub record StashOk (s : Stash) : Type 0 where
  pub bytes : s.large_bytes ≡ total region_bytes s.large
  pub room : length s.large ≤ large_stash_slots
  pub cap : s.large_bytes ≤ large_stash_huge_cap_bytes

-- What a take does: with no region, none is long enough and nothing changes; a region taken is
-- long enough, none that is long enough is shorter, and exactly its slot is removed.
abbrev pub StashOutcome : Stash → ℕ → Taken → Type 0
StashOutcome s need (d, none) = ((j : ℕ) → j < length s.large → pages_at s.large j < need) × (d ≡ s)
StashOutcome s need (d, some r) =
    (i : ℕ) × (i < length s.large)
    × (r ≡ get_or s.large i null_region)
    × (need ≤ r.1)
    × ((j : ℕ) → j < length s.large → need ≤ pages_at s.large j → r.1 ≤ pages_at s.large j)
    × (d.large ≡ swap_remove s.large i null_region)
    × StashOk d

-- The most bytes that a stash may have with a region of the given pages.
abbrev pub push_limit : ℕ → ℕ
push_limit pages =
    if leb (4 * 1024 * 1024) (pages * page_size) then 64 * 1024 * 1024 else 32 * 1024 * 1024

-- What a push does.
abbrev pub PushOutcome : Stash → ℕ → ℕ → Stash × Bool → Type 0
PushOutcome s base pages (d, true) =
    StashOk d
    × (d.large ≡ s.large ++ (base, pages) ∷ [])
    × (length s.large < 8)
    × (s.large_bytes + pages * page_size ≤ push_limit pages)
PushOutcome s base pages (d, false) =
    (d ≡ s) × ((8 ≤ length s.large) ⊎ (push_limit pages < s.large_bytes + pages * page_size))

module _ (s : Stash) (ok : StashOk s) where
  take_slot-StashOk : (i : ℕ) → i < length s.large → StashOk (take_slot s i).0
  unfolding take_slot
  take_slot-StashOk i lt = record {
    bytes = omega (arith, ok.bytes, total-swap_remove region_bytes s.large i null_region lt);
    room = omega (arith, ok.room, length-swap_remove s.large i null_region);
    cap = omega (arith, ok.cap);
  }

  take_slot-StashOutcome :
      (need i : ℕ)
      → i < length s.large
      → need ≤ pages_at s.large i
      → ((j : ℕ)
          → j < length s.large
          → need ≤ pages_at s.large j
          → pages_at s.large i ≤ pages_at s.large j)
      → StashOutcome s need (take_slot s i)
  unfolding take_slot
  take_slot-StashOutcome need i lt fits least =
      (i, lt, refl, fits, least, refl, take_slot-StashOk i lt)

  slot_or-cases :
      (need : ℕ) (o : Option ℕ) (rest : Taken)
      → ((i : ℕ) → o ≡ some i → StashOutcome s need (take_slot s i))
      → (o ≡ none → StashOutcome s need rest)
      → StashOutcome s need (slot_or o s rest)
  slot_or-cases need none rest hit miss = miss refl
  slot_or-cases need (some i) rest hit miss = hit i refl

  -- For a stash whose byte count and limits are right: a take without a result finds no region
  -- long enough and changes nothing; a region that is taken is long enough, no stashed region that
  -- is long enough is shorter, exactly its slot is removed, and the stash is still right.
  pub take_large_stash-best : (need : ℕ) → StashOutcome s need (take_large_stash s need)
  unfolding take_large_stash
  take_large_stash-best need =
      slot_or-cases need _ _
        (λ i e.
          let (lt, same) =
            subst (ExactBelow need s.large (length s.large)) e (exact_loop_lem need s.large) in
          take_slot-StashOutcome need i lt (omega arith) (λ j lt' h. omega arith))
        λ _.
          slot_or-cases need _ _
            (λ i e.
              let (lt, fits, least) =
                subst (BestBelow (leb need) s.large (length s.large)) e
                  (best_loop_lem (leb need) s.large) in
              take_slot-StashOutcome need i lt (ground arith)
                (λ j lt' h. least j lt' (ground arith)))
            λ e.
              let short =
                subst (BestBelow (leb need) s.large (length s.large)) e
                  (best_loop_lem (leb need) s.large) in
              (λ j lt. ground (arith, short j lt), refl)

  -- Pushing a region onto a stash whose byte count and limits are right: with fewer than 8 regions,
  -- and bytes that stay within 64 MiB for a region of 4 MiB or more and within 32 MiB for a smaller
  -- one, the region becomes the last one and the stash is still right; else it is refused, and the
  -- stash is unchanged.
  pub push_large_stash-PushOutcome :
      (base pages : ℕ) → PushOutcome s base pages (push_large_stash s base pages)
  unfolding push_large_stash
  push_large_stash-PushOutcome base pages =
      elim (Bool-cases (
        leb large_stash_slots (length s.large)
        || ltb (push_limit pages) (s.large_bytes + pages * page_size))) [
          | inl e ↦ rw e (refl, ground arith)
          | inr e ↦ rw e (
            record {
              bytes =
                  ground (arith, ok.bytes, total-append region_bytes s.large ((base, pages) ∷ []));
              room = ground (arith, ok.room, length-append s.large ((base, pages) ∷ []));
              cap = ground (arith, ok.cap);
            },
            refl,
            ground arith,
            ground arith,
          )
        ]
