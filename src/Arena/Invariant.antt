-- ===== src/Arena/Invariant.antt =====
-- src/arena.rs: no schedule of threads makes two slices overlap. The addresses below the frontier
-- are at every moment exactly divided among the slices held, the holes and the abandoned slices.
use allox.Prelude.{
  ℕ, ◌+◌, ◌-◌, ◌*◌, ◌≤◌, ◌<◌, ◌≡◌, ◌≢◌, ◌∷◌, arith, length, true, get_or, set, remove_at,
  remove_at-all, total-remove_at, total-set, get_or-le-total, Bool-cases, inl, inr, ap, length-set,
  get_or-set_self, get_or-set_ne, zero, suc,
}
use native.Mathlib.Decide.{ℕ_discrete}
use allox.Regions.{Region, null_region, pages_at}
use allox.Arena.{
  HoleStore, arena_align, hole_slots, hole_cap_bytes, holes_give, has_room, park, take_hole,
  exact_hole, offset_of,
}
use allox.Arena.Cover.{cover, cover_start, cover-extend, covers-park, bytes-park, length-park}
use allox.Arena.Holes.{exact_hole-entries}
use allox.Arena.Steps.{
  World, Step, Reach, take, claim, give, join, tally, here, next, Sound, StoreOk, owned_at, gained,
  taken_from, claimed, given, joined,
}
use allox.Arena.Take.{
  holes_take-cases, StoreOk-looked, StoreOk-taken_at, covers-taken_at, taken_offset,
}

has_room-slots :
    (holes : HoleStore) (pages : ℕ)
    → has_room holes pages ≡ true
    → length holes.entries < hole_slots
unfolding has_room
has_room-slots holes pages h = ground arith

has_room-cap :
    (holes : HoleStore) (off pages : ℕ)
    → has_room holes pages ≡ true
    → (park holes off pages).bytes ≤ hole_cap_bytes
unfolding has_room park
has_room-cap holes off pages h = ground arith

-- A slice held begins below the frontier.
owned_start : (w : World) (i : ℕ) → Sound w → i < length w.owned → (owned_at w i).0 < w.arena.bump
owned_start w i s lt =
    let x = (owned_at w i).0 in
    ground (
      arith,
      s.partition x,
      get_or-le-total (cover x) w.owned i null_region lt,
      cover_start x (pages_at w.owned i) (s.positive i lt),
    )

module _ (w : World) (s : Sound w) where
  positive-cons :
      (off pages : ℕ)
      → 0 < pages
      → (i : ℕ) → i < suc (length w.owned)
      → 0 < pages_at ((off, pages) ∷ w.owned) i
  positive-cons off pages pos zero lt = pos
  positive-cons off pages pos (suc i) lt = s.positive i (omega arith)

  take-Sound : (pages : ℕ) → 0 < pages → Sound (taken_from w pages)
  unfolding taken_from
  take-Sound pages pos =
      holes_take-cases w.arena pages
        (λ r. Sound (record w { arena = r.0; owned = gained w.arena.start w.owned pages r.1 }))
        (λ e. s)
        (λ e. record {
          store = StoreOk-looked w.arena pages s.store;
          partition = λ x. ground (arith, exact_hole-entries w.arena.holes pages, s.partition x);
          frontier = s.frontier;
          word = s.word;
          positive = s.positive;
        })
        (λ i e. record {
          store = StoreOk-taken_at w.arena pages i e s.store;
          partition = λ x.
              let off = (get_or w.arena.holes.entries i null_region).0 in
              let same : w.arena.start
                    + (take_hole (exact_hole w.arena.holes pages).0 pages i).1
                    - w.arena.start
                  ≡ off =
                omega (arith, taken_offset w.arena pages i e) in
              rw same (omega (arith, covers-taken_at w.arena pages i e x, s.partition x));
          frontier = s.frontier;
          word = s.word;
          positive = positive-cons _ pages pos;
        })

  claim-Sound :
      (pages : ℕ)
      → 0 < pages
      → w.arena.bump + pages * arena_align ≤ w.arena.size
      → Sound (claimed w pages)
  unfolding claimed
  claim-Sound pages pos h = record {
    store = ground (arith, s.store.bytes, s.store.counted, s.store.slots, s.store.cap);
    partition = λ x. ground (arith, s.partition x);
    frontier = h;
    word = s.word;
    positive = positive-cons w.arena.bump pages pos;
  }

  positive-set :
      (i j : ℕ) (v : Region)
      → 0 < v.1
      → i < length w.owned
      → j < length w.owned
      → 0 < pages_at (set w.owned i v) j
  positive-set i j v pos lt lt' = elim (ℕ_discrete i j) [
    | yes e ↦ ground (arith, get_or-set_self w.owned j v null_region lt', e)
    | no e ↦ ground (
      arith,
      ap (λ (r : Region). r.1) (get_or-set_ne w.owned i j v null_region e),
      s.positive j lt',
    )
  ]

  join-Sound :
      (i j : ℕ)
      → i < length w.owned
      → j < length w.owned
      → i ≢ j
      → (owned_at w j).0 ≡ (owned_at w i).0 + (owned_at w i).1 * arena_align
      → Sound (joined w i j)
  unfolding joined
  join-Sound i j lt lt' ne end =
      let (off, old) = owned_at w i in
      let whole : Region = (off, old + (owned_at w j).1) in
      let other = get_or-set_ne w.owned i j whole null_region ne in
      let long = length-set w.owned i whole in
      record {
        store = ground (arith, s.store.bytes, s.store.counted, s.store.slots, s.store.cap);
        partition = λ x.
            let start = ap (λ n. cover x (n, (owned_at w j).1)) end in
            omega (
              arith,
              total-remove_at (cover x) (set w.owned i whole) j null_region (rw long lt'),
              ap (cover x) other,
              total-set (cover x) w.owned i whole null_region lt,
              cover-extend x off old (owned_at w j).1,
              start,
              s.partition x,
            );
        frontier = s.frontier;
        word = s.word;
        positive =
            remove_at-all (λ (r : Region). 0 < r.1) (set w.owned i whole) j null_region
              (λ m m_lt.
                positive-set i m whole (omega (arith, s.positive i lt)) lt (rw long at m_lt));
      }

  -- The offset is recovered from the base without wrapping.
  offset-back :
      (i : ℕ)
      → i < length w.owned
      → offset_of w.arena (w.arena.start + (owned_at w i).0) ≡ (owned_at w i).0
  offset-back i lt = omega (arith, owned_start w i s lt, s.frontier, s.word)

  positive-remove_at :
      (i : ℕ) → (j : ℕ) → j < length (remove_at w.owned i) → 0 < pages_at (remove_at w.owned i) j
  positive-remove_at i = remove_at-all (λ (r : Region). 0 < r.1) w.owned i null_region s.positive

  StoreOk-park :
      (base pages : ℕ)
      → has_room w.arena.holes pages ≡ true
      → StoreOk w.arena
      → StoreOk (record (w.arena) {
        holes = park w.arena.holes (offset_of w.arena base) pages;
        hole_count = length w.arena.holes.entries + 1;
      })
  unfolding has_room
  StoreOk-park base pages room ok =
      let off = offset_of w.arena base in
      record {
        bytes = bytes-park w.arena.holes off pages ok.bytes;
        counted = omega (arith, length-park w.arena.holes off pages);
        slots =
            omega
              (arith, length-park w.arena.holes off pages, has_room-slots w.arena.holes pages room);
        cap = has_room-cap w.arena.holes off pages room;
      }

  give-Sound : (i : ℕ) → i < length w.owned → Sound (given w i)
  unfolding given holes_give
  give-Sound i lt =
      let (off, pages) = owned_at w i in
      elim (Bool-cases (has_room w.arena.holes pages)) [
        | inl e ↦ rw e (record {
          store = StoreOk-park (w.arena.start + off) pages e s.store;
          partition = λ x. rw (offset-back i lt) (
              omega (
                arith,
                covers-park w.arena.holes off pages x,
                total-remove_at (cover x) w.owned i null_region lt,
                s.partition x,
              ));
          frontier = s.frontier;
          word = s.word;
          positive = positive-remove_at i;
        })
        | inr e ↦ rw e (record {
          store = record {
            bytes = s.store.bytes;
            counted = s.store.counted;
            slots = s.store.slots;
            cap = s.store.cap;
          };
          partition =
              λ x. omega (arith, total-remove_at (cover x) w.owned i null_region lt, s.partition x);
          frontier = s.frontier;
          word = s.word;
          positive = positive-remove_at i;
        })
      ]

pub Step-Sound : {w v : World} → Step w v → Sound w → Sound v
Step-Sound {w} (take pages pos) s = take-Sound w s pages pos
Step-Sound {w} (claim pages pos h) s = claim-Sound w s pages pos h
Step-Sound {w} (give i lt) s = give-Sound w s i lt
Step-Sound {w} (join i j lt lt' ne end) s = join-Sound w s i j lt lt' ne end
Step-Sound {w} (tally commits reuses) s = record {
  store = record {
    bytes = s.store.bytes;
    counted = s.store.counted;
    slots = s.store.slots;
    cap = s.store.cap;
  };
  partition = s.partition;
  frontier = s.frontier;
  word = s.word;
  positive = s.positive;
}

pub Reach-Sound : {w v : World} → Sound w → Reach w v → Sound v
Reach-Sound s here = s
Reach-Sound s (next r st) = Step-Sound st (Reach-Sound s r)
