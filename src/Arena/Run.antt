-- ===== src/Arena/Run.antt =====
-- src/arena.rs: what the partition means for the slices that are handed out.
use allox.Prelude.{
  ℕ, ◌+◌, ◌*◌, ◌^◌, ◌≤◌, ◌<◌, ◌≡◌, ◌≢◌, refl, [], arith, leb, true, length, get_or, get_or-le-total,
  pair-le-total, Bool-cases, Option-cases, some, inl, inr, usize_max,
}
use allox.Regions.{Region, null_region}
use allox.Arena.{Arena, arena_align, with_size, Kernel, ensure_init}
use allox.Arena.Cover.{cover}
use allox.Arena.Steps.{World, Sound, owned_at}
use allox.Arena.Schedules.{Schedule, Schedule-Sound}

-- The offset `x` lies in the slice.
abbrev pub Holds : Region → ℕ → Type 0
Holds (off, pages) x = (off ≤ x) × (x < off + pages * arena_align)

Holds-cover : (r : Region) (x : ℕ) → Holds r x → cover x r ≡ 1
Holds-cover (off, pages) x h = ground arith

-- A range that `mmap` reserves lies inside the address space.
abbrev pub ReservesInRange : Kernel → Type 0
ReservesInRange k = (len raw : ℕ) → k.reserve len ≡ some raw → raw + len < 2 ^ 64

-- A first use of the arena leaves it without holes, its frontier at 0, and its reservation aligned
-- and inside the address space.
record IsFresh (size : ℕ) (a : Arena) : Type 0 where
  bump : a.bump ≡ 0
  holes : a.holes.entries ≡ []
  bytes : a.holes.bytes ≡ 0
  counted : a.hole_count ≡ 0
  sized : a.size ≡ size
  word : a.start + a.size < 2 ^ 64

ensure_init-IsFresh :
    (k : Kernel) (size : ℕ) (a : Arena)
    → ReservesInRange k
    → ensure_init k (with_size size) ≡ (a, true)
    → IsFresh size a
unfolding ensure_init with_size
ensure_init-IsFresh k size a range e = elim (Bool-cases (leb (size + arena_align) usize_max)) [
  | inr no_total ↦ ground arith
  | inl total ↦ elim (Option-cases (k.reserve (size + arena_align))) [
    | inl failed ↦ ground arith
    | inr (raw, ok) ↦ ground (arith, range (size + arena_align) raw)
  ]
]

abbrev pub world_of : Arena → World
world_of a = record { arena = a; owned = []; lost = [] }

IsFresh-Sound : (size : ℕ) (a : Arena) → IsFresh size a → Sound (world_of a)
IsFresh-Sound size a f = record {
  store = record {
    bytes = rw (f.holes, f.bytes) refl;
    counted = rw (f.holes, f.counted) refl;
    slots = rw f.holes (omega arith);
    cap = rw f.bytes (omega arith);
  };
  partition = λ x. rw (f.holes, f.bump) (ground arith);
  frontier = rw f.bump (omega arith);
  word = f.word;
  positive = λ i lt. elim lt [ ];
}

-- After a first use that reserved, and any order of calls of `grow_frontier` and `release` on slices
-- that are held and of the steps of other calls (hole takes, claims of the frontier, returns, tallies,
-- and the joining of a slice with the one behind it): two slices that are held share no address, a
-- slice that is held shares none with a hole or an abandoned slice, and it lies below the frontier,
-- inside the reservation.
pub owned_disjoint :
    (k : Kernel) (size : ℕ) (a : Arena) {w : World} (i j x : ℕ)
    → ReservesInRange k
    → ensure_init k (with_size size) ≡ (a, true)
    → Schedule k (world_of a) w
    → i < length w.owned
    → Holds (owned_at w i) x
    → (j < length w.owned → i ≢ j → Holds (owned_at w j) x → ⊥)
      × (j < length w.arena.holes.entries
          → Holds (get_or w.arena.holes.entries j null_region) x
          → ⊥)
      × (j < length w.lost → Holds (get_or w.lost j null_region) x → ⊥)
      × (x < w.arena.bump)
      × (w.arena.bump ≤ w.arena.size)
owned_disjoint k size a {w} i j x range init reach lt in_i =
    let fresh = ensure_init-IsFresh k size a range init in
    let s = Schedule-Sound (IsFresh-Sound size a fresh) reach in
    let once = s.partition x in
    let mine = Holds-cover (owned_at w i) x in_i in
    let at_i = get_or-le-total (cover x) w.owned i null_region lt in
    (
      λ lt' ne in_j. ground (
        arith,
        pair-le-total (cover x) w.owned i j null_region lt lt' ne,
        Holds-cover (owned_at w j) x in_j,
      ),
      λ lt' in_j. ground (
        arith,
        get_or-le-total (cover x) w.arena.holes.entries j null_region lt',
        Holds-cover (get_or w.arena.holes.entries j null_region) x in_j,
      ),
      λ lt' in_j. ground (
        arith,
        get_or-le-total (cover x) w.lost j null_region lt',
        Holds-cover (get_or w.lost j null_region) x in_j,
      ),
      ground arith,
      s.frontier,
    )
