-- ===== src/Arena.antt =====
-- src/arena.rs: the reservation, its bump frontier and its store of holes. The kernel's `mmap` is
-- a parameter, `Kernel`; the state is passed on explicitly. A lock or an atomic read-modify-write
-- is one step, and the interleavings of such steps are in Arena/Steps.
pub mod Holes
pub mod Slices
pub mod Cover
pub mod Steps
pub mod Take
pub mod Invariant
pub mod Growth
pub mod Schedules
pub mod Run
pub mod Calls
mod Tests
use allox.Prelude.{
  ℕ, zero, suc, ◌+◌, ◌-◌, ◌*◌, ◌%◌, ◌^◌, Bool, true, false, ◌&&◌, ◌||◌, not, Option, none, some,
  List, [], ◌∷◌, ◌++◌, ltb, leb, ◌==◌, if◌then◌else◌, length, get_or, set, swap_remove, checked_add,
  checked_mul, checked_sub, mask_down,
}
use allox.Regions.{Region, null_region, pages_at, empty_index, refresh_loop, update, is_better}

abbrev pub arena_align : ℕ
arena_align = 64 * 1024

abbrev pub hole_slots : ℕ
hole_slots = 4096

abbrev pub hole_cap_bytes : ℕ
hole_cap_bytes = 4 * 1024 * 1024 * 1024

abbrev pub exact_bucket_max : ℕ
exact_bucket_max = 128

-- `entries` holds the slots below `len`; those at and above it are never read.
pub record HoleStore : Type 0 where
  pub bytes : ℕ
  pub entries : List Region
  pub exact : ℕ → ℕ

abbrev pub new_store : HoleStore
new_store = record { bytes = 0; entries = []; exact = λ k. empty_index }

unfoldable pub refresh_exact : HoleStore → ℕ → HoleStore
refresh_exact holes pages = if ltb exact_bucket_max pages then holes else record holes {
  exact = update holes.exact pages (refresh_loop (length holes.entries) holes.entries pages 0);
}

-- 0 = uninit, 1 = ready, 2 = disabled
pub data ArenaState : Type 0 where
  uninit ready disabled : ArenaState

pub record Arena : Type 0 where
  pub state : ArenaState
  pub start : ℕ
  pub end_ : ℕ
  pub bump : ℕ
  pub holes : HoleStore
  pub hole_count : ℕ
  pub commits : ℕ
  pub reuses : ℕ
  pub abandoned : ℕ
  pub size : ℕ

unfoldable pub with_size : ℕ → Arena
with_size size = record {
  state = uninit;
  start = 0;
  end_ = 0;
  bump = 0;
  holes = new_store;
  hole_count = 0;
  commits = 0;
  reuses = 0;
  abandoned = 0;
  size = size;
}

-- What `mmap` answers: the base of a fresh reservation (`none` for `MAP_FAILED`), and whether a
-- fixed mapping over a range of the reservation came out at the base asked for.
pub record Kernel : Type 0 where
  pub reserve : ℕ → Option ℕ
  pub maps_at : ℕ → ℕ → Bool

unfoldable pub is_ready : ArenaState → Bool
is_ready uninit = false
is_ready ready = true
is_ready disabled = false

reserved : Arena → Option ℕ → Arena
reserved a none = record a { state = disabled }
reserved a (some raw) =
    let aligned = mask_down (raw + arena_align - 1) arena_align in
    record a { state = ready; start = aligned; end_ = aligned + a.size; bump = 0 }

init_reservation : Kernel → Arena → Option ℕ → Arena
unfolding reserved
init_reservation k a none = record a { state = disabled }
init_reservation k a (some total) = reserved a (k.reserve total)

ensure_init_from : Kernel → Arena → ArenaState → Arena
unfolding init_reservation
ensure_init_from k a ready = a
ensure_init_from k a disabled = a
ensure_init_from k a uninit = init_reservation k a (checked_add a.size arena_align)

-- The new state, and whether the arena is usable.
unfoldable pub ensure_init : Kernel → Arena → Arena × Bool
unfolding ensure_init_from is_ready
ensure_init k a = let b = ensure_init_from k a a.state in (b, is_ready b.state)

-- The test of the exact index, with one refresh if the slot is stale.
stale : HoleStore → ℕ → Bool
stale holes pages =
    let index = holes.exact pages in
    leb (length holes.entries) index || not (pages_at holes.entries index == pages)

unfoldable pub exact_hole : HoleStore → ℕ → HoleStore × Option ℕ
unfolding stale refresh_exact
exact_hole holes pages =
    if leb pages exact_bucket_max
    then (let fresh = if stale holes pages then refresh_exact holes pages else holes in
        let index = fresh.exact pages in
        (
          fresh,
          if ltb index (length fresh.entries) && pages_at fresh.entries index == pages
              then some index
              else none,
        ))
    else (holes, none)

-- The scan of `holes_take` over the `rounds` entries from `i` on; it stops at an exact length.
unfoldable pub fit_loop : ℕ → List Region → ℕ → ℕ → Option ℕ → Option ℕ
fit_loop zero entries pages i best = best
fit_loop (suc rounds) entries pages i best =
    let p = pages_at entries i in
    let rest =
      fit_loop rounds entries pages (i + 1)
        (if ltb pages p && is_better entries p best then some i else best) in
    if p == pages then some i else rest

unfoldable pub scan_holes : HoleStore → ℕ → Option ℕ → Option ℕ
scan_holes holes pages none = fit_loop (length holes.entries) holes.entries pages 0 none
scan_holes holes pages (some i) = some i

-- Entry `i` leaves the store, or keeps what lies behind the first `pages` pages of it.
unfoldable pub take_hole : HoleStore → ℕ → ℕ → HoleStore × ℕ
unfolding refresh_exact
take_hole holes pages i =
    let (off, p) = get_or holes.entries i null_region in
    let bytes = holes.bytes - pages * arena_align in
    if ltb pages p
    then (let split =
          refresh_exact
            (record holes {
              bytes = bytes;
              entries = set holes.entries i (off + pages * arena_align, p - pages);
            })
            p in
        (
          record split {
            exact =
                if leb (p - pages) exact_bucket_max
                then update split.exact (p - pages) (i % 2 ^ 16)
                else split.exact;
          },
          off,
        ))
    else (
      refresh_exact
          (record holes { bytes = bytes; entries = swap_remove holes.entries i null_region }) p,
      off,
    )

taken : Arena → ℕ → HoleStore → Option ℕ → Arena × Option ℕ
taken a pages holes none = (record a { holes = holes; hole_count = length holes.entries }, none)
taken a pages holes (some i) =
    let (left, off) = take_hole holes pages i in
    (record a { holes = left; hole_count = length left.entries }, some (a.start + off))

-- `none` stands for the null pointer.
unfoldable pub holes_take : Arena → ℕ → Arena × Option ℕ
unfolding taken
holes_take a pages =
    if a.hole_count == 0
    then (a, none)
    else (let (holes, best) = exact_hole a.holes pages in
        taken a pages holes (scan_holes holes pages best))

unfoldable pub has_room : HoleStore → ℕ → Bool
has_room holes pages =
    ltb (length holes.entries) hole_slots && leb (holes.bytes + pages * arena_align) hole_cap_bytes

unfoldable pub park : HoleStore → ℕ → ℕ → HoleStore
park holes off pages =
    let index = length holes.entries in
    record {
      bytes = holes.bytes + pages * arena_align;
      entries = holes.entries ++ (off, pages) ∷ [];
      exact =
          if leb pages exact_bucket_max
          then update holes.exact pages (index % 2 ^ 16)
          else holes.exact;
    }

-- `base.wrapping_sub(start)`
abbrev pub offset_of : Arena → ℕ → ℕ
offset_of a base = (base + 2 ^ 64 - a.start) % 2 ^ 64

unfoldable pub holes_give : Arena → ℕ → ℕ → Arena
unfolding has_room park
holes_give a base pages =
    if has_room a.holes pages
    then record a {
      holes = park a.holes (offset_of a base) pages;
      hole_count = length a.holes.entries + 1;
    }
    else record a { abandoned = a.abandoned + 1 }
