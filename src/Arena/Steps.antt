-- ===== src/Arena/Steps.antt =====
-- src/arena.rs: threads that share the arena. A world is the arena with the slices that some
-- thread holds (handed out, or between a claim and its mapping) and those that were abandoned. One
-- step is one critical section under the hole lock, or one exchange of the frontier; a call of
-- `commit`, `grow_frontier` or `release` is a few of them, between those of other threads. Behind a
-- growth two slices are counted as one.
use allox.Prelude.{
  ℕ, ◌+◌, ◌-◌, ◌*◌, ◌^◌, ◌≤◌, ◌<◌, ◌≡◌, ◌≢◌, Option, none, some, List, ◌∷◌, ltb, if◌then◌else◌,
  length, get_or, set, remove_at, total,
}
use allox.Regions.{Region, null_region, pages_at}
use allox.Arena.{Arena, arena_align, hole_slots, hole_cap_bytes, holes_take, holes_give, has_room}
use allox.Arena.Cover.{covers, region_bytes}

pub record World : Type 0 where
  pub arena : Arena
  pub owned : List Region
  pub lost : List Region

abbrev pub owned_at : World → ℕ → Region
owned_at w i = get_or w.owned i null_region

-- The slice at `base` that a look into the hole store yields.
abbrev pub gained : ℕ → List Region → ℕ → Option ℕ → List Region
gained start owned pages none = owned
gained start owned pages (some base) = (base - start, pages) ∷ owned

unfoldable pub taken_from : World → ℕ → World
taken_from w pages =
    let (a, found) = holes_take w.arena pages in
    record w { arena = a; owned = gained w.arena.start w.owned pages found }

unfoldable pub claimed : World → ℕ → World
claimed w pages = record w {
  arena = record (w.arena) { bump = w.arena.bump + pages * arena_align };
  owned = (w.arena.bump, pages) ∷ w.owned;
}

unfoldable pub given : World → ℕ → World
given w i =
    let (off, pages) = owned_at w i in
    record {
      arena = holes_give w.arena (w.arena.start + off) pages;
      owned = remove_at w.owned i;
      lost = if has_room w.arena.holes pages then w.lost else (off, pages) ∷ w.lost;
    }

-- Slice `j`, which begins where slice `i` ends, is counted with it.
unfoldable pub joined : World → ℕ → ℕ → World
joined w i j =
    let (off, old) = owned_at w i in
    let (end, more) = owned_at w j in
    record w { owned = remove_at (set w.owned i (off, old + more)) j }

pub data Step (w : World) : World → Type 0 where
  take : (pages : ℕ) → 0 < pages → Step w (taken_from w pages)
  claim :
      (pages : ℕ)
      → 0 < pages
      → w.arena.bump + pages * arena_align ≤ w.arena.size
      → Step w (claimed w pages)
  give : (i : ℕ) → i < length w.owned → Step w (given w i)
  join :
      (i j : ℕ)
      → i < length w.owned
      → j < length w.owned
      → i ≢ j
      → (owned_at w j).0 ≡ (owned_at w i).0 + (owned_at w i).1 * arena_align
      → Step w (joined w i j)
  tally :
      (commits reuses : ℕ)
      → Step w (record w { arena = record (w.arena) { commits = commits; reuses = reuses } })

pub data Reach (w : World) : World → Type 0 where
  here : Reach w w
  next : {u v : World} → Reach w u → Step u v → Reach w v

pub record StoreOk (a : Arena) : Type 0 where
  pub bytes : a.holes.bytes ≡ total region_bytes a.holes.entries
  pub counted : a.hole_count ≡ length a.holes.entries
  pub slots : length a.holes.entries ≤ hole_slots
  pub cap : a.holes.bytes ≤ hole_cap_bytes

pub record Sound (w : World) : Type 0 where
  pub store : StoreOk w.arena
  pub partition :
      (x : ℕ)
      → covers x w.owned + covers x w.arena.holes.entries + covers x w.lost
        ≡ (if ltb x w.arena.bump then 1 else 0)
  pub frontier : w.arena.bump ≤ w.arena.size
  pub word : w.arena.start + w.arena.size < 2 ^ 64
  pub positive : (i : ℕ) → i < length w.owned → 0 < pages_at w.owned i
