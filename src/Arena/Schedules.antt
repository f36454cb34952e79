-- ===== src/Arena/Schedules.antt =====
-- src/arena.rs: whole calls of `grow_frontier` and `release` by threads that hold the slice, among the
-- steps of other calls.
use allox.Prelude.{
  ℕ, ◌+◌, ◌-◌, ◌*◌, ◌^◌, ◌≤◌, ◌<◌, ◌≡◌, refl, sym, subst, true, ◌&&◌, arith, ltb, leb, length,
  remove_at, usize_max, get_or-le-total,
}
use allox.Regions.{null_region, pages_at}
use allox.Arena.{Kernel, arena_align, holes_give}
use allox.Arena.Cover.{cover}
use allox.Arena.Slices.{release}
use allox.Arena.Steps.{World, Step, Reach, give, here, next, given, owned_at, Sound}
use allox.Arena.Invariant.{Step-Sound, Reach-Sound}
use allox.Arena.Growth.{lost_by, slice_base, after_grow, after_grow-Reach, holes_give-lost}

-- A call of `release` on the slice `i`.
abbrev pub after_release : World → ℕ → World
after_release w i =
    let (off, pages) = owned_at w i in
    let a = release w.arena (slice_base w i) pages in
    record { arena = a; owned = remove_at w.owned i; lost = lost_by w a (off, pages) }

-- Any order of steps and of calls of `grow_frontier` and `release` on slices that are held.
pub data Schedule (k : Kernel) (w : World) : World → Type 0 where
  begun : Schedule k w w
  stepping : {u v : World} → Schedule k w u → Step u v → Schedule k w v
  growing :
      {u : World}
      → Schedule k w u
      → (i pages : ℕ) → i < length u.owned
      → Schedule k w (after_grow k u i pages)
  releasing :
      {u : World} → Schedule k w u → (i : ℕ) → i < length u.owned → Schedule k w (after_release u i)

-- A slice that is held ends below the frontier, so its length is a word.
owned_length :
    (w : World) (i : ℕ)
    → Sound w
    → i < length w.owned
    → (0 < pages_at w.owned i) × (pages_at w.owned i * arena_align ≤ usize_max)
owned_length w i s lt =
    let (off, pages) = owned_at w i in
    let last = off + (pages * arena_align - 1) in
    let pos = s.positive i lt in
    let inside : cover last (off, pages) ≡ 1 = ground arith in
    (
      pos,
      ground (
        arith,
        s.partition last,
        s.frontier,
        s.word,
        get_or-le-total (cover last) w.owned i null_region lt,
      ),
    )

pub after_release-Reach :
    (w : World) (i : ℕ) → Sound w → i < length w.owned → Reach w (after_release w i)
unfolding release given
after_release-Reach w i s lt =
    let (off, pages) = owned_at w i in
    let base = slice_base w i in
    let (pos, short) = owned_length w i s lt in
    let some_bytes : (leb (pages * arena_align) (2 ^ 64 - 1) && ltb 0 (pages * arena_align))
        ≡ true =
      ground arith in
    rw some_bytes (
      subst
        (λ l.
          Reach w (record {
            arena = holes_give w.arena base pages;
            owned = remove_at w.owned i;
            lost = l;
          }))
        (sym (holes_give-lost w w.arena base pages (off, pages) refl)) (next here (give i lt)))

pub Schedule-Sound : {k : Kernel} {w v : World} → Sound w → Schedule k w v → Sound v
Schedule-Sound s begun = s
Schedule-Sound s (stepping r st) = Step-Sound st (Schedule-Sound s r)
Schedule-Sound {k} s (growing {u} r i pages lt) =
    Reach-Sound (Schedule-Sound s r) (after_grow-Reach k u i pages lt)
Schedule-Sound s (releasing {u} r i lt) =
    Reach-Sound (Schedule-Sound s r) (after_release-Reach u i (Schedule-Sound s r) lt)
