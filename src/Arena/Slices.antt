-- ===== src/Arena/Slices.antt =====
-- src/arena.rs: `commit`, `grow_frontier`, `release` and `contains`, run by one thread. The
-- compare-and-swap of the frontier then succeeds at the first attempt.
use allox.Prelude.{
  ℕ, ◌+◌, ◌-◌, ◌*◌, ◌^◌, Bool, true, false, ◌&&◌, ◌||◌, not, Option, none, some, ltb, leb, ◌==◌,
  if◌then◌else◌, checked_add, checked_mul, checked_sub,
}
use allox.Arena.{
  Arena, ArenaState, uninit, ready, disabled, Kernel, arena_align, ensure_init, holes_take,
  holes_give,
}

is_live : ArenaState → Bool
is_live uninit = false
is_live ready = true
is_live disabled = false

within : Arena → ℕ → Option ℕ → Bool
within a base none = false
within a base (some top) = leb a.start base && leb top a.end_ && leb a.start base

unfoldable pub contains : Arena → ℕ → ℕ → Bool
unfolding is_live within
contains a base len = if is_live a.state then within a base (checked_add base len) else false

-- A commit gives the base and whether it is new address space, or nothing.
abbrev pub Commit : Type 0
Commit = Arena × Option (ℕ × Bool)

-- The hole at `base` is mapped again, or goes back to the store.
unfoldable pub reuse_hole : Kernel → Arena → ℕ → ℕ → Commit
reuse_hole k a pages base =
    if k.maps_at base (pages * arena_align)
    then (record a { reuses = a.reuses + 1; commits = a.commits + 1 }, some (base, false))
    else (holes_give a base pages, none)

unfoldable pub map_frontier : Kernel → Arena → ℕ → ℕ → Commit
map_frontier k a pages base =
    if k.maps_at base (pages * arena_align)
    then (record a { commits = a.commits + 1 }, some (base, true))
    else (holes_give a base pages, none)

-- The claim of `len` bytes at the frontier: `checked_add`, the bound, the exchange.
unfoldable pub claim_frontier : Kernel → Arena → ℕ → Option ℕ → Commit
claim_frontier k a pages none = (a, none)
claim_frontier k a pages (some end) =
    if leb end a.size
    then map_frontier k (record a { bump = end }) pages (a.start + a.bump)
    else (a, none)

unfoldable pub after_holes : Kernel → ℕ → Arena × Option ℕ → Commit
unfolding reuse_hole claim_frontier
after_holes k pages (a, some base) = reuse_hole k a pages base
after_holes k pages (a, none) = claim_frontier k a pages (checked_add a.bump (pages * arena_align))

unfoldable pub commit_len : Kernel → Arena → ℕ → Option ℕ → Commit
commit_len k a pages none = (a, none)
commit_len k a pages (some len) =
    if ltb 0 len
    then (let (a', usable) = ensure_init k a in
        if usable then after_holes k pages (holes_take a' pages) else (a', none))
    else (a, none)

unfoldable pub commit : Kernel → Arena → ℕ → Commit
unfolding commit_len after_holes
commit k a pages = commit_len k a pages (checked_mul pages arena_align)

-- `added` pages behind a slice that ends at the frontier are mapped, or parked as a hole.
unfoldable pub map_growth : Kernel → Arena → ℕ → ℕ → Arena × Bool
map_growth k a base added =
    if k.maps_at base (added * arena_align)
    then (record a { commits = a.commits + 1 }, true)
    else (holes_give a base added, false)

unfoldable pub extend_to : Kernel → Arena → ℕ → ℕ → ℕ → ℕ → Option ℕ → Arena × Bool
extend_to k a base old_pages new_pages old_end none = (a, false)
extend_to k a base old_pages new_pages old_end (some new_end) =
    if leb new_end a.size && a.bump == old_end
    then map_growth k (record a { bump = new_end }) (base + old_pages * arena_align)
        (new_pages - old_pages)
    else (a, false)

extend_from : Kernel → Arena → ℕ → ℕ → ℕ → Option ℕ → Arena × Bool
extend_from k a base old_pages new_pages none = (a, false)
extend_from k a base old_pages new_pages (some old_end) =
    extend_to k a base old_pages new_pages old_end
      (checked_add old_end (new_pages * arena_align - old_pages * arena_align))

abbrev chain : Option ℕ → (ℕ → Option ℕ) → Option ℕ
chain none f = none
chain (some a) f = f a

has_lengths : ℕ → ℕ → Bool
has_lengths old_pages new_pages =
    leb (old_pages * arena_align) (2 ^ 64 - 1) && leb (new_pages * arena_align) (2 ^ 64 - 1)

unfoldable pub grow_frontier : Kernel → Arena → ℕ → ℕ → ℕ → Arena × Bool
unfolding extend_from extend_to has_lengths
grow_frontier k a base old_pages new_pages =
    if old_pages == 0 || leb new_pages old_pages
    then (a, false)
    else if not (has_lengths old_pages new_pages)
    then (a, false)
    else if not (contains a base (old_pages * arena_align))
    then (a, false)
    else extend_from k a base old_pages new_pages
        (chain (checked_sub base a.start) (λ off. checked_add off (old_pages * arena_align)))

-- The discard that comes first changes the contents of the pages only.
unfoldable pub release : Arena → ℕ → ℕ → Arena
release a base pages =
    if leb (pages * arena_align) (2 ^ 64 - 1) && ltb 0 (pages * arena_align)
    then holes_give a base pages
    else a
