-- ===== src/Arena/Calls.antt =====
-- src/arena.rs: a call of `commit` is a sequence of the steps of Arena/Steps, on every branch, so what
-- holds of all schedules holds of it.
use allox.Prelude.{
  ℕ, ◌+◌, ◌-◌, ◌*◌, ◌≤◌, ◌<◌, ◌≡◌, refl, Bool, true, false, Option, none, some, List, ◌∷◌, arith,
  ltb, leb, if◌then◌else◌, Bool-cases, inl, inr, usize_max, checked_add,
}
use allox.Regions.{Region}
use allox.Arena.{Arena, ready, Kernel, arena_align, ensure_init, holes_take, holes_give, has_room}
use allox.Arena.Slices.{commit, reuse_hole, map_frontier, claim_frontier, after_holes}
use allox.Arena.Take.{holes_take-cases}
use allox.Arena.Steps.{
  World, Reach, take, claim, give, tally, here, next, gained, taken_from, claimed, given,
}

-- The slices held after a commit.
abbrev pub committed : World → ℕ → Option (ℕ × Bool) → List Region
committed w pages none = w.owned
committed w pages (some (base, fresh)) = (base - w.arena.start, pages) ∷ w.owned

-- The world after a commit, for some list of abandoned slices, is reached by steps.
abbrev pub CommitReached : World → ℕ → Arena × Option (ℕ × Bool) → Type 0
CommitReached w pages (a, r) =
    (lost : List Region) × Reach w (record { arena = a; owned = committed w pages r; lost = lost })

-- A world with one more slice in front of those of `w`.
abbrev extended : World → Arena → Region → World
extended w b r = record { arena = b; owned = r ∷ w.owned; lost = w.lost }

module _ (w : World) (b : Arena) (off pages : ℕ) (r : Reach w (extended w b (off, pages))) where
  -- The mapping fails: the slice goes back to the store, or is abandoned.
  unmapped-Reach :
      (base : ℕ) → base ≡ b.start + off → CommitReached w pages (holes_give b base pages, none)
  unmapped-Reach base e = rw e (
    if has_room b.holes pages then w.lost else (off, pages) ∷ w.lost,
    unfold given in next r (give 0 (omega arith)),
  )

  -- It succeeds: only the counters change.
  mapped-Reach :
      (commits reuses base : ℕ) (fresh : Bool)
      → base ≡ w.arena.start + off
      → CommitReached w pages (record b { commits = commits; reuses = reuses }, some (base, fresh))
  mapped-Reach commits reuses base fresh e =
      let back : base - w.arena.start ≡ off = omega arith in
      rw back (w.lost, next r (tally commits reuses))

module _ (k : Kernel) (w : World) (pages : ℕ) where
  reuse_hole-Reach :
      (b : Arena) (base : ℕ)
      → b.start ≡ w.arena.start
      → w.arena.start ≤ base
      → Reach w (extended w b (base - w.arena.start, pages))
      → CommitReached w pages (reuse_hole k b pages base)
  unfolding reuse_hole
  reuse_hole-Reach b base same le r = elim (Bool-cases (k.maps_at base (pages * arena_align))) [
    | inl e ↦ rw e (
        mapped-Reach w b (base - w.arena.start) pages r (b.commits + 1) (b.reuses + 1) base false
          (omega arith))
    | inr e ↦ rw e (unmapped-Reach w b (base - w.arena.start) pages r base (omega arith))
  ]

  map_frontier-Reach :
      (b : Arena) (off : ℕ)
      → b.start ≡ w.arena.start
      → Reach w (extended w b (off, pages))
      → CommitReached w pages (map_frontier k b pages (b.start + off))
  unfolding map_frontier
  map_frontier-Reach b off same r =
      let base = b.start + off in
      elim (Bool-cases (k.maps_at base (pages * arena_align))) [
        | inl e ↦
            rw e (mapped-Reach w b off pages r (b.commits + 1) b.reuses base true (omega arith))
        | inr e ↦ rw e (unmapped-Reach w b off pages r base refl)
      ]

  claim_frontier-Reach :
      (b : Arena)
      → 0 < pages
      → b.start ≡ w.arena.start
      → Reach w (record w { arena = b })
      → CommitReached w pages (claim_frontier k b pages (checked_add b.bump (pages * arena_align)))
  unfolding claim_frontier
  claim_frontier-Reach b pos same r =
      let end = b.bump + pages * arena_align in
      elim (Bool-cases (leb end usize_max)) [
        | inr e ↦ rw e (w.lost, r)
        | inl e ↦ rw e (elim (Bool-cases (leb end b.size)) [
          | inr e' ↦ rw e' (w.lost, r)
          | inl e' ↦ rw e' (
              map_frontier-Reach (record b { bump = end }) b.bump same
                (unfold claimed in next r (claim pages pos (ground arith))))
        ])
      ]

  after_holes-Reach :
      (r : Arena × Option ℕ)
      → 0 < pages
      → r.0.start ≡ w.arena.start
      → ((base : ℕ) → r.1 ≡ some base → w.arena.start ≤ base)
      → Reach w (record w { arena = r.0; owned = gained w.arena.start w.owned pages r.1 })
      → CommitReached w pages (after_holes k pages r)
  unfolding after_holes
  after_holes-Reach (b, none) pos same le r = claim_frontier-Reach b pos same r
  after_holes-Reach (b, some base) pos same le r = reuse_hole-Reach b base same (le base refl) r

holes_take-start : (a : Arena) (pages : ℕ) → (holes_take a pages).0.start ≡ a.start
holes_take-start a pages =
    holes_take-cases a pages (λ r. r.0.start ≡ a.start) (λ e. refl) (λ e. refl) (λ i e. refl)

holes_take-above :
    (a : Arena) (pages base : ℕ) → (holes_take a pages).1 ≡ some base → a.start ≤ base
holes_take-above a pages =
    holes_take-cases a pages (λ r. (base : ℕ) → r.1 ≡ some base → a.start ≤ base) (λ e base h. cc)
      (λ e base h. cc) (λ i e base h. ground arith)

ensure_init-ready : (k : Kernel) (a : Arena) → a.state ≡ ready → ensure_init k a ≡ (a, true)
unfolding ensure_init
ensure_init-ready k a e = ground arith

-- Once the arena is reserved, a commit of any number of pages, whatever the kernel answers, is a
-- sequence of steps. If it yields a slice, that slice is one more that is held; if it yields none,
-- the slices held are those from before.
pub commit-Reach :
    (k : Kernel) (w : World) (pages : ℕ)
    → w.arena.state ≡ ready
    → CommitReached w pages (commit k w.arena pages)
unfolding commit
commit-Reach k w pages live = elim (Bool-cases (leb (pages * arena_align) usize_max)) [
  | inr e ↦ rw e (w.lost, here)
  | inl e ↦ rw e (elim (Bool-cases (ltb 0 (pages * arena_align))) [
    | inr e' ↦ rw e' (w.lost, here)
    | inl e' ↦
        rw (e', ensure_init-ready k w.arena live)
          (after_holes-Reach k w pages (holes_take w.arena pages) (ground arith)
            (holes_take-start w.arena pages) (holes_take-above w.arena pages)
            (unfold taken_from in next here (take pages (ground arith))))
  ])
]
