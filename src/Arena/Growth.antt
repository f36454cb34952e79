-- ===== src/Arena/Growth.antt =====
-- src/arena.rs: a call of `grow_frontier` by a thread that holds the slice is a sequence of steps.
use allox.Prelude.{
  ℕ, suc, ◌+◌, ◌-◌, ◌*◌, ◌≤◌, ◌<◌, ◌≡◌, refl, sym, subst, Bool, true, false, ◌&&◌, ◌||◌, List, ◌∷◌,
  arith, leb, ◌==◌, if◌then◌else◌, length, set, Bool-cases, inl, inr, usize_max,
}
use allox.Regions.{Region}
use allox.Arena.{Arena, Kernel, arena_align, holes_give, has_room}
use allox.Arena.Slices.{contains, extend_to, grow_frontier, map_growth}
use allox.Arena.Steps.{
  World, Reach, claim, give, join, tally, here, next, claimed, given, joined, owned_at,
}

-- The slice that a call abandoned, if the counter says that it did.
abbrev pub lost_by : World → Arena → Region → List Region
lost_by w a r = if a.abandoned == w.arena.abandoned then w.lost else r ∷ w.lost

abbrev pub slice_base : World → ℕ → ℕ
slice_base w i = w.arena.start + (owned_at w i).0

-- A call of `grow_frontier` on the slice `i`, which then has `pages` pages if the call succeeds.
abbrev pub after_grow : Kernel → World → ℕ → ℕ → World
after_grow k w i pages =
    let (off, old) = owned_at w i in
    let (a, grew) = grow_frontier k w.arena (slice_base w i) old pages in
    record {
      arena = a;
      owned = if grew then set w.owned i (off, pages) else w.owned;
      lost = lost_by w a (w.arena.bump, pages - old);
    }

-- What a call of `grow_frontier` does comes down to its refusal and to the mapping behind the
-- exchange of the frontier.
grow_frontier-cases {ℓ} :
    (k : Kernel) (a : Arena) (off old pages : ℕ) (P : Arena × Bool → Type ℓ)
    → P (a, false)
    → (old < pages
        → a.bump ≡ off + old * arena_align
        → a.bump + (pages - old) * arena_align ≤ a.size
        → P (
            map_growth k
              (record a { bump = a.bump + (pages - old) * arena_align })
              (a.start + a.bump)
              (pages - old)))
    → P (grow_frontier k a (a.start + off) old pages)
unfolding grow_frontier extend_to
grow_frontier-cases k a off old pages P refused mapped =
    let added = pages - old in
    let end = off + old * arena_align in
    let more = pages * arena_align - old * arena_align in
    let above : leb a.start (a.start + off) ≡ true = ground arith in
    let back : a.start + off - a.start ≡ off = omega arith in
    elim (Bool-cases (old == 0 || leb pages old)) [
      | inl e ↦ rw e refused
      | inr longer ↦
          rw longer
            (elim (Bool-cases
              (leb (old * arena_align) usize_max && leb (pages * arena_align) usize_max)) [
                | inr e ↦ rw e refused
                | inl lengths ↦
                    rw lengths (elim (Bool-cases (contains a (a.start + off) (old * arena_align))) [
                      | inr e ↦ rw e refused
                      | inl held ↦
                          rw (held, above, back)
                            (elim (Bool-cases (leb end usize_max)) [
                              | inr e ↦ rw e refused
                              | inl fits ↦ rw fits (elim (Bool-cases (leb (end + more) usize_max)) [
                                | inr e ↦ rw e refused
                                | inl fits' ↦
                                    rw fits'
                                      (elim (Bool-cases
                                        (leb (end + more) a.size && a.bump == end)) [
                                          | inr e ↦ rw e refused
                                          | inl goes ↦ rw goes (
                                              let moved : a.bump + added * arena_align
                                                  ≡ end + more =
                                                ground arith in
                                              let behind : a.start + a.bump
                                                  ≡ a.start + off + old * arena_align =
                                                ground arith in
                                              subst
                                                (λ n. P (
                                                  map_growth k (record a { bump = n })
                                                    (a.start + off + old * arena_align) added))
                                                moved
                                                (subst
                                                  (λ b. P (
                                                    map_growth k
                                                      (record a {
                                                        bump = a.bump + added * arena_align;
                                                      })
                                                      b added))
                                                  behind
                                                  (mapped (ground arith) (ground arith)
                                                    (ground arith))))
                                        ])
                              ])
                            ])
                    ])
              ])
    ]

pub holes_give-lost :
    (w : World) (a : Arena) (base pages : ℕ) (r : Region)
    → a.abandoned ≡ w.arena.abandoned
    → lost_by w (holes_give a base pages) r
      ≡ (if has_room a.holes pages then w.lost else r ∷ w.lost)
unfolding holes_give
holes_give-lost w a base pages r same = elim (Bool-cases (has_room a.holes pages)) [
  | inl e ↦
      let still : (a.abandoned == w.arena.abandoned) ≡ true = ground arith in rw (e, still) refl
  | inr e ↦
      let more : (a.abandoned + 1 == w.arena.abandoned) ≡ false = ground arith in rw (e, more) refl
]

-- The world that a growth leaves, from what it yields.
abbrev grown_by : World → ℕ → ℕ → Arena × Bool → World
grown_by w i pages (a, grew) = record {
  arena = a;
  owned = if grew then set w.owned i ((owned_at w i).0, pages) else w.owned;
  lost = lost_by w a (w.arena.bump, pages - (owned_at w i).1);
}

module _ (k : Kernel) (w : World) (i pages : ℕ) (lt : i < length w.owned) where
  abbrev old : ℕ
  old = (owned_at w i).1

  abbrev added : ℕ
  added = pages - old

  abbrev extended : Arena
  extended = record (w.arena) { bump = w.arena.bump + added * arena_align }

  -- The new pages are claimed as a slice, and counted with the old ones, or given back.
  map_growth-Reach :
      old < pages
      → w.arena.bump ≡ (owned_at w i).0 + old * arena_align
      → w.arena.bump + added * arena_align ≤ w.arena.size
      → Reach w (grown_by w i pages (map_growth k extended (w.arena.start + w.arena.bump) added))
  unfolding map_growth claimed joined given
  map_growth-Reach longer end room =
      let base = w.arena.start + w.arena.bump in
      let claimed_it : Reach w (claimed w added) = next here (claim added (omega arith) room) in
      elim (Bool-cases (k.maps_at base (added * arena_align))) [
        | inl e ↦ rw e (
            let same_count : (w.arena.abandoned == w.arena.abandoned) ≡ true = ground arith in
            let whole : old + added ≡ pages = omega arith in
            let grown_it =
              next claimed_it (
                join (suc i) 0 (omega (arith, lt)) (omega arith) (λ e'. absurd (omega arith))
                  end) in
            rw same_count (
              subst
                (λ n. Reach w (record {
                  arena = record extended { commits = w.arena.commits + 1 };
                  owned = set w.owned i ((owned_at w i).0, n);
                  lost = w.lost;
                }))
                whole (next grown_it (tally (w.arena.commits + 1) w.arena.reuses))))
        | inr e ↦ rw e (
            subst
              (λ l.
                Reach w
                  (record { arena = holes_give extended base added; owned = w.owned; lost = l }))
              (sym (holes_give-lost w extended base added (w.arena.bump, added) refl))
              (next claimed_it (give 0 (omega arith))))
      ]

  -- A call of `grow_frontier` on a slice that is held, whatever the kernel answers, is a sequence of
  -- steps: when it succeeds that slice has the pages asked for, when it does not the slices held are
  -- those from before, and what it may abandon is a slice of the new pages at the old frontier.
  pub after_grow-Reach : Reach w (after_grow k w i pages)
  after_grow-Reach =
      grow_frontier-cases k w.arena (owned_at w i).0 old pages (λ r. Reach w (grown_by w i pages r))
        (rw count_still here) map_growth-Reach
    where
      count_still : (w.arena.abandoned == w.arena.abandoned) ≡ true
      count_still = ground arith
