-- ===== src/Arena/Tests.antt =====
-- src/arena.rs: concrete runs of the reservation.
use allox.Prelude.{
  zero, ◌+◌, ◌*◌, ◌≤◌, ◌<◌, ◌≡◌, ◌≢◌, refl, true, some, none, [], ◌∷◌, arith, if◌then◌else◌, leb,
  length, get_or,
}
use allox.Regions.{null_region}
use allox.Arena.{
  Arena, ready, arena_align, with_size, Kernel, ensure_init, holes_take, holes_give, has_room, park,
}
use allox.Arena.Slices.{commit, grow_frontier, extend_to, map_growth, contains, release}
use allox.Arena.Steps.{World, claim, claimed, owned_at, StoreOk}
use allox.Arena.Growth.{after_grow}
use allox.Arena.Schedules.{Schedule, begun, stepping, growing, releasing, after_release}
use allox.Arena.Take.{TakeOutcome, holes_take-best}
use allox.Arena.Run.{Holds, ReservesInRange, world_of, owned_disjoint}
use allox.Arena.Calls.{CommitReached, commit-Reach}

-- A kernel that reserves at 4096 up to a megabyte and always maps.
abbrev demo_kernel : Kernel
demo_kernel = record {
  reserve = λ len. if leb len (2 * 1024 * 1024) then some 4096 else none;
  maps_at = λ base len. true;
}

demo_kernel-ReservesInRange : ReservesInRange demo_kernel
demo_kernel-ReservesInRange len raw e = ground arith

abbrev demo_arena : Arena
demo_arena = record {
  state = ready;
  start = 65536;
  end_ = 65536 + 8 * arena_align;
  bump = 0;
  holes = record { bytes = 0; entries = []; exact = λ k. 65535 };
  hole_count = 0;
  commits = 0;
  reuses = 0;
  abandoned = 0;
  size = 8 * arena_align;
}

demo_init : ensure_init demo_kernel (with_size (8 * arena_align)) ≡ (demo_arena, true)
unfolding ensure_init with_size
demo_init = refl

-- Slices of one page, two and one; the second one goes to the holes and the last one grows.
abbrev three_slices : World
three_slices = claimed (claimed (claimed (world_of demo_arena) 1) 2) 1

abbrev demo_world : World
demo_world = after_grow demo_kernel (after_release three_slices 1) 0 3

demo-Schedule : Schedule demo_kernel (world_of demo_arena) demo_world
unfolding claimed
demo-Schedule =
    growing
      (releasing
        (stepping
          (stepping (stepping begun (claim 1 (omega arith) (omega arith)))
            (claim 2 (omega arith) (omega arith)))
          (claim 1 (omega arith) (omega arith)))
        1 (omega arith))
      0 3 (omega arith)

demo_grown : demo_world.owned ≡ (3 * arena_align, 3) ∷ (0, 1) ∷ []
unfolding claimed grow_frontier extend_to map_growth contains release holes_give has_room park
demo_grown = refl

owned_disjoint_example :
    (1 < length demo_world.owned → zero ≢ 1 → Holds (owned_at demo_world 1) (4 * arena_align) → ⊥)
    × (1 < length demo_world.arena.holes.entries
        → Holds (get_or demo_world.arena.holes.entries 1 null_region) (4 * arena_align)
        → ⊥)
    × (1 < length demo_world.lost
        → Holds (get_or demo_world.lost 1 null_region) (4 * arena_align)
        → ⊥)
    × (4 * arena_align < demo_world.arena.bump)
    × (demo_world.arena.bump ≤ demo_world.arena.size)
owned_disjoint_example =
    owned_disjoint demo_kernel (8 * arena_align) demo_arena 0 1 (4 * arena_align)
      demo_kernel-ReservesInRange demo_init demo-Schedule (rw demo_grown (omega arith))
      (rw demo_grown (omega arith, omega arith))

commit-Reach_example : CommitReached (world_of demo_arena) 3 (commit demo_kernel demo_arena 3)
commit-Reach_example = commit-Reach demo_kernel (world_of demo_arena) 3 refl

-- Two holes, of four pages and of two.
abbrev holed_arena : Arena
holed_arena = record demo_arena {
  bump = 8 * arena_align;
  holes = record {
    bytes = 6 * arena_align;
    entries = (0, 4) ∷ (5 * arena_align, 2) ∷ [];
    exact = λ k. 65535;
  };
  hole_count = 2;
}

holed_arena-StoreOk : StoreOk holed_arena
holed_arena-StoreOk = record {
  bytes = refl;
  counted = refl;
  slots = omega arith;
  cap = omega arith;
}

holes_take-best_example : TakeOutcome holed_arena 2 (holes_take holed_arena 2)
holes_take-best_example = holes_take-best holed_arena 2 holed_arena-StoreOk
