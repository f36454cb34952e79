-- ===== src/Retired/Places.antt =====
-- src/cache.rs: what a thread in `retire` or `take_one`, and a slot, hold and have yet to do.
use allox.Prelude.{ℕ, ◌+◌, ◌==◌, if◌then◌else◌}
use allox.Retired.{
  OldCache, SlotState, retired_empty, retired_writing, retired_ready, retired_taking, RetiredSlot,
  Thread, retiring, offering, writing, counting, left_cache, left_nothing, flushed, taking, looking,
  reading, discounting, took, took_nothing,
}

-- What a weight of caches gives for one that is to be retired: a cache without bytes is left as it
-- is, and counts for nothing.
abbrev pub brought_by : (OldCache → ℕ) → OldCache → ℕ
brought_by f c = if c.cached_bytes + c.large_bytes == 0 then 0 else f c

-- What it gives for the cache that a thread holds, has flushed or has taken.
abbrev pub carried : (OldCache → ℕ) → Thread → ℕ
carried f (retiring c) = brought_by f c
carried f (offering c i) = f c
carried f (writing c i) = f c
carried f counting = 0
carried f left_cache = 0
carried f (left_nothing c) = 0
carried f (flushed c) = f c
carried f taking = 0
carried f (looking i) = 0
carried f (reading i) = 0
carried f (discounting c) = f c
carried f (took c) = f c
carried f took_nothing = 0

abbrev pub is_full : SlotState → ℕ
is_full retired_empty = 0
is_full retired_writing = 0
is_full retired_ready = 1
is_full retired_taking = 1

abbrev pub full : RetiredSlot → ℕ
full s = is_full s.state

abbrev pub stored_as : ℕ → SlotState → ℕ
stored_as w retired_empty = 0
stored_as w retired_writing = 0
stored_as w retired_ready = w
stored_as w retired_taking = w

abbrev pub stored : (OldCache → ℕ) → RetiredSlot → ℕ
stored f s = stored_as (f s.cache) s.state

abbrev pub at_place : ℕ → ℕ → ℕ
at_place i j = if j == i then 1 else 0

abbrev pub writes : ℕ → Thread → ℕ
writes i (retiring c) = 0
writes i (offering c j) = 0
writes i (writing c j) = at_place i j
writes i counting = 0
writes i left_cache = 0
writes i (left_nothing c) = 0
writes i (flushed c) = 0
writes i taking = 0
writes i (looking j) = 0
writes i (reading j) = 0
writes i (discounting c) = 0
writes i (took c) = 0
writes i took_nothing = 0

abbrev pub reads : ℕ → Thread → ℕ
reads i (retiring c) = 0
reads i (offering c j) = 0
reads i (writing c j) = 0
reads i counting = 0
reads i left_cache = 0
reads i (left_nothing c) = 0
reads i (flushed c) = 0
reads i taking = 0
reads i (looking j) = 0
reads i (reading j) = at_place i j
reads i (discounting c) = 0
reads i (took c) = 0
reads i took_nothing = 0

-- A thread that has yet to count the cache it left, or the one it took.
abbrev pub to_add : Thread → ℕ
to_add (retiring c) = 0
to_add (offering c j) = 0
to_add (writing c j) = 0
to_add counting = 1
to_add left_cache = 0
to_add (left_nothing c) = 0
to_add (flushed c) = 0
to_add taking = 0
to_add (looking j) = 0
to_add (reading j) = 0
to_add (discounting c) = 0
to_add (took c) = 0
to_add took_nothing = 0

abbrev pub to_sub : Thread → ℕ
to_sub (retiring c) = 0
to_sub (offering c j) = 0
to_sub (writing c j) = 0
to_sub counting = 0
to_sub left_cache = 0
to_sub (left_nothing c) = 0
to_sub (flushed c) = 0
to_sub taking = 0
to_sub (looking j) = 0
to_sub (reading j) = 0
to_sub (discounting c) = 1
to_sub (took c) = 0
to_sub took_nothing = 0

abbrev pub written : SlotState → ℕ
written retired_empty = 0
written retired_writing = 1
written retired_ready = 0
written retired_taking = 0

abbrev pub read_out : SlotState → ℕ
read_out retired_empty = 0
read_out retired_writing = 0
read_out retired_ready = 0
read_out retired_taking = 1
