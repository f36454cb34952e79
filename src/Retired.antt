-- ===== src/Retired.antt =====
-- src/cache.rs: the slots through which a thread that ends leaves its cache to another: `retire` and
-- `take_one`, with threads. Each turn of a thread is one atomic access; the write of a cache into a
-- slot, or its read, goes with the store that follows it. The counters of statistics are left out.
pub mod Sums
pub mod Places
pub mod Slots
pub mod Handover
pub mod Schedules
mod Tests
use allox.Prelude.{
  ℕ, zero, suc, ◌+◌, ◌-◌, ◌*◌, ◌%◌, ◌^◌, Bool, true, false, List, [], ◌∷◌, ltb, leb, ◌==◌,
  if◌then◌else◌,
}

abbrev pub retired_slot_count : ℕ
retired_slot_count = 8

abbrev pub retired_slot_bytes : ℕ
retired_slot_bytes = 8 * 1024 * 1024

-- A cache, as far as `retire` looks at it: which one it is and what it holds.
pub record OldCache : Type 0 where
  pub tid : ℕ
  pub cached_bytes : ℕ
  pub large_bytes : ℕ

pub data SlotState : Type 0 where
  retired_empty retired_writing retired_ready retired_taking : SlotState

-- What an empty slot holds is of no use to anybody.
pub record RetiredSlot : Type 0 where
  pub state : SlotState
  pub cache : OldCache

abbrev pub set {ℓ} : {A : Type ℓ} → (ℕ → A) → ℕ → A → ℕ → A
set xs i x j = if j == i then x else xs j

-- Where a thread is in `retire` or in `take_one`, with the cache that it holds.
pub data Thread : Type 0 where
  retiring : OldCache → Thread
  offering : OldCache → ℕ → Thread
  writing : OldCache → ℕ → Thread
  counting : Thread
  left_cache : Thread
  left_nothing : OldCache → Thread
  flushed : OldCache → Thread
  taking : Thread
  looking : ℕ → Thread
  reading : ℕ → Thread
  discounting : OldCache → Thread
  took : OldCache → Thread
  took_nothing : Thread

pub record Retired : Type 0 where
  pub slots : ℕ → RetiredSlot
  pub ready_count : ℕ
  pub threads : ℕ → Thread

abbrev saturating_add : ℕ → ℕ → ℕ
saturating_add a b = if leb (2 ^ 64) (a + b) then 2 ^ 64 - 1 else a + b

abbrev pub held_bytes : OldCache → ℕ
held_bytes c = saturating_add c.cached_bytes c.large_bytes

abbrev pub slot_empty : SlotState → Bool
slot_empty retired_empty = true
slot_empty retired_writing = false
slot_empty retired_ready = false
slot_empty retired_taking = false

abbrev pub slot_ready : SlotState → Bool
slot_ready retired_empty = false
slot_ready retired_writing = false
slot_ready retired_ready = true
slot_ready retired_taking = false

abbrev pub go : Retired → ℕ → Thread → Retired
go r k t = record r { threads = set r.threads k t }

abbrev pub with_slot : Retired → ℕ → RetiredSlot → Retired
with_slot r i s = record r { slots = set r.slots i s }

abbrev pub with_state : Retired → ℕ → SlotState → Retired
with_state r i s = with_slot r i (record (r.slots i) { state = s })

-- `retire` before its loop.
unfoldable pub retire : Retired → ℕ → OldCache → Retired
retire r k c =
    if held_bytes c == 0
    then go r k (left_nothing c)
    else if ltb retired_slot_bytes (held_bytes c)
    then go r k (flushed c)
    else go r k (offering c 0)

-- The exchange of `retire` on a slot.
unfoldable pub offer : Retired → ℕ → OldCache → ℕ → Retired
offer r k c i =
    if leb retired_slot_count i
    then go r k (flushed c)
    else if slot_empty (r.slots i).state
    then go (with_state r i retired_writing) k (writing c i)
    else go r k (offering c (i + 1))

-- The exchange of `take_one` on a slot.
unfoldable pub look : Retired → ℕ → ℕ → Retired
look r k i =
    if leb retired_slot_count i
    then go r k took_nothing
    else if slot_ready (r.slots i).state
    then go (with_state r i retired_taking) k (reading i)
    else go r k (looking (i + 1))

-- A turn of thread `k`, which is at the given place.
unfoldable pub turn_of : Retired → ℕ → Thread → Retired
turn_of r k (retiring c) = retire r k c
turn_of r k (offering c i) = offer r k c i
turn_of r k (writing c i) =
    go (with_slot r i (record { state = retired_ready; cache = c })) k counting
turn_of r k counting = go (record r { ready_count = (r.ready_count + 1) % 2 ^ 64 }) k left_cache
turn_of r k left_cache = r
turn_of r k (left_nothing c) = r
turn_of r k (flushed c) = r
turn_of r k taking = if r.ready_count == 0 then go r k took_nothing else go r k (looking 0)
turn_of r k (looking i) = look r k i
turn_of r k (reading i) = go (with_state r i retired_empty) k (discounting (r.slots i).cache)
turn_of r k (discounting c) =
    go (record r { ready_count = (r.ready_count + (2 ^ 64 - 1)) % 2 ^ 64 }) k (took c)
turn_of r k (took c) = r
turn_of r k took_nothing = r

unfoldable pub turn : Retired → ℕ → Retired
turn r k = turn_of r k (r.threads k)

-- The turns of a schedule, the first one first.
unfoldable pub turns : Retired → List ℕ → Retired
turns r [] = r
turns r (k ∷ ks) = turns (turn r k) ks

-- What a thread is there for: it ends with a cache, or it looks for one.
pub data Role : Type 0 where
  leaves : OldCache → Role
  takes : Role

abbrev pub first_place : Role → Thread
first_place (leaves c) = retiring c
first_place takes = taking

abbrev pub new_slot : RetiredSlot
new_slot = record {
  state = retired_empty;
  cache = record { tid = 0; cached_bytes = 0; large_bytes = 0 };
}

abbrev pub begin : (ℕ → Role) → Retired
begin roles = record {
  slots = λ i. new_slot;
  ready_count = 0;
  threads = λ k. first_place (roles k);
}
