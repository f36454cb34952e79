-- ===== src/Retired/Handover.antt =====
-- src/cache.rs: `retire` and `take_one` hand every cache over once, whatever the order of the turns.
use allox.Prelude.{
  ℕ, ◌+◌, ◌-◌, ◌%◌, ◌^◌, ◌≤◌, ◌<◌, ◌≡◌, inl, inr, refl, sym, ap, true, false, List, [], ◌∷◌, All,
  arith, leb, ltb, ◌==◌, Bool-cases,
}
use allox.Retired.{
  retired_slot_count, retired_slot_bytes, held_bytes, slot_empty, slot_ready, OldCache, SlotState,
  retired_empty, retired_writing, retired_ready, retired_taking, Thread, retiring, offering,
  writing, counting, left_cache, left_nothing, flushed, taking, looking, reading, discounting, took,
  took_nothing, Retired, go, with_slot, with_state, retire, offer, look, turn_of, turn, turns,
}
use allox.Retired.Places.{
  brought_by, stored_as, is_full, at_place, writes, reads, written, read_out,
}
use allox.Retired.Slots.{Sound, part, go-Sound, walk-Sound, slot-Sound}

empty-state : (s : SlotState) → slot_empty s ≡ true → s ≡ retired_empty
empty-state retired_empty e = refl
empty-state retired_writing e = absurd (ground arith)
empty-state retired_ready e = absurd (ground arith)
empty-state retired_taking e = absurd (ground arith)

ready-state : (s : SlotState) → slot_ready s ≡ true → s ≡ retired_ready
ready-state retired_empty e = absurd (ground arith)
ready-state retired_writing e = absurd (ground arith)
ready-state retired_ready e = refl
ready-state retired_taking e = absurd (ground arith)

written-state : (s : SlotState) → 1 ≤ written s → s ≡ retired_writing
written-state retired_empty e = absurd (omega arith)
written-state retired_writing e = refl
written-state retired_ready e = absurd (omega arith)
written-state retired_taking e = absurd (omega arith)

read_out-state : (s : SlotState) → 1 ≤ read_out s → s ≡ retired_taking
read_out-state retired_empty e = absurd (omega arith)
read_out-state retired_writing e = absurd (omega arith)
read_out-state retired_ready e = absurd (omega arith)
read_out-state retired_taking e = refl

at_place_here : (i : ℕ) → at_place i i ≡ 1
at_place_here i = ground arith

at_place_else : (i j : ℕ) → (j == i) ≡ false → at_place j i ≡ 0
at_place_else i j e = ground arith

module _ (n : ℕ) (all : (OldCache → ℕ) → ℕ) (r : Retired) (ok : Sound n all r) (k : ℕ)
    (low : k < n) where
  bytes_none : (f : OldCache → ℕ) (c : OldCache) → (held_bytes c == 0) ≡ true → 0 ≡ brought_by f c
  bytes_none f c e =
      let none_there : (c.cached_bytes + c.large_bytes == 0) ≡ true = ground arith in
      simp none_there refl

  bytes_some :
      (f : OldCache → ℕ) (c : OldCache) → (held_bytes c == 0) ≡ false → f c ≡ brought_by f c
  bytes_some f c e =
      let some_there : (c.cached_bytes + c.large_bytes == 0) ≡ false = ground arith in
      simp some_there refl

  retire-Sound : (c : OldCache) → r.threads k ≡ retiring c → Sound n all (retire r k c)
  unfolding retire
  retire-Sound c at = elim (Bool-cases (held_bytes c == 0)) [
    | inl e ↦ simp e (
        walk-Sound n all r ok k low (retiring c) (left_nothing c) at (λ f. bytes_none f c e)
          (λ i. refl) (λ i. refl) refl refl)
    | inr e ↦ simp e (elim (Bool-cases (ltb retired_slot_bytes (held_bytes c))) [
      | inl over ↦ simp over (
          walk-Sound n all r ok k low (retiring c) (flushed c) at (λ f. bytes_some f c e)
            (λ i. refl) (λ i. refl) refl refl)
      | inr fits ↦ simp fits (
          walk-Sound n all r ok k low (retiring c) (offering c 0) at (λ f. bytes_some f c e)
            (λ i. refl) (λ i. refl) refl refl)
    ])
  ]

  offer-Sound : (c : OldCache) (i : ℕ) → r.threads k ≡ offering c i → Sound n all (offer r k c i)
  unfolding offer
  offer-Sound c i at = elim (Bool-cases (leb retired_slot_count i)) [
    | inl over ↦ simp over (
        walk-Sound n all r ok k low (offering c i) (flushed c) at (λ f. refl) (λ i. refl)
          (λ i. refl) refl refl)
    | inr below ↦ simp below (elim (Bool-cases (slot_empty (r.slots i).state)) [
      | inl e ↦
          let was = empty-state (r.slots i).state e in
          simp e (
            slot-Sound n all r ok k low (offering c i) (writing c i) at i (ground arith)
              (record (r.slots i) { state = retired_writing })
              (λ f. omega (arith, ap (stored_as (f (r.slots i).cache)) was))
              (omega (arith, ap written was, at_place_here i)) (omega (arith, ap read_out was))
              (λ j ne. (at_place_else i j ne, refl))
              (λ st st' x small a s a' s' y z lo hi h. omega (arith, ap is_full was)))
      | inr e ↦ simp e (
          walk-Sound n all r ok k low (offering c i) (offering c (i + 1)) at (λ f. refl) (λ i. refl)
            (λ i. refl) refl refl)
    ])
  ]

  look-Sound : (i : ℕ) → r.threads k ≡ looking i → Sound n all (look r k i)
  unfolding look
  look-Sound i at = elim (Bool-cases (leb retired_slot_count i)) [
    | inl over ↦ simp over (
        walk-Sound n all r ok k low (looking i) took_nothing at (λ f. refl) (λ i. refl) (λ i. refl)
          refl refl)
    | inr below ↦ simp below (elim (Bool-cases (slot_ready (r.slots i).state)) [
      | inl e ↦
          let was = ready-state (r.slots i).state e in
          simp e (
            slot-Sound n all r ok k low (looking i) (reading i) at i (ground arith)
              (record (r.slots i) { state = retired_taking })
              (λ f. omega (arith, ap (stored_as (f (r.slots i).cache)) was))
              (omega (arith, ap written was)) (omega (arith, ap read_out was, at_place_here i))
              (λ j ne. (refl, at_place_else i j ne))
              (λ st st' x small a s a' s' y z lo hi h. omega (arith, ap is_full was)))
      | inr e ↦ simp e (
          walk-Sound n all r ok k low (looking i) (looking (i + 1)) at (λ f. refl) (λ i. refl)
            (λ i. refl) refl refl)
    ])
  ]

  -- A slot that a thread is at is one of the slots.
  in_use :
      (i : ℕ) (s : SlotState)
      → (r.slots i).state ≡ s
      → slot_empty s ≡ false
      → i < retired_slot_count
  in_use i s at used = elim (Bool-cases (leb retired_slot_count i)) [
    | inl over ↦
        absurd (ground (arith, ap slot_empty at, ap slot_empty (ok.inside i (ground arith))))
    | inr below ↦ ground arith
  ]

  writing-Sound :
      (c : OldCache) (i : ℕ)
      → r.threads k ≡ writing c i
      → Sound n all (go (with_slot r i (record { state = retired_ready; cache = c })) k counting)
  writing-Sound c i at =
      let here = part n all r ok k low (writing c i) counting at (writes i) in
      let was =
        written-state (r.slots i).state (omega (arith, here, at_place_here i, ok.writers i)) in
      slot-Sound n all r ok k low (writing c i) counting at i (in_use i retired_writing was refl)
        (record { state = retired_ready; cache = c })
        (λ f. omega (arith, ap (stored_as (f (r.slots i).cache)) was))
        (omega (arith, ap written was, at_place_here i)) (omega (arith, ap read_out was))
        (λ j ne. (sym (at_place_else i j ne), refl))
        (λ st st' x small a s a' s' y z lo hi h. omega (arith, ap is_full was))

  reading-Sound :
      (i : ℕ)
      → r.threads k ≡ reading i
      → Sound n all (go (with_state r i retired_empty) k (discounting (r.slots i).cache))
  reading-Sound i at =
      let next = discounting (r.slots i).cache in
      let here = part n all r ok k low (reading i) next at (reads i) in
      let was =
        read_out-state (r.slots i).state (omega (arith, here, at_place_here i, ok.readers i)) in
      slot-Sound n all r ok k low (reading i) next at i (in_use i retired_taking was refl)
        (record (r.slots i) { state = retired_empty })
        (λ f. omega (arith, ap (stored_as (f (r.slots i).cache)) was))
        (omega (arith, ap written was)) (omega (arith, ap read_out was, at_place_here i))
        (λ j ne. (refl, sym (at_place_else i j ne)))
        (λ st st' x small a s a' s' y z lo hi h. omega (arith, ap is_full was))

  turn_of-Sound : (t : Thread) → r.threads k ≡ t → Sound n all (turn_of r k t)
  unfolding turn_of
  turn_of-Sound (retiring c) at = retire-Sound c at
  turn_of-Sound (offering c i) at = offer-Sound c i at
  turn_of-Sound (writing c i) at = writing-Sound c i at
  turn_of-Sound counting at =
      go-Sound n all r ok k low counting left_cache at ((r.ready_count + 1) % 2 ^ 64) (omega arith)
        (λ f. refl) (λ i. refl) (λ i. refl) (λ st a s a' s' x y lo hi h. omega arith)
  turn_of-Sound left_cache at = ok
  turn_of-Sound (left_nothing c) at = ok
  turn_of-Sound (flushed c) at = ok
  turn_of-Sound taking at = elim (Bool-cases (r.ready_count == 0)) [
    | inl e ↦ simp e (
        walk-Sound n all r ok k low taking took_nothing at (λ f. refl) (λ i. refl) (λ i. refl) refl
          refl)
    | inr e ↦ simp e (
        walk-Sound n all r ok k low taking (looking 0) at (λ f. refl) (λ i. refl) (λ i. refl) refl
          refl)
  ]
  turn_of-Sound (looking i) at = look-Sound i at
  turn_of-Sound (reading i) at = reading-Sound i at
  turn_of-Sound (discounting c) at =
      go-Sound n all r ok k low (discounting c) (took c) at
        ((r.ready_count + (2 ^ 64 - 1)) % 2 ^ 64) (omega arith) (λ f. refl) (λ i. refl) (λ i. refl)
        (λ st a s a' s' x y lo hi h. omega arith)
  turn_of-Sound (took c) at = ok
  turn_of-Sound took_nothing at = ok

  turn-Sound : Sound n all (turn r k)
  unfolding turn
  turn-Sound = turn_of-Sound (r.threads k) refl

pub turns-Sound :
    (n : ℕ) (all : (OldCache → ℕ) → ℕ) (r : Retired)
    → Sound n all r
    → (ks : List ℕ) → All (λ k. k < n) ks
    → Sound n all (turns r ks)
unfolding turns
turns-Sound n all r ok [] h = ok
turns-Sound n all r ok (k ∷ ks) (low, rest) =
    turns-Sound n all (turn r k) (turn-Sound n all r ok k low) ks rest
