-- ===== src/Retired/Tests.antt =====
-- src/cache.rs: two threads that end, and one that takes a cache.
use allox.Prelude.{
  ℕ, Bool, ◌&&◌, ltb, zero, suc, ◌+◌, ◌<◌, ◌≡◌, refl, true, List, [], ◌∷◌, All, arith,
}
use allox.Retired.{
  retired_slot_count, Role, leaves, takes, begin, turns, turn, turn_of, retire, offer, look,
}
use allox.Retired.Sums.{sum}
use allox.Retired.Places.{carried, stored}
use allox.Retired.Schedules.{at_rest, Settled, turns_handed_over, turns-Settled}

abbrev three_threads : ℕ → Role
three_threads zero = leaves (record { tid = 7; cached_bytes = 100; large_bytes = 0 })
three_threads (suc zero) = takes
three_threads (suc (suc k)) = leaves (record { tid = 9; cached_bytes = 0; large_bytes = 65536 })

-- The first leaves its cache; the last passes the slot by while the other thread takes from it.
abbrev order : List ℕ
order = 0 ∷ 0 ∷ 0 ∷ 0 ∷ 2 ∷ 1 ∷ 1 ∷ 2 ∷ 1 ∷ 2 ∷ 2 ∷ 1 ∷ 2 ∷ []

abbrev all_below : ℕ → List ℕ → Bool
all_below n [] = true
all_below n (k ∷ ks) = ltb k n && all_below n ks

All-all_below : (n : ℕ) (ks : List ℕ) → all_below n ks ≡ true → All (λ k. k < n) ks
All-all_below n [] h = tt
All-all_below n (k ∷ ks) h = (ground arith, All-all_below n ks (ground arith))

order_in : All (λ k. k < 3) order
order_in = All-all_below 3 order refl

turns_handed_over_example :
    sum (carried (λ c. c.tid)) 3 (turns (begin three_threads) order).threads
      + sum (stored (λ c. c.tid)) retired_slot_count (turns (begin three_threads) order).slots
    ≡ 16
turns_handed_over_example = turns_handed_over 3 three_threads order order_in (λ c. c.tid)

order_rests : (k : ℕ) → k < 3 → at_rest ((turns (begin three_threads) order).threads k) ≡ true
unfolding turns turn turn_of retire offer look
order_rests zero low = refl
order_rests (suc zero) low = refl
order_rests (suc (suc zero)) low = refl
order_rests (suc (suc (suc k))) low = absurd (omega arith)

one_left : (turns (begin three_threads) order).ready_count ≡ 1
unfolding turns turn turn_of retire offer look
one_left = refl

turns-Settled_example : Settled (turns (begin three_threads) order)
turns-Settled_example = turns-Settled 3 three_threads order order_in order_rests
