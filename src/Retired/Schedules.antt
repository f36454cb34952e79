-- ===== src/Retired/Schedules.antt =====
-- src/cache.rs: what `retire` and `take_one` come to over whole schedules.
use allox.Prelude.{
  ℕ, zero, suc, ◌+◌, ◌≤◌, ◌<◌, ◌≡◌, ◌⊎◌, inl, inr, refl, sym, ◌∙◌, Bool, true, false, List, All,
  arith,
}
use allox.Retired.{
  retired_slot_count, OldCache, SlotState, retired_empty, retired_writing, retired_ready,
  retired_taking, RetiredSlot, Thread, retiring, offering, writing, counting, left_cache,
  left_nothing, flushed, taking, looking, reading, discounting, took, took_nothing, Retired, turns,
  Role, leaves, takes, first_place, begin,
}
use allox.Retired.Sums.{sum}
use allox.Retired.Places.{
  brought_by, carried, stored, full, is_full, writes, reads, to_add, to_sub, written, read_out,
}
use allox.Retired.Slots.{Sound}
use allox.Retired.Handover.{turns-Sound}

abbrev pub brought : (OldCache → ℕ) → Role → ℕ
brought f (leaves c) = brought_by f c
brought f takes = 0

sum-same :
    {A B : Type 0}
    → (f : A → ℕ) (g : B → ℕ) (xs : ℕ → A) (ys : ℕ → B) → ((i : ℕ) → f (xs i) ≡ g (ys i))
    → (n : ℕ) → sum f n xs ≡ sum g n ys
sum-same f g xs ys e zero = refl
sum-same f g xs ys e (suc n) = omega (arith, sum-same f g xs ys e n, e n)

sum-none :
    {A : Type 0}
    → (f : A → ℕ) (xs : ℕ → A) (n : ℕ) → ((i : ℕ) → i < n → f (xs i) ≡ 0)
    → sum f n xs ≡ 0
sum-none f xs zero e = refl
sum-none f xs (suc n) e =
    omega (arith, sum-none f xs n (λ i low. e i (omega arith)), e n (omega arith))

first_carried : (f : OldCache → ℕ) (role : Role) → carried f (first_place role) ≡ brought f role
first_carried f (leaves c) = refl
first_carried f takes = refl

first_idle :
    (role : Role)
    → ((i : ℕ) → (writes i (first_place role) ≡ 0) × (reads i (first_place role) ≡ 0))
      × (to_add (first_place role) ≡ 0)
      × (to_sub (first_place role) ≡ 0)
first_idle (leaves c) = (λ i. (refl, refl), refl, refl)
first_idle takes = (λ i. (refl, refl), refl, refl)

module _ (n : ℕ) (roles : ℕ → Role) where
  abbrev all_brought : (OldCache → ℕ) → ℕ
  all_brought f = sum (brought f) n roles

  none_at :
      (f : Thread → ℕ)
      → ((role : Role) → f (first_place role) ≡ 0)
      → sum f n (λ k. first_place (roles k)) ≡ 0
  none_at f e = sum-none f (λ k. first_place (roles k)) n (λ k low. e (roles k))

  begin-Sound : Sound n all_brought (begin roles)
  begin-Sound = record {
    kept = λ f. omega (
      arith,
      sum-same (carried f) (brought f) (λ k. first_place (roles k)) roles
          (λ k. first_carried f (roles k)) n,
    );
    writers = λ i. none_at (writes i) (λ role. ((first_idle role).0 i).0);
    readers = λ i. none_at (reads i) (λ role. ((first_idle role).0 i).1);
    inside = λ i over. refl;
    word = omega arith;
    counted =
        let a = none_at to_add (λ role. (first_idle role).1) in
        let s = none_at to_sub (λ role. (first_idle role).2) in omega (arith, a, s);
  }

  -- For `n` threads that begin with empty slots, each to retire its cache or to take one, and any
  -- schedule of their turns: whatever is counted of the caches, a slot that holds one and the threads
  -- that still hold, took or flushed one have together as much as the caches that were brought with
  -- any bytes in them. So none of those is dropped, and none is handed over twice.
  pub turns_handed_over :
      (ks : List ℕ)
      → All (λ k. k < n) ks
      → (f : OldCache → ℕ)
      → sum (carried f) n (turns (begin roles) ks).threads
          + sum (stored f) retired_slot_count (turns (begin roles) ks).slots
        ≡ sum (brought f) n roles
  turns_handed_over ks low = (turns-Sound n all_brought (begin roles) begin-Sound ks low).kept

-- A thread that is at no slot and has the count up to date.
abbrev pub at_rest : Thread → Bool
at_rest (retiring c) = true
at_rest (offering c i) = true
at_rest (writing c i) = false
at_rest counting = false
at_rest left_cache = true
at_rest (left_nothing c) = true
at_rest (flushed c) = true
at_rest taking = true
at_rest (looking i) = true
at_rest (reading i) = false
at_rest (discounting c) = false
at_rest (took c) = true
at_rest took_nothing = true

rest_idle :
    (t : Thread)
    → at_rest t ≡ true
    → ((i : ℕ) → (writes i t ≡ 0) × (reads i t ≡ 0)) × (to_add t ≡ 0) × (to_sub t ≡ 0)
rest_idle (retiring c) h = (λ i. (refl, refl), refl, refl)
rest_idle (offering c i) h = (λ i. (refl, refl), refl, refl)
rest_idle (writing c i) h = absurd (ground arith)
rest_idle counting h = absurd (ground arith)
rest_idle left_cache h = (λ i. (refl, refl), refl, refl)
rest_idle (left_nothing c) h = (λ i. (refl, refl), refl, refl)
rest_idle (flushed c) h = (λ i. (refl, refl), refl, refl)
rest_idle taking h = (λ i. (refl, refl), refl, refl)
rest_idle (looking i) h = (λ i. (refl, refl), refl, refl)
rest_idle (reading i) h = absurd (ground arith)
rest_idle (discounting c) h = absurd (ground arith)
rest_idle (took c) h = (λ i. (refl, refl), refl, refl)
rest_idle took_nothing h = (λ i. (refl, refl), refl, refl)

abbrev pub ready : RetiredSlot → ℕ
ready s = elim s.state [
  | retired_empty ↦ 0
  | retired_writing ↦ 0
  | retired_ready ↦ 1
  | retired_taking ↦ 0
]

-- No slot is left in the middle of an exchange, and the count is that of the ready ones.
pub record Settled (r : Retired) : Type 0 where
  pub slots : (i : ℕ) → ((r.slots i).state ≡ retired_empty) ⊎ ((r.slots i).state ≡ retired_ready)
  pub count : r.ready_count ≡ sum ready retired_slot_count r.slots

settled_state :
    (s : SlotState) → written s ≡ 0 → read_out s ≡ 0 → (s ≡ retired_empty) ⊎ (s ≡ retired_ready)
settled_state retired_empty w r = inl refl
settled_state retired_writing w r = absurd (omega arith)
settled_state retired_ready w r = inr refl
settled_state retired_taking w r = absurd (omega arith)

full_ready :
    (s : SlotState) (c : OldCache)
    → read_out s ≡ 0
    → ready (record { state = s; cache = c }) ≡ is_full s
full_ready retired_empty c r = refl
full_ready retired_writing c r = refl
full_ready retired_ready c r = refl
full_ready retired_taking c r = absurd (omega arith)

sum-bound :
    {A : Type 0} → (f : A → ℕ) (xs : ℕ → A) → ((i : ℕ) → f (xs i) ≤ 1) → (n : ℕ) → sum f n xs ≤ n
sum-bound f xs e zero = omega arith
sum-bound f xs e (suc n) = omega (arith, sum-bound f xs e n, e n)

is_full_few : (s : SlotState) → is_full s ≤ 1
is_full_few retired_empty = omega arith
is_full_few retired_writing = omega arith
is_full_few retired_ready = omega arith
is_full_few retired_taking = omega arith

module _ (n : ℕ) (roles : ℕ → Role) where
  -- From the same beginnings, after any schedule that leaves no thread between its exchange of a slot
  -- and its change of the count: every slot is empty or ready, and the count, which is kept modulo
  -- 2 ^ 64 and may wrap on the way, is the number of the ready slots, so that a `take_one` that finds
  -- it 0 gives up rightly.
  pub turns-Settled :
      (ks : List ℕ)
      → All (λ k. k < n) ks
      → ((k : ℕ) → k < n → at_rest ((turns (begin roles) ks).threads k) ≡ true)
      → Settled (turns (begin roles) ks)
  turns-Settled ks low rests =
      let r = turns (begin roles) ks in
      let ok = turns-Sound n (all_brought n roles) (begin roles) (begin-Sound n roles) ks low in
      let idle : (f : Thread → ℕ)
          → ((t : Thread) → at_rest t ≡ true → f t ≡ 0)
          → sum f n r.threads ≡ 0 =
        λ f e. sum-none f r.threads n (λ k in_range. e (r.threads k) (rests k in_range)) in
      let unwritten : (i : ℕ) → written (r.slots i).state ≡ 0 =
        λ i. sym (ok.writers i) ∙ idle (writes i) (λ t h. ((rest_idle t h).0 i).0) in
      let unread : (i : ℕ) → read_out (r.slots i).state ≡ 0 =
        λ i. sym (ok.readers i) ∙ idle (reads i) (λ t h. ((rest_idle t h).0 i).1) in
      let added = idle to_add (λ t h. (rest_idle t h).1) in
      let subbed = idle to_sub (λ t h. (rest_idle t h).2) in
      let few = sum-bound full r.slots (λ i. is_full_few (r.slots i).state) retired_slot_count in
      let same_sum =
        sum-same ready full r.slots r.slots
          (λ i. full_ready (r.slots i).state (r.slots i).cache (unread i)) retired_slot_count in
      record {
        slots = λ i. settled_state (r.slots i).state (unwritten i) (unread i);
        count = omega (arith, ok.counted, ok.word, added, subbed, few, same_sum);
      }
