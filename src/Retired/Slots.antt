-- ===== src/Retired/Slots.antt =====
-- src/cache.rs: what holds of the retired slots between the turns of the threads.
use allox.Prelude.{
  ℕ, ◌+◌, ◌%◌, ◌^◌, ◌≤◌, ◌<◌, ◌≡◌, inl, inr, ap, subst, false, arith, ◌==◌, Bool-cases,
}
use allox.Retired.{retired_slot_count, OldCache, retired_empty, RetiredSlot, set, Thread, Retired}
use allox.Retired.Places.{carried, stored, full, writes, reads, to_add, to_sub, written, read_out}
use allox.Retired.Sums.{sum, sum-set, sum-one}

-- For `n` threads, and caches with a given weight in all.
pub record Sound (n : ℕ) (all : (OldCache → ℕ) → ℕ) (r : Retired) : Type 0 where
  pub kept :
      (f : OldCache → ℕ)
      → sum (carried f) n r.threads + sum (stored f) retired_slot_count r.slots ≡ all f
  pub writers : (i : ℕ) → sum (writes i) n r.threads ≡ written (r.slots i).state
  pub readers : (i : ℕ) → sum (reads i) n r.threads ≡ read_out (r.slots i).state
  pub inside : (i : ℕ) → retired_slot_count ≤ i → (r.slots i).state ≡ retired_empty
  pub word : r.ready_count < 2 ^ 64
  pub counted :
      (r.ready_count + sum to_add n r.threads) % 2 ^ 64
      ≡ (sum full retired_slot_count r.slots + sum to_sub n r.threads) % 2 ^ 64

-- A new count, for threads that have `a` and `s` changes of it to make.
abbrev Recounted : ℕ → ℕ → ℕ → ℕ → Thread → Thread → Type 0
Recounted count count' stock stock' t t' =
    (a s a' s' : ℕ)
    → a' + to_add t ≡ a + to_add t'
    → s' + to_sub t ≡ s + to_sub t'
    → to_add t ≤ a
    → to_sub t ≤ s
    → (count + a) % 2 ^ 64 ≡ (stock + s) % 2 ^ 64
    → (count' + a') % 2 ^ 64 ≡ (stock' + s') % 2 ^ 64

module _ (n : ℕ) (all : (OldCache → ℕ) → ℕ) (r : Retired) (ok : Sound n all r) (k : ℕ) (low : k < n)
    (t t' : Thread) (at : r.threads k ≡ t) where
  moved : (f : Thread → ℕ) → sum f n (set r.threads k t') + f t ≡ sum f n r.threads + f t'
  moved f = omega (arith, sum-set f r.threads k t' n low, ap f at)

  pub part : (f : Thread → ℕ) → f t ≤ sum f n r.threads
  part f = omega (arith, sum-one f n r.threads k low, ap f at)

  recount :
      (count' stock' : ℕ)
      → Recounted r.ready_count count' (sum full retired_slot_count r.slots) stock' t t'
      → (count' + sum to_add n (set r.threads k t')) % 2 ^ 64
        ≡ (stock' + sum to_sub n (set r.threads k t')) % 2 ^ 64
  recount count' stock' f =
      f (sum to_add n r.threads) (sum to_sub n r.threads) (sum to_add n (set r.threads k t'))
        (sum to_sub n (set r.threads k t')) (moved to_add) (moved to_sub) (part to_add)
        (part to_sub) ok.counted

  -- A turn that leaves the slots alone.
  pub go-Sound :
      (count' : ℕ)
      → count' < 2 ^ 64
      → ((f : OldCache → ℕ) → carried f t' ≡ carried f t)
      → ((i : ℕ) → writes i t' ≡ writes i t)
      → ((i : ℕ) → reads i t' ≡ reads i t)
      → ((stock : ℕ) → Recounted r.ready_count count' stock stock t t')
      → Sound n all (record { slots = r.slots; ready_count = count'; threads = set r.threads k t' })
  go-Sound count' small same_cache same_writes same_reads counts = record {
    kept = λ f. omega (arith, ok.kept f, moved (carried f), same_cache f);
    writers = λ i. omega (arith, ok.writers i, moved (writes i), same_writes i);
    readers = λ i. omega (arith, ok.readers i, moved (reads i), same_reads i);
    inside = ok.inside;
    word = small;
    counted =
        recount count' (sum full retired_slot_count r.slots)
          (counts (sum full retired_slot_count r.slots));
  }

  -- A turn that leaves the count alone too.
  pub walk-Sound :
      ((f : OldCache → ℕ) → carried f t' ≡ carried f t)
      → ((i : ℕ) → writes i t' ≡ writes i t)
      → ((i : ℕ) → reads i t' ≡ reads i t)
      → to_add t' ≡ to_add t
      → to_sub t' ≡ to_sub t
      → Sound n all (record r { threads = set r.threads k t' })
  walk-Sound same_cache same_writes same_reads same_add same_sub =
      go-Sound r.ready_count ok.word same_cache same_writes same_reads
        (λ stock a s a' s' adds subs lo hi before.
          let same_a : a' ≡ a = omega (arith, same_add, adds) in
          let same_s : s' ≡ s = omega (arith, same_sub, subs) in
          omega (arith, before, same_a, same_s))

  -- A turn that changes a slot.
  module _ (i : ℕ) (below : i < retired_slot_count) (s : RetiredSlot) where
    pub slot-Sound :
        ((f : OldCache → ℕ) → carried f t' + stored f s ≡ carried f t + stored f (r.slots i))
        → (writes i t' + written (r.slots i).state ≡ writes i t + written s.state)
        → (reads i t' + read_out (r.slots i).state ≡ reads i t + read_out s.state)
        → ((j : ℕ) → (j == i) ≡ false → (writes j t' ≡ writes j t) × (reads j t' ≡ reads j t))
        → ((stock stock' : ℕ)
            → stock' + full (r.slots i) ≡ stock + full s
            → full (r.slots i) ≤ stock
            → Recounted r.ready_count r.ready_count stock stock' t t')
        → Sound n all (record {
          slots = set r.slots i s;
          ready_count = r.ready_count;
          threads = set r.threads k t';
        })
    slot-Sound caches writers' readers' others counts = record {
      kept = λ f. omega (
        arith,
        ok.kept f,
        moved (carried f),
        caches f,
        sum-set (stored f) r.slots i s retired_slot_count below,
      );
      writers = λ j. elim (Bool-cases (j == i)) [
        | inl e ↦
            let here : i ≡ j = ground arith in
            simp e (
              subst (λ q. sum (writes q) n (set r.threads k t') ≡ written s.state) here
                (omega (arith, moved (writes i), writers', ok.writers i)))
        | inr e ↦
            let (same_writes, same_reads) = others j e in
            simp e (omega (arith, moved (writes j), same_writes, ok.writers j))
      ];
      readers = λ j. elim (Bool-cases (j == i)) [
        | inl e ↦
            let here : i ≡ j = ground arith in
            simp e (
              subst (λ q. sum (reads q) n (set r.threads k t') ≡ read_out s.state) here
                (omega (arith, moved (reads i), readers', ok.readers i)))
        | inr e ↦
            let (same_writes, same_reads) = others j e in
            simp e (omega (arith, moved (reads j), same_reads, ok.readers j))
      ];
      inside = λ j over. let e : (j == i) ≡ false = ground arith in simp e (ok.inside j over);
      word = ok.word;
      counted = recount r.ready_count (sum full retired_slot_count (set r.slots i s)) (
          counts (sum full retired_slot_count r.slots)
            (sum full retired_slot_count (set r.slots i s))
            (sum-set full r.slots i s retired_slot_count below)
            (sum-one full retired_slot_count r.slots i below));
    }
