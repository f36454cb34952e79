-- ===== src/Bins/Virgin.antt =====
-- src/cache.rs: the virgin count of a bin is sound: a block reported as still zero has not been
-- freed since the heap said so.
use allox.Prelude.{
  ℕ, suc, ◌+◌, ◌-◌, ◌*◌, ◌≤◌, ◌<◌, ◌≡◌, refl, Bool, true, false, some, List, [], ◌∷◌, arith, ◌==◌,
  if◌then◌else◌, length, Bool-cases, inl, inr, ap,
}
use allox.Pages.Chain.{Avoids}
use allox.Bins.{Cached, alloc_zeroed, alloc_zeroed_hit, refill, dealloc}

-- The blocks with fewer than `virgin` blocks below them are clean.
abbrev pub Bottom : (ℕ → Bool) → ℕ → List ℕ → Type 0
Bottom clean virgin [] = true ≡ true
Bottom clean virgin (x ∷ xs) = (length xs < virgin → clean x ≡ true) × Bottom clean virgin xs

abbrev pub AllClean : (ℕ → Bool) → List ℕ → Type 0
AllClean clean [] = true ≡ true
AllClean clean (x ∷ xs) = (clean x ≡ true) × AllClean clean xs

-- The counts of a bin are right, and its virgin blocks are clean.
pub record BinOk (clean : ℕ → Bool) (size : ℕ) (c : Cached) : Type 0 where
  pub len : c.bin.len ≡ length c.bin.blocks
  pub virgin : c.bin.virgin ≤ c.bin.len
  pub bytes : c.cached_bytes ≡ size * c.bin.len
  pub bottom : Bottom clean c.bin.virgin c.bin.blocks

-- A bin and the blocks that are clean. A block stops being clean when it is freed: its user may
-- have written to it.
pub record BinWorld : Type 0 where
  pub cached : Cached
  pub clean : ℕ → Bool

abbrev pub soiled : (ℕ → Bool) → ℕ → ℕ → Bool
soiled clean p q = if q == p then false else clean q

-- Allocation, refill of an empty bin with a batch that is clean if its page is virgin, and a free of a block that
-- is not in the bin.
pub data BinStep (size : ℕ) (w : BinWorld) : BinWorld → Type 0 where
  allocate : BinStep size w (record w { cached = (alloc_zeroed size (w.cached)).0 })
  fill :
      (batch : List ℕ) (virgin : Bool)
      → w.cached.bin.blocks ≡ []
      → (virgin ≡ true → AllClean w.clean batch)
      → BinStep size w (record w { cached = (refill size (w.cached) batch virgin).0 })
  free :
      (p : ℕ)
      → Avoids p w.cached.bin.blocks
      → BinStep size w (record { cached = dealloc size (w.cached) p; clean = soiled w.clean p })

pub data BinReach (size : ℕ) (w : BinWorld) : BinWorld → Type 0 where
  here : BinReach size w w
  next : {u v : BinWorld} → BinReach size w u → BinStep size u v → BinReach size w v

Bottom-fewer :
    (clean : ℕ → Bool) (more fewer : ℕ) (xs : List ℕ)
    → fewer ≤ more
    → Bottom clean more xs
    → Bottom clean fewer xs
Bottom-fewer clean more fewer [] le b = refl
Bottom-fewer clean more fewer (x ∷ xs) le (top, rest) =
    (λ lt. top (omega arith), Bottom-fewer clean more fewer xs le rest)

Bottom-none : (clean : ℕ → Bool) (xs : List ℕ) → Bottom clean 0 xs
Bottom-none clean [] = refl
Bottom-none clean (x ∷ xs) = (λ lt. absurd (omega arith), Bottom-none clean xs)

Bottom-AllClean : (clean : ℕ → Bool) (n : ℕ) (xs : List ℕ) → AllClean clean xs → Bottom clean n xs
Bottom-AllClean clean n [] a = refl
Bottom-AllClean clean n (x ∷ xs) (good, rest) = (λ lt. good, Bottom-AllClean clean n xs rest)

Bottom-soiled :
    (clean : ℕ → Bool) (p virgin : ℕ) (xs : List ℕ)
    → Avoids p xs
    → Bottom clean virgin xs
    → Bottom (soiled clean p) virgin xs
Bottom-soiled clean p virgin [] away b = refl
Bottom-soiled clean p virgin (x ∷ xs) (other, away) (top, rest) =
    (λ lt. ground (arith, top lt), Bottom-soiled clean p virgin xs away rest)

below_len : (len n : ℕ) → len ≡ suc n → len - 1 ≡ n
below_len len n e = omega arith

module _ (clean : ℕ → Bool) (size : ℕ) where
  hit-BinOk :
      (c : Cached) (blocks : List ℕ)
      → c.bin.blocks ≡ blocks
      → BinOk clean size c
      → Bottom clean c.bin.virgin blocks
      → c.bin.len ≡ length blocks
      → BinOk clean size (alloc_zeroed_hit size c blocks).0
        × ((p : ℕ) → (alloc_zeroed_hit size c blocks).1 ≡ some (p, true) → clean p ≡ true)
  unfolding alloc_zeroed_hit
  hit-BinOk c [] e ok b l = (ok, λ p h. absurd cc)
  hit-BinOk c (x ∷ xs) e ok (top, rest) l = (
    record {
      len = omega arith;
      virgin = ground (arith, ok.virgin);
      bytes = omega (
        arith,
        ok.bytes,
        ap (λ n. size * n) l,
        ap (λ n. size * n) (below_len c.bin.len (length xs) l),
      );
      bottom = Bottom-fewer clean c.bin.virgin _ xs (ground arith) rest;
    },
    λ p h. ground (arith, top),
  )

  -- For a bin that is right, `alloc_zeroed` leaves it right, and a block that it reports as zero is
  -- clean.
  alloc_zeroed-BinOk :
      (c : Cached)
      → BinOk clean size c
      → BinOk clean size (alloc_zeroed size c).0
        × ((p : ℕ) → (alloc_zeroed size c).1 ≡ some (p, true) → clean p ≡ true)
  unfolding alloc_zeroed
  alloc_zeroed-BinOk c ok = hit-BinOk c c.bin.blocks refl ok ok.bottom ok.len

  refill-BinOk :
      (c : Cached) (batch : List ℕ) (virgin : Bool)
      → c.bin.blocks ≡ []
      → (virgin ≡ true → AllClean clean batch)
      → BinOk clean size c
      → BinOk clean size (refill size c batch virgin).0
  unfolding refill
  refill-BinOk c [] virgin empty good ok = ok
  refill-BinOk c (x ∷ xs) virgin empty good ok =
      let none_left : c.bin.len ≡ 0 = rw empty at ok.len in
      record {
        len = omega arith;
        virgin = ground arith;
        bytes = omega (arith, ok.bytes);
        bottom = elim (Bool-cases virgin) [
          | inl v ↦ rw v (Bottom-AllClean clean (length xs + 1 - 1) xs (good v).1)
          | inr v ↦ rw v (Bottom-none clean xs)
        ];
      }

  dealloc-BinOk :
      (c : Cached) (p : ℕ)
      → Avoids p c.bin.blocks
      → BinOk clean size c
      → BinOk (soiled clean p) size (dealloc size c p)
  unfolding dealloc
  dealloc-BinOk c p away ok = record {
    len = omega (arith, ok.len);
    virgin = omega (arith, ok.virgin);
    bytes = omega (arith, ok.bytes);
    bottom = (
      λ lt. absurd (omega (arith, ok.len, ok.virgin)),
      Bottom-soiled clean p c.bin.virgin c.bin.blocks away ok.bottom,
    );
  }

abbrev pub WorldOk : ℕ → BinWorld → Type 0
WorldOk size w = BinOk w.clean size w.cached

BinStep-WorldOk : (size : ℕ) {w v : BinWorld} → WorldOk size w → BinStep size w v → WorldOk size v
BinStep-WorldOk size {w} ok allocate = (alloc_zeroed-BinOk w.clean size w.cached ok).0
BinStep-WorldOk size {w} ok (fill batch virgin empty good) =
    refill-BinOk w.clean size w.cached batch virgin empty good ok
BinStep-WorldOk size {w} ok (free p away) = dealloc-BinOk w.clean size w.cached p away ok

BinReach-WorldOk : (size : ℕ) {w v : BinWorld} → WorldOk size w → BinReach size w v → WorldOk size v
BinReach-WorldOk size ok here = ok
BinReach-WorldOk size ok (next r s) = BinStep-WorldOk size (BinReach-WorldOk size ok r) s

-- After any sequence of allocations, refills of the empty bin and frees of blocks that are not in
-- it, from a bin that is right: a block that `alloc_zeroed` reports as still zero has not been
-- freed since the heap handed it over as virgin; the count of blocks and the bytes counted are
-- those of the blocks in the bin.
pub alloc_zeroed_clean :
    (size : ℕ) {w v : BinWorld} (p : ℕ)
    → WorldOk size w
    → BinReach size w v
    → (alloc_zeroed size v.cached).1 ≡ some (p, true)
    → (v.clean p ≡ true)
      × (v.cached.bin.len ≡ length v.cached.bin.blocks)
      × (v.cached.cached_bytes ≡ size * v.cached.bin.len)
alloc_zeroed_clean size {v = v} p ok reach e =
    let now = BinReach-WorldOk size ok reach in
    ((alloc_zeroed-BinOk v.clean size v.cached now).1 p e, now.len, now.bytes)
