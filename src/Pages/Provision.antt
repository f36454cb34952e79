-- ===== src/Pages/Provision.antt =====
-- src/page.rs: `PageHeader::provision`, which makes blocks of a small page ready as they are
-- needed: where they lie, how many, and the free list that it extends.
use native.Mathlib.Nat.{div-mul-le_self, mul-le-mul_left, mul-le-mul_right}
use allox.Prelude.{
  ℕ, zero, suc, ◌+◌, ◌-◌, ◌*◌, ◌%◌, ◌^◌, ◌≤◌, ◌<◌, ◌≡◌, ◌⊎◌, refl, inl, inr, List, [], ◌∷◌, arith,
  get_or, min, ◌==◌, Bool-cases,
}
use allox.Classes.{page_size, classes}
use allox.Pages.{
  Memory, Heads, push_block, PageHeader, capacity, header_size, provision_loop, Provisioned,
  provision,
}
use allox.Pages.Chain.{Chain, Avoids, HeadsChain, push_block-Chain}

-- Every block of a list lies below `lo` or not below `hi`.
abbrev pub Clear : ℕ → ℕ → List ℕ → Type 0
Clear lo hi [] = zero ≡ zero
Clear lo hi (x ∷ xs) = ((x < lo) ⊎ (hi ≤ x)) × Clear lo hi xs

-- The blocks `start`, `start + size`, …, `n` of them, in front of a list.
abbrev pub listed : ℕ → ℕ → ℕ → List ℕ → List ℕ
listed zero size start rest = rest
listed (suc n) size start rest = listed n size start ((start + n * size) ∷ rest)

Clear-Avoids : (lo hi b : ℕ) (xs : List ℕ) → lo ≤ b → b < hi → Clear lo hi xs → Avoids b xs
Clear-Avoids lo hi b [] from to c = refl
Clear-Avoids lo hi b (x ∷ xs) from to (away, rest) =
    (λ e. absurd (ground arith), Clear-Avoids lo hi b xs from to rest)

Clear-narrow : (lo hi hi' : ℕ) (xs : List ℕ) → hi' ≤ hi → Clear lo hi xs → Clear lo hi' xs
Clear-narrow lo hi hi' [] le c = refl
Clear-narrow lo hi hi' (x ∷ xs) le (inl below, rest) =
    (inl below, Clear-narrow lo hi hi' xs le rest)
Clear-narrow lo hi hi' (x ∷ xs) le (inr above, rest) =
    (inr (omega arith), Clear-narrow lo hi hi' xs le rest)

provision_loop-Chain :
    (n size start : ℕ) (s : Heads) (blocks : List ℕ)
    → 1 ≤ size
    → 1 ≤ start
    → Clear start (start + n * size) blocks
    → HeadsChain s blocks
    → HeadsChain (provision_loop n start size s) (listed n size start blocks)
unfolding provision_loop
provision_loop-Chain zero size start s blocks pos pos' clear h = h
provision_loop-Chain (suc n) size start s blocks pos pos' clear h =
    let b = start + n * size in
    provision_loop-Chain n size start (push_block s b) (b ∷ blocks) pos pos'
      (inr (omega arith), Clear-narrow start (start + suc n * size) b blocks (omega arith) clear)
      (push_block-Chain s b blocks (omega arith)
        (Clear-Avoids start (start + suc n * size) b blocks (omega arith) (omega arith) clear) h)

-- What `provision` did to a page at `self` whose free list ran through `blocks`.
pub record Extended (self : ℕ) (h : PageHeader) (most : ℕ) (blocks : List ℕ) (r : Provisioned)
    : Type 0 where
  pub number : r.count ≡ min (capacity h - (h.used + h.free_count)) most
  pub counted : r.header.free_count ≡ h.free_count + r.count
  pub room : h.used + r.header.free_count ≤ capacity h
  pub chain : Chain r.memory r.header.free_head (
      listed r.count
        (get_or classes h.class 0)
        (self + header_size + (h.used + h.free_count) * get_or classes h.class 0)
        blocks)
  pub inside :
      self + header_size + (h.used + r.header.free_count) * get_or classes h.class 0
      ≤ self + page_size

-- For a page of a class with blocks of at least 16 bytes, not more blocks in use and free than it
-- holds, and a free list that keeps clear of the part of the page not yet carved: `provision` makes
-- as many blocks as are asked for and still there, the count is that of the free list, the list
-- runs through the new blocks in order and then the old ones, and no block goes past the page.
pub provision-Extended :
    (memory : Memory) (self : ℕ) (h : PageHeader) (most : ℕ) (blocks : List ℕ)
    → 16 ≤ get_or classes h.class 0
    → h.used + h.free_count ≤ capacity h
    → Chain memory h.free_head blocks
    → Clear
        (self + header_size + (h.used + h.free_count) * get_or classes h.class 0)
        (self + page_size)
        blocks
    → Extended self h most blocks (provision memory self h most)
unfolding provision capacity
provision-Extended memory self h most blocks pos fits chain clear =
    let size = get_or classes h.class 0 in
    let made = h.used + h.free_count in
    let start = self + header_size + made * size in
    let count = min (capacity h - made) most in
    let whole = div-mul-le_self (page_size - header_size) size in
    let held : made + count ≤ capacity h = omega (arith, fits) in
    let scaled : (made + count) * size ≤ capacity h * size = mul-le-mul_right size held in
    let total : (made + count) * size ≤ page_size - header_size = omega (arith, scaled, whole) in
    let wide : (made + count) * 16 ≤ (made + count) * size = mul-le-mul_left (made + count) pos in
    let few : h.free_count + count < 2 ^ 16 = omega (arith, wide, total) in
    let counted : (h.free_count + count % 2 ^ 16) % 2 ^ 16 ≡ h.free_count + count =
      omega (arith, few) in
    let done =
      provision_loop-Chain count size start (record { memory = memory; head = h.free_head }) blocks
        (omega arith) (omega arith)
        (Clear-narrow start (self + page_size) (start + count * size) blocks (omega (arith, total))
          clear)
        chain in
    elim (Bool-cases (count == 0)) [
      | inl e ↦ rw e (record {
        number = ground arith;
        counted = omega arith;
        room = fits;
        chain = chain;
        inside = omega (arith, total);
      })
      | inr e ↦ rw e (record {
        number = refl;
        counted = counted;
        room = omega (arith, few, held);
        chain = done;
        inside = rw counted (omega (arith, total));
      })
    ]
