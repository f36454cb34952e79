-- ===== src/Heap/Blocks.antt =====
-- src/heap.rs, src/page.rs: the blocks that a page lays out, and what makes a page header right.
use native.Mathlib.Nat.{div-mul-le_self, mul-le-mul_left, mul-le-mul_right}
use allox.Prelude.{
  refl, inl, inr, Bool-cases, ◌==◌, ℕ, zero, suc, ◌+◌, ◌-◌, ◌*◌, ◌≤◌, ◌<◌, ◌≡◌, ◌⊎◌, ap, ◌∙◌, subst,
  List, [], ◌∷◌, arith, length, All, same, occurrences, min,
}
use allox.Classes.{page_size}
use allox.Pages.{header_size}
use allox.Heap.{Page, laid, page_capacity, provision_page, add16}

-- An address behind the header of the page at `p`.
abbrev pub InPage : ℕ → ℕ → Type 0
InPage p b = (p + header_size ≤ b) × (b < p + page_size)

pub length-laid :
    (n size start : ℕ) (rest : List ℕ) → length (laid n size start rest) ≡ n + length rest
unfolding laid
length-laid zero size start rest = omega arith
length-laid (suc n) size start rest =
    omega (arith, length-laid n size start ((start + n * size) ∷ rest))

pub laid-All {κ} :
    (P : ℕ → Type κ) (n size start : ℕ) (rest : List ℕ)
    → ((k : ℕ) → k < n → P (start + k * size))
    → All P rest
    → All P (laid n size start rest)
unfolding laid
laid-All P zero size start rest each h = h
laid-All P (suc n) size start rest each h =
    laid-All P n size start ((start + n * size) ∷ rest) (λ k lt. each k (omega arith))
      (each n (omega arith), h)

pub occurrences-laid :
    (x n size start : ℕ) (rest : List ℕ)
    → occurrences x (laid n size start rest)
      ≡ occurrences x (laid n size start []) + occurrences x rest
unfolding laid
occurrences-laid x zero size start rest = omega arith
occurrences-laid x (suc n) size start rest = omega (
  arith,
  occurrences-laid x n size start ((start + n * size) ∷ rest),
  occurrences-laid x n size start ((start + n * size) ∷ []),
)

-- The first `m` blocks and the `n` behind them.
pub laid-split :
    (x m n size start : ℕ)
    → occurrences x (laid (m + n) size start [])
      ≡ occurrences x (laid m size start []) + occurrences x (laid n size (start + m * size) [])
unfolding laid
laid-split x m zero size start =
    let none_more : m ≡ m + zero = omega arith in
    subst (λ k. occurrences x (laid k size start []) ≡ occurrences x (laid m size start []) + 0)
      none_more (omega arith)
laid-split x m (suc n) size start =
    let one_more : suc (m + n) ≡ m + suc n = omega arith in
    subst
      (λ k.
        occurrences x (laid k size start [])
        ≡ occurrences x (laid m size start [])
          + occurrences x (laid (suc n) size (start + m * size) []))
      one_more
      (omega (
        arith,
        occurrences-laid x (m + n) size start ((start + (m + n) * size) ∷ []),
        occurrences-laid x n size (start + m * size) ((start + m * size + n * size) ∷ []),
        laid-split x m n size start,
        ap (same x) block,
      ))
  where
    block : start + (m + n) * size ≡ start + m * size + n * size
    block = omega arith

laid_above :
    (x n size start : ℕ)
    → start + n * size ≤ x
    → 1 ≤ size
    → occurrences x (laid n size start []) ≡ 0
unfolding laid
laid_above x zero size start le pos = refl
laid_above x (suc n) size start le pos = ground (
  arith,
  occurrences-laid x n size start ((start + n * size) ∷ []),
  laid_above x n size start (omega arith) pos,
)

-- No address is laid out twice.
pub laid_once : (x n size start : ℕ) → 1 ≤ size → occurrences x (laid n size start []) ≤ 1
unfolding laid
laid_once x zero size start pos = omega arith
laid_once x (suc n) size start pos = elim (Bool-cases (start + n * size == x)) [
  | inl here ↦ ground (
    arith,
    occurrences-laid x n size start ((start + n * size) ∷ []),
    laid_above x n size start (ground arith) pos,
  )
  | inr other ↦ ground (
    arith,
    occurrences-laid x n size start ((start + n * size) ∷ []),
    laid_once x n size start pos,
  )
]

module _ (size : ℕ) (sized : 16 ≤ size) where
  pub page_capacity_room : page_capacity size * size ≤ page_size - header_size
  unfolding page_capacity
  page_capacity_room = div-mul-le_self (page_size - header_size) size

  pub page_capacity_few : page_capacity size ≤ 4093
  page_capacity_few = omega (arith, page_capacity_room, mul-le-mul_left (page_capacity size) sized)

  -- A header whose counts are right, with its free blocks inside the page.
  pub record PageOk (p : ℕ) (page : Page) : Type 0 where
    pub counted : page.free_count ≡ length page.free
    pub room : page.used + page.free_count ≤ page_capacity size
    pub inside : All (InPage p) page.free

  -- The blocks of the first `made` places of the page at `p`.
  abbrev pub grid : ℕ → ℕ → List ℕ
  grid p made = laid made size (p + header_size) []

  block-InPage :
      (p made count k : ℕ)
      → made + count ≤ page_capacity size
      → k < count
      → InPage p (p + header_size + made * size + k * size)
  block-InPage p made count k fits lt =
      let last : (made + k + 1) * size ≤ page_capacity size * size =
        mul-le-mul_right size (omega arith) in
      (omega arith, omega (arith, last, page_capacity_room))

  pub provision_page-PageOk :
      (p : ℕ) (page : Page) (most : ℕ)
      → PageOk p page
      → PageOk p (provision_page size p page most).0
  unfolding provision_page
  provision_page-PageOk p page most ok =
      let made = page.used + page.free_count in
      let count = min (page_capacity size - made) most in
      let start = p + header_size + made * size in
      let fits : made + count ≤ page_capacity size = omega (arith, ok.room) in
      let few = page_capacity_few in
      let counted : add16 page.free_count count ≡ page.free_count + count =
        omega (arith, few, fits) in
      record {
        counted = counted ∙ omega (arith, ok.counted, length-laid count size start page.free);
        room = rw counted (omega (arith, fits));
        inside =
            laid-All (InPage p) count size start page.free
              (λ k lt. block-InPage p made count k fits lt) ok.inside;
      }

  -- Provisioning adds to the free list what it adds to the places taken.
  pub provision_page-blocks :
      (x p : ℕ) (page : Page) (most : ℕ)
      → PageOk p page
      → (let r = provision_page size p page most in
          occurrences x r.0.free + occurrences x (grid p (page.used + page.free_count))
          ≡ occurrences x page.free + occurrences x (grid p (r.0.used + r.0.free_count)))
  unfolding provision_page
  provision_page-blocks x p page most ok =
      let made = page.used + page.free_count in
      let count = min (page_capacity size - made) most in
      let start = p + header_size + made * size in
      let few = page_capacity_few in
      let sum : made + count ≡ page.used + add16 page.free_count count =
        omega (arith, few, ok.room) in
      omega (
        arith,
        occurrences-laid x count size start page.free,
        laid-split x made count size (p + header_size),
        ap (λ n. occurrences x (grid p n)) sum,
      )

  pub grid-inside : (p made : ℕ) → made ≤ page_capacity size → All (InPage p) (grid p made)
  grid-inside p made fits =
      laid-All (InPage p) made size (p + header_size) []
        (λ k lt.
          subst (λ b. InPage p b) (omega arith) (block-InPage p 0 made k (omega (arith, fits)) lt))
        tt

-- A page with a block that it can give.
abbrev pub HasSpare : ℕ → Page → Type 0
HasSpare size page = (1 ≤ length page.free) ⊎ (page.used + page.free_count < page_capacity size)
