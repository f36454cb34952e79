-- ===== src/Pages/Chain.antt =====
-- src/page.rs: free lists in memory, and what pushing evenly spaced blocks makes of one.
use allox.Prelude.{
  ℕ, zero, suc, ◌+◌, ◌*◌, ◌≤◌, ◌≡◌, ◌≢◌, refl, List, [], ◌∷◌, none, some, arith, ◌==◌, subst, sym,
  ap, false,
}
use allox.Regions.{update}
use allox.Pages.{Memory, Heads, push_block, pop_block}

-- From `head`, the links of the memory run through the blocks of the list, in its order, to null.
abbrev pub Chain : Memory → ℕ → List ℕ → Type 0
Chain memory head [] = head ≡ 0
Chain memory head (b ∷ blocks) = (head ≡ b) × (1 ≤ b) × Chain memory (memory b) blocks

-- Every block of a list is other than `b`.
abbrev pub Avoids : ℕ → List ℕ → Type 0
Avoids b [] = zero ≡ zero
Avoids b (x ∷ xs) = (x ≢ b) × Avoids b xs

update-Chain :
    (memory : Memory) (b value head : ℕ) (blocks : List ℕ)
    → Avoids b blocks
    → Chain memory head blocks
    → Chain (update memory b value) head blocks
update-Chain memory b value head [] away h = h
update-Chain memory b value head (x ∷ xs) (other, away) (at, pos, rest) = (
  at,
  pos,
  subst (λ next. Chain (update memory b value) next xs) (ground arith)
      (update-Chain memory b value (memory x) xs away rest),
)

abbrev pub HeadsChain : Heads → List ℕ → Type 0
HeadsChain s blocks = Chain s.memory s.head blocks

pub push_block-Chain :
    (s : Heads) (b : ℕ) (blocks : List ℕ)
    → 1 ≤ b
    → Avoids b blocks
    → HeadsChain s blocks
    → HeadsChain (push_block s b) (b ∷ blocks)
unfolding push_block
push_block-Chain s b blocks pos away h = (
  refl,
  pos,
  subst (λ next. Chain (update s.memory b s.head) next blocks) (ground arith)
      (update-Chain s.memory b s.head s.head blocks away h),
)

-- Popping a non-empty free list gives its first block and leaves the others; an empty one gives
-- nothing and stays empty.
abbrev pub PopOutcome : Heads → List ℕ → Type 0
PopOutcome s [] = pop_block s ≡ (s, none)
PopOutcome s (b ∷ blocks) = ((pop_block s).1 ≡ some b) × HeadsChain (pop_block s).0 blocks

-- For a free list that runs through the given blocks, popping gives its first block and leaves
-- the others in their order; an empty one gives nothing and does not change.
pub pop_block-Chain : (s : Heads) (blocks : List ℕ) → HeadsChain s blocks → PopOutcome s blocks
unfolding pop_block
pop_block-Chain s [] h = ground arith
pop_block-Chain s (b ∷ blocks) (at, pos, rest) =
    let full : (s.head == 0) ≡ false = ground arith in
    (rw full (ap some at), rw full (subst (λ h. Chain s.memory (s.memory h) blocks) (sym at) rest))

-- The blocks `start`, `start + size`, … of which there are `n`, the last one first.
abbrev pub descending : ℕ → ℕ → ℕ → List ℕ
descending zero size start = []
descending (suc n) size start = (start + n * size) ∷ descending n size start

pub descending-Avoids :
    (n size start b : ℕ) → 1 ≤ size → start + n * size ≤ b → Avoids b (descending n size start)
descending-Avoids zero size start b pos le = refl
descending-Avoids (suc n) size start b pos le =
    (λ e. absurd (omega arith), descending-Avoids n size start b pos (omega arith))
