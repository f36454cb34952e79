-- ===== src/Classes/Scan.antt =====
-- src/classes.rs: what the linear scans find, whatever the table, and why a lookup table indexed
-- by 16-byte slots gives the same answer.
use allox.Prelude.{
  ℕ, zero, suc, ◌+◌, ◌-◌, ◌*◌, ◌/◌, ◌%◌, ◌≤◌, ◌<◌, ◌≡◌, List, arith, leb, inl, inr, length, get_or,
  Bool-cases, below_suc,
}
use allox.Classes.{scan_loop}

-- Entry `k` is the first of the table that holds `size`.
pub record IsFirst (table : List ℕ) (size k : ℕ) : Type 0 where
  pub bound : k < length table
  pub fits : size ≤ get_or table k 0
  pub least : (j : ℕ) → j < k → get_or table j 0 < size

scan_loop-IsFirst :
    (rounds : ℕ) (table : List ℕ) (i size : ℕ)
    → i + rounds < length table
    → size ≤ get_or table (i + rounds) 0
    → ((j : ℕ) → j < i → get_or table j 0 < size)
    → IsFirst table size (scan_loop rounds table i size)
unfolding scan_loop
scan_loop-IsFirst zero table i size bound fits before = record {
  bound = omega arith;
  fits = ground arith;
  least = before;
}
scan_loop-IsFirst (suc rounds) table i size bound fits before =
    elim (Bool-cases (leb size (get_or table i 0))) [
      | inl e ↦ rw e (record { bound = omega arith; fits = ground arith; least = before })
      | inr e ↦ rw e (
          scan_loop-IsFirst rounds table (i + 1) size (omega arith) (ground arith)
            (below_suc (λ j. get_or table j 0 < size) i before (ground arith)))
    ]

-- A scan of a whole table whose last entry is large enough finds the first entry that fits.
pub scan-IsFirst :
    (table : List ℕ) (size : ℕ)
    → 0 < length table
    → size ≤ get_or table (length table - 1) 0
    → IsFirst table size (scan_loop (length table - 1) table 0 size)
scan-IsFirst table size h fits =
    scan_loop-IsFirst (length table - 1) table 0 size (omega arith) (ground arith)
      (λ j h'. elim h' [ ])

-- The first fitting entry is determined by the size.
pub IsFirst-unique :
    (table : List ℕ) (size k m : ℕ) → IsFirst table size k → IsFirst table size m → k ≡ m
IsFirst-unique table size k m a b = ground (arith, a.least m, b.least k)

-- Where all entries are multiples of 16, rounding the size up to a multiple of 16 changes nothing.
pub IsFirst-round :
    (table : List ℕ) (size k q : ℕ)
    → ((j : ℕ) → j < length table → get_or table j 0 % 16 ≡ 0)
    → size ≤ q * 16
    → q * 16 < size + 16
    → IsFirst table (q * 16) k
    → IsFirst table size k
IsFirst-round table size k q aligned lo hi f = record {
  bound = f.bound;
  fits = omega arith;
  least = λ j h. omega (arith, f.least j h, aligned j (omega (arith, f.bound)));
}

-- The same, where the slot is named by the smallest size that falls into it.
pub IsFirst-slot :
    (table : List ℕ) (size k slot : ℕ)
    → ((j : ℕ) → j < length table → get_or table j 0 % 16 ≡ 0)
    → slot ≤ size
    → size < slot + 16
    → slot % 16 ≡ 1
    → IsFirst table slot k
    → IsFirst table size k
IsFirst-slot table size k slot aligned lo hi m f = record {
  bound = f.bound;
  fits = omega (arith, aligned k f.bound);
  least = λ j h. ground (arith, f.least j h);
}

-- The overhead of the first fitting entry is bounded if neighbours in the table are close.
pub IsFirst-overhead :
    (table : List ℕ) (size k : ℕ)
    → get_or table 0 0 < size * 9 / 8 + 16
    → ((j : ℕ)
        → j < length table - 1
        → get_or table (j + 1) 0 < (get_or table j 0 + 1) * 9 / 8 + 16)
    → IsFirst table size k
    → get_or table k 0 < size * 9 / 8 + 16
IsFirst-overhead table size zero first close f = first
IsFirst-overhead table size (suc k) first close f =
    ground (arith, f.least k (omega arith), close k (omega (arith, f.bound)))
