-- ===== src/Prelude/Words.antt =====
-- `usize` arithmetic of a 64-bit target as the source writes it: `checked_add`, `checked_sub`,
-- `checked_mul`, and rounding by a mask. For a power of two `a`, `x & !(a - 1)` is
-- `x - x % a` and `x & (a - 1)` is `x % a`.
use Prim.Native.Nat.{ℕ, zero, suc, ◌+◌, ◌-◌, ◌*◌, ◌%◌, ◌^◌, ◌<◌}
use mathlib.Core.Path.{◌≡◌}
use mathlib.Core.Bool.{Bool, true, false}
use mathlib.Core.Option.{Option, none, some}
use native.Mathlib.Omega.{arith}
use allox.Prelude.Tests.{leb, if◌then◌else◌}

abbrev pub usize_max : ℕ
usize_max = 2 ^ 64 - 1

abbrev pub checked_add : ℕ → ℕ → Option ℕ
checked_add a b = if leb (a + b) usize_max then some (a + b) else none

abbrev pub checked_mul : ℕ → ℕ → Option ℕ
checked_mul a b = if leb (a * b) usize_max then some (a * b) else none

abbrev pub checked_sub : ℕ → ℕ → Option ℕ
checked_sub a b = if leb b a then some (a - b) else none

-- `x & !(a - 1)` for a power of two `a`.
abbrev pub mask_down : ℕ → ℕ → ℕ
mask_down x a = x - x % a

-- Whether a test accepts each of the first `rounds` positions of a table, asked from the last to the
-- first.
unfoldable pub passes_before : ℕ → (ℕ → Bool) → Bool
passes_before zero test = true
passes_before (suc rounds) test = if test rounds then passes_before rounds test else false

pub passes_before_at :
    (rounds : ℕ) (test : ℕ → Bool) (i : ℕ)
    → passes_before rounds test ≡ true
    → i < rounds
    → test i ≡ true
unfolding passes_before
passes_before_at zero test i passed lt = elim lt [ ]
passes_before_at (suc rounds) test i passed lt = ground (arith, passes_before_at rounds test i)
