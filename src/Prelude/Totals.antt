-- ===== src/Prelude/Totals.antt =====
-- A sum over the entries of a list, for byte counts and for counting what covers an address, and
-- how it moves under the array updates of the caches: push, overwrite, swap-remove.
use mathlib.Core.List.{Perm, Permᴰ}
use mathlib.Core.Logic.{∥∥₁_elim}
use native.Mathlib.Nat.{ℕ_set}
use Prim.Native.Nat.{ℕ, zero, suc, ◌+◌, ◌-◌, ◌≤◌, ◌<◌}
use mathlib.Core.Path.{◌≡◌, refl, ap, ◌∙◌}
use mathlib.Core.List.{List, [], ◌∷◌, ◌++◌}
use mathlib.Core.Logic.{◌≢◌}
use native.Mathlib.Omega.{arith}
use native.Mathlib.Decide.{ℕ_discrete}
use allox.Prelude.Tests.{◌==◌, if◌then◌else◌}
use allox.Prelude.Lists.{
  length, set, take, get_or, length-set, length-take, get_or-set_self, get_or-set_ne, get_or-take,
}

module _ {ℓ} {A : Type ℓ} where
  abbrev pub total : (A → ℕ) → List A → ℕ
  total f [] = 0
  total f (x ∷ xs) = f x + total f xs

  pub total-append : (f : A → ℕ) (xs ys : List A) → total f (xs ++ ys) ≡ total f xs + total f ys
  total-append f [] ys = omega arith
  total-append f (x ∷ xs) ys = omega (arith, total-append f xs ys)

  pub total-set :
      (f : A → ℕ) (xs : List A) (i : ℕ) (v d : A)
      → i < length xs
      → total f (set xs i v) + f (get_or xs i d) ≡ total f xs + f v
  total-set f [] i v d h = elim h [ ]
  total-set f (x ∷ xs) zero v d h = omega arith
  total-set f (x ∷ xs) (suc i) v d h = omega (arith, total-set f xs i v d (omega arith))

  pub total-take_init :
      (f : A → ℕ) (n : ℕ) (xs : List A) (d : A)
      → length xs ≡ suc n
      → total f (take n xs) + f (get_or xs n d) ≡ total f xs
  total-take_init f zero (x ∷ []) d h = omega arith
  total-take_init f (suc n) (x ∷ xs) d h = omega (arith, total-take_init f n xs d (omega arith))
  total-take_init f zero (x ∷ y ∷ xs) d h = absurd (omega arith)
  total-take_init f n [] d h = absurd (omega arith)

  pub get_or-le-total :
      (f : A → ℕ) (xs : List A) (i : ℕ) (d : A) → i < length xs → f (get_or xs i d) ≤ total f xs
  get_or-le-total f [] i d h = elim h [ ]
  get_or-le-total f (x ∷ xs) zero d h = omega arith
  get_or-le-total f (x ∷ xs) (suc i) d h = omega (arith, get_or-le-total f xs i d (omega arith))

  -- `entries[i] = entries[last]; len = last`.
  abbrev pub swap_remove : List A → ℕ → A → List A
  swap_remove xs i d = take (length xs - 1) (set xs i (get_or xs (length xs - 1) d))

  pub length-swap_remove :
      (xs : List A) (i : ℕ) (d : A) → length (swap_remove xs i d) ≡ length xs - 1
  length-swap_remove xs i d = omega (
    arith,
    length-take (length xs - 1) (set xs i (get_or xs (length xs - 1) d)),
    length-set xs i (get_or xs (length xs - 1) d),
  )

  -- Writing the last entry over entry `i` leaves the last entry as it was.
  get_or-set_last :
      (xs : List A) (i k : ℕ) (d : A)
      → k < length xs
      → get_or (set xs i (get_or xs k d)) k d ≡ get_or xs k d
  get_or-set_last xs i k d h = elim (ℕ_discrete i k) [
    | yes e ↦ rw (← e) (get_or-set_self xs i (get_or xs i d) d (omega arith))
    | no e ↦ get_or-set_ne xs i k (get_or xs k d) d e
  ]

  pub total-swap_remove :
      (f : A → ℕ) (xs : List A) (i : ℕ) (d : A)
      → i < length xs
      → total f (swap_remove xs i d) + f (get_or xs i d) ≡ total f xs
  total-swap_remove f xs i d h =
      let k = length xs - 1 in
      let v = get_or xs k d in
      omega (
        arith,
        total-take_init f k (set xs i v) d (omega (arith, length-set xs i v)),
        ap f (get_or-set_last xs i k d (omega arith)),
        total-set f xs i v d h,
      )

  pub get_or-swap_remove :
      (xs : List A) (i j : ℕ) (d : A)
      → j < length xs - 1
      → get_or (swap_remove xs i d) j d
        ≡ (if i == j then get_or xs (length xs - 1) d else get_or xs j d)
  get_or-swap_remove xs i j d h =
      let k = length xs - 1 in
      let v = get_or xs k d in
      elim (ℕ_discrete i j) [
        | yes e ↦ ground (arith, get_or-take k (set xs i v) j d, get_or-set_self xs i v d)
        | no e ↦ ground (arith, get_or-take k (set xs i v) j d, get_or-set_ne xs i j v d)
      ]

  -- Two different entries of a list.
  pub pair-le-total :
      (f : A → ℕ) (xs : List A) (i j : ℕ) (d : A)
      → i < length xs
      → j < length xs
      → i ≢ j
      → f (get_or xs i d) + f (get_or xs j d) ≤ total f xs
  pair-le-total f [] i j d h k ne = elim h [ ]
  pair-le-total f (x ∷ xs) zero zero d h k ne = absurd (ne refl)
  pair-le-total f (x ∷ xs) zero (suc j) d h k ne =
      omega (arith, get_or-le-total f xs j d (omega arith))
  pair-le-total f (x ∷ xs) (suc i) zero d h k ne =
      omega (arith, get_or-le-total f xs i d (omega arith))
  pair-le-total f (x ∷ xs) (suc i) (suc j) d h k ne =
      omega (arith, pair-le-total f xs i j d (omega arith) (omega arith) (λ e. ne (ap suc e)))

  -- The list without entry `i`, the others in their order.
  abbrev pub remove_at : List A → ℕ → List A
  remove_at [] i = []
  remove_at (x ∷ xs) zero = xs
  remove_at (x ∷ xs) (suc i) = x ∷ remove_at xs i

  pub total-remove_at :
      (f : A → ℕ) (xs : List A) (i : ℕ) (d : A)
      → i < length xs
      → total f (remove_at xs i) + f (get_or xs i d) ≡ total f xs
  total-remove_at f [] i d h = elim h [ ]
  total-remove_at f (x ∷ xs) zero d h = omega arith
  total-remove_at f (x ∷ xs) (suc i) d h = omega (arith, total-remove_at f xs i d (omega arith))

  pub length-remove_at :
      (xs : List A) (i : ℕ) → i < length xs → length (remove_at xs i) + 1 ≡ length xs
  length-remove_at [] i h = elim h [ ]
  length-remove_at (x ∷ xs) zero h = omega arith
  length-remove_at (x ∷ xs) (suc i) h = omega (arith, length-remove_at xs i (omega arith))

  -- What holds of all entries of a list holds of all that are left.
  pub remove_at-all {κ} :
      (P : A → Type κ) (xs : List A) (i : ℕ) (d : A)
      → ((j : ℕ) → j < length xs → P (get_or xs j d))
      → (j : ℕ) → j < length (remove_at xs i)
      → P (get_or (remove_at xs i) j d)
  remove_at-all P [] i d h j lt = elim lt [ ]
  remove_at-all P (x ∷ xs) zero d h j lt = h (suc j) (omega arith)
  remove_at-all P (x ∷ xs) (suc i) d h zero lt = h zero (omega arith)
  remove_at-all P (x ∷ xs) (suc i) d h (suc j) lt =
      remove_at-all P xs i d (λ k lt'. h (suc k) (omega arith)) j (omega arith)

-- 1 for the entry `x`, so that a total counts how often `x` stands in a list.
abbrev pub same : ℕ → ℕ → ℕ
same x y = if y == x then 1 else 0

abbrev pub occurrences : ℕ → List ℕ → ℕ
occurrences x = total (same x)

-- A sum does not depend on the order.
total-Permᴰ {ℓ} : {A : Type ℓ} (f : A → ℕ) {xs ys : List A} → Permᴰ xs ys → total f xs ≡ total f ys
total-Permᴰ f Permᴰ.nil = refl
total-Permᴰ f (Permᴰ.cons e p) = omega (arith, ap f e, total-Permᴰ f p)
total-Permᴰ f (Permᴰ.swap e e') = omega (arith, ap f e, ap f e')
total-Permᴰ f (Permᴰ.trans p q) = total-Permᴰ f p ∙ total-Permᴰ f q

pub total-Perm {ℓ} :
    {A : Type ℓ} (f : A → ℕ) {xs ys : List A} → Perm xs ys → total f xs ≡ total f ys
total-Perm f p = ∥∥₁_elim p (ℕ_set _ _) (total-Permᴰ f)
