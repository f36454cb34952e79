-- ===== src/Cache/Search.antt =====
-- src/cache.rs: the search of `trim` for the largest bin.
use native.Mathlib.Nat.{mul-pos}
use allox.Prelude.{
  ℕ, suc, ◌+◌, ◌≤◌, ◌<◌, ◌≡◌, ◌⊎◌, inl, inr, refl, sym, ap, ◌∙◌, subst, true, false, ◌&&◌, none,
  some, List, [], ◌∷◌, arith, length, All, ltb, Bool-cases,
}
use allox.Cache.{Bin}
use allox.Cache.Trim.{Best, best_of, best_bin, bin_bytes, bin_at}

-- A bin whose counts are right, of a class with a positive block size.
pub record IsCounted (b : Bin) : Type 0 where
  pub counted : b.len ≡ length b.blocks
  pub virgin : b.virgin ≤ b.len
  pub sized : 1 ≤ b.size

-- The search finds a bin that it may take, or keeps what it had.
abbrev pub FoundAt : ℕ → ℕ → List Bin → Best → Best → Type 0
FoundAt least i bins best found =
    (found ≡ best)
    ⊎ ((k : ℕ) × (found.index ≡ some (i + k))
        × (k < length bins)
        × (least < (bin_at bins k).len)
        × (best.bytes < found.bytes))

best_of-FoundAt :
    (least i : ℕ) (bins : List Bin) (best : Best)
    → FoundAt least i bins best (best_of least i bins best)
unfolding best_of
best_of-FoundAt least i [] best = inl refl
best_of-FoundAt least i (b ∷ bs) best =
    elim (Bool-cases (ltb least b.len && ltb best.bytes (bin_bytes b))) [
      | inl better ↦
          let found : Best = record { index = some i; bytes = bin_bytes b } in
          simp better (elim (best_of-FoundAt least (i + 1) bs found) [
            | inl same_found ↦ inr (
              0,
              ap (λ (r : Best). r.index) same_found ∙ ap some (omega arith),
              omega arith,
              ground arith,
              ground (arith, ap (λ (r : Best). r.bytes) same_found),
            )
            | inr (k, at, lt, long, more) ↦
                inr (suc k, at ∙ ap some (omega arith), omega arith, long, ground (arith, more))
          ])
      | inr worse ↦ simp worse (elim (best_of-FoundAt least (i + 1) bs best) [
        | inl same_found ↦ inl same_found
        | inr (k, at, lt, long, more) ↦
            inr (suc k, at ∙ ap some (omega arith), omega arith, long, more)
      ])
    ]

-- Without a find, every bin of a class with blocks of some size is too short.
best_of-none :
    (least i : ℕ) (bins : List Bin) (best : Best)
    → best.bytes ≡ 0
    → All IsCounted bins
    → (best_of least i bins best).index ≡ none
    → All (λ b. b.len ≤ least) bins
best_of-none least i [] best low oks e = tt
best_of-none least i (b ∷ bs) best low (ok, oks) e =
    elim (Bool-cases (ltb least b.len && ltb best.bytes (bin_bytes b))) [
      | inl better ↦ absurd (not_none better)
      | inr worse ↦ (
        short worse,
        best_of-none least (i + 1) bs best low oks
            (ap (λ (r : Best). r.index) (sym (skips worse)) ∙ e),
      )
    ]
  where
    skips :
        (ltb least b.len && ltb best.bytes (bin_bytes b)) ≡ false
        → best_of least i (b ∷ bs) best ≡ best_of least (i + 1) bs best
    skips worse = unfold best_of in simp worse refl

    short : (ltb least b.len && ltb best.bytes (bin_bytes b)) ≡ false → b.len ≤ least
    short worse = elim (Bool-cases (ltb least b.len)) [
      | inr no_more ↦ ground arith
      | inl longer ↦
          let some_bytes : 1 ≤ bin_bytes b = mul-pos (ground arith) ok.sized in
          absurd (ground arith)
    ]

    not_none : (ltb least b.len && ltb best.bytes (bin_bytes b)) ≡ true → ⊥
    not_none better =
        let found : Best = record { index = some i; bytes = bin_bytes b } in
        let takes : best_of least i (b ∷ bs) best ≡ best_of least (i + 1) bs found =
          unfold best_of in simp better refl in
        let e' : (best_of least (i + 1) bs found).index ≡ none =
          ap (λ (r : Best). r.index) (sym takes) ∙ e in
        elim (best_of-FoundAt least (i + 1) bs found) [
          | inl same_found ↦
              let clash : some i ≡ none = sym (ap (λ (r : Best). r.index) same_found) ∙ e' in cc
          | inr (k, at, lt, long, more) ↦ let clash : some (i + 1 + k) ≡ none = sym at ∙ e' in cc
        ]

-- What a search from nothing gives.
pub best_bin-found :
    (least : ℕ) (bins : List Bin) (j : ℕ)
    → (best_bin least bins).index ≡ some j
    → (j < length bins) × (least < (bin_at bins j).len) × (1 ≤ (best_bin least bins).bytes)
unfolding best_bin
best_bin-found least bins j e =
    let best : Best = record { index = none; bytes = 0 } in
    elim (best_of-FoundAt least 0 bins best) [
      | inl same_found ↦
          let clash : some j ≡ none = sym e ∙ ap (λ (r : Best). r.index) same_found in cc
      | inr (k, at, lt, long, more) ↦
          let here : k ≡ j = ground (arith, sym at ∙ e) in
          (omega arith, subst (λ n. least < (bin_at bins n).len) here long, omega (arith, more))
    ]

pub best_bin-none :
    (least : ℕ) (bins : List Bin)
    → All IsCounted bins
    → (best_bin least bins).index ≡ none
    → All (λ b. b.len ≤ least) bins
unfolding best_bin
best_bin-none least bins oks e =
    best_of-none least 0 bins (record { index = none; bytes = 0 }) refl oks e

pub best_bin-none_bytes :
    (least : ℕ) (bins : List Bin)
    → (best_bin least bins).index ≡ none
    → (best_bin least bins).bytes ≡ 0
unfolding best_bin
best_bin-none_bytes least bins e =
    let best : Best = record { index = none; bytes = 0 } in
    elim (best_of-FoundAt least 0 bins best) [
      | inl same_found ↦ ap (λ (r : Best). r.bytes) same_found
      | inr (k, at, lt, long, more) ↦ let clash : some (0 + k) ≡ none = sym at ∙ e in cc
    ]
