-- ===== src/Cache/Halve.antt =====
-- src/cache.rs: what halving one of a tier's bins, or emptying an active span, does to the counts of
-- the cache.
use allox.Prelude.{
  ℕ, zero, suc, ◌+◌, ◌-◌, ◌/◌, ◌≤◌, ◌<◌, ◌≡◌, refl, sym, ap, ◌∙◌, subst, List, [], ◌∷◌, arith,
  length, All, total, set, get_or, total-set, get_or-le-total,
}
use allox.Cache.{Tier, small, medium, big, Bin, Binned, flush_tier}
use allox.Cache.Groups.{given_weight}
use allox.Cache.Trim.{empty_bin, bin_bytes, bin_at}
use allox.Cache.Flush.{BinOk, ReleaseOk, flush_tier-Flushed, tier_bytes}
use allox.Cache.Search.{IsCounted}

pub All-get_or {ℓ} :
    {A : Type ℓ} (P : A → Type 0) (xs : List A) (i : ℕ) (d : A)
    → i < length xs
    → All P xs
    → P (get_or xs i d)
All-get_or P [] i d lt h = elim lt [ ]
All-get_or P (x ∷ xs) zero d lt (here, rest) = here
All-get_or P (x ∷ xs) (suc i) d lt (here, rest) = All-get_or P xs i d (omega arith) rest

pub All-set {ℓ} :
    {A : Type ℓ} (P : A → Type 0) (xs : List A) (i : ℕ) (v : A)
    → All P xs
    → P v
    → All P (set xs i v)
All-set P [] i v h p = tt
All-set P (x ∷ xs) zero v (here, rest) p = (p, rest)
All-set P (x ∷ xs) (suc i) v (here, rest) p = (here, All-set P xs i v rest p)

abbrev pub lens : List Bin → ℕ
lens = total (λ b. b.len)

abbrev pub bytes : List Bin → ℕ
bytes = total bin_bytes

abbrev pub contents : (ℕ → ℕ) → List Bin → ℕ
contents f = total (λ b. total f b.blocks)

-- Bins of a tier before and after, with the counts of the cache and the log.
pub record Halved (owner : Tier → ℕ → ℕ) (tier : Tier) (xs ys : List Bin) (c d : Binned)
    : Type 0 where
  pub counted : All IsCounted ys
  pub fewer : lens ys < lens xs
  pub cached : d.cached_bytes + bytes xs ≡ c.cached_bytes + bytes ys
  pub tiered :
      d.tier_cached_bytes + tier_bytes tier (bytes xs)
      ≡ c.tier_cached_bytes + tier_bytes tier (bytes ys)
  pub all_there :
      (f : ℕ → ℕ) → contents f ys + given_weight f d.given ≡ contents f xs + given_weight f c.given
  pub given : All (ReleaseOk owner) d.given

tier_bytes_add :
    (tier : Tier) (m n : ℕ) → tier_bytes tier (m + n) ≡ tier_bytes tier m + tier_bytes tier n
tier_bytes_add small m n = refl
tier_bytes_add medium m n = refl
tier_bytes_add big m n = refl

module _ (owner : Tier → ℕ → ℕ) (tier : Tier) (xs : List Bin) (i : ℕ) (c : Binned)
    (at : c.bin ≡ bin_at xs i) (lt : i < length xs) (oks : All IsCounted xs)
    (some_blocks : 1 ≤ c.bin.len) (enough : bytes xs ≤ c.cached_bytes)
    (tier_enough : tier_bytes tier (bytes xs) ≤ c.tier_cached_bytes)
    (grouped : All (ReleaseOk owner) c.given) where
  abbrev flushed : Binned
  flushed = flush_tier tier (owner tier) i (c.bin.len / 2) c

  counted : IsCounted c.bin
  counted = subst IsCounted (sym at) (All-get_or IsCounted xs i (empty_bin 0) lt oks)

  bytes_in : bin_bytes c.bin ≤ bytes xs
  bytes_in =
      subst (λ b. bin_bytes b ≤ bytes xs) (sym at) (get_or-le-total bin_bytes xs i (empty_bin 0) lt)

  abbrev rest : ℕ
  rest = c.cached_bytes - bin_bytes c.bin

  abbrev tier_rest : ℕ
  tier_rest = c.tier_cached_bytes - tier_bytes tier (bin_bytes c.bin)

  tier_in : tier_bytes tier (bin_bytes c.bin) ≤ c.tier_cached_bytes
  tier_in = by_tier tier tier_enough
    where
      by_tier :
          (t : Tier)
          → tier_bytes t (bytes xs) ≤ c.tier_cached_bytes
          → tier_bytes t (bin_bytes c.bin) ≤ c.tier_cached_bytes
      by_tier small h = h
      by_tier medium h = omega (arith, bytes_in)
      by_tier big h = omega (arith, bytes_in)

  bin_ok : BinOk owner tier rest tier_rest c
  bin_ok = record {
    counted = counted.counted;
    virgin = counted.virgin;
    bytes = omega (arith, bytes_in);
    tier_counted = omega (arith, tier_in);
    grouped = grouped;
  }

  pub flush_tier-Halved : Halved owner tier xs (set xs i flushed.bin) c flushed
  flush_tier-Halved =
      let done =
        flush_tier-Flushed owner tier rest tier_rest i (c.bin.len / 2) c bin_ok (omega arith) in
      let changed : (f : Bin → ℕ)
          → total f (set xs i flushed.bin) + f c.bin ≡ total f xs + f flushed.bin =
        λ f.
          subst (λ b. total f (set xs i flushed.bin) + f b ≡ total f xs + f flushed.bin) (sym at)
            (total-set f xs i flushed.bin (empty_bin 0) lt) in
      record {
        counted = All-set IsCounted xs i flushed.bin oks (record {
          counted = done.ok.counted;
          virgin = done.ok.virgin;
          sized = subst (λ n. 1 ≤ n) (sym done.size) counted.sized;
        });
        fewer = omega (arith, changed (λ b. b.len), done.len, some_blocks);
        cached = omega (arith, changed bin_bytes, done.ok.bytes, bytes_in, enough);
        tiered = omega (
          arith,
          sym (tier_bytes_add tier (bytes (set xs i flushed.bin)) (bin_bytes c.bin))
              ∙ ap (tier_bytes tier) (changed bin_bytes)
              ∙ tier_bytes_add tier (bytes xs) (bin_bytes flushed.bin),
          done.ok.tier_counted,
          tier_in,
        );
        all_there = λ f. omega (arith, changed (λ b. total f b.blocks), done.all_there f);
        given = done.ok.grouped;
      }
