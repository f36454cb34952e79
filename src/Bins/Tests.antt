-- ===== src/Bins/Tests.antt =====
-- src/cache.rs: a bin that was filled with two virgin blocks.
use allox.Prelude.{◌*◌, ◌≡◌, refl, true, some, [], ◌∷◌, length, arith}
use allox.Bins.{alloc_zeroed, alloc_zeroed_hit, refill}
use allox.Bins.Virgin.{BinOk, BinWorld, BinReach, here, next, fill, alloc_zeroed_clean}

abbrev demo_start : BinWorld
demo_start = record {
  cached = record { bin = record { blocks = []; len = 0; virgin = 0 }; cached_bytes = 0 };
  clean = λ p. true;
}

demo_start-BinOk : BinOk demo_start.clean 16 demo_start.cached
demo_start-BinOk = record { len = refl; virgin = omega arith; bytes = refl; bottom = refl }

abbrev demo_filled : BinWorld
demo_filled = record demo_start {
  cached = (refill 16 (demo_start.cached) (64 ∷ 80 ∷ 96 ∷ []) true).0;
}

demo-BinReach : BinReach 16 demo_start demo_filled
demo-BinReach = next here (fill (64 ∷ 80 ∷ 96 ∷ []) true refl (λ e. (refl, (refl, (refl, refl)))))

demo_popped : (alloc_zeroed 16 demo_filled.cached).1 ≡ some (80, true)
unfolding alloc_zeroed alloc_zeroed_hit refill
demo_popped = refl

alloc_zeroed_clean_example :
    (demo_filled.clean 80 ≡ true)
    × (demo_filled.cached.bin.len ≡ length demo_filled.cached.bin.blocks)
    × (demo_filled.cached.cached_bytes ≡ 16 * demo_filled.cached.bin.len)
alloc_zeroed_clean_example = alloc_zeroed_clean 16 80 demo_start-BinOk demo-BinReach demo_popped
