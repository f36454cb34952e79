-- ===== src/Registry/Buckets.antt =====
-- src/lib.rs: what the registry stands for: a list of headers for each bucket, the latest first.
use allox.Prelude.{ℕ, ◌+◌, ◌-◌, Bool, true, false, List, [], ◌∷◌, ◌==◌, if◌then◌else◌}
use allox.Registry.{legacy_bucket}

pub record Buckets : Type 0 where
  pub buckets : ℕ → List ℕ
  pub len : ℕ

unfoldable pub new_buckets : Buckets
new_buckets = record { buckets = λ k. []; len = 0 }

unfoldable pub set_bucket : (ℕ → List ℕ) → ℕ → List ℕ → ℕ → List ℕ
set_bucket buckets key chain k = if k == key then chain else buckets k

unfoldable pub add_header : Buckets → ℕ → Buckets
add_header r hdr =
    let bucket = legacy_bucket hdr in
    record { buckets = set_bucket r.buckets bucket (hdr ∷ r.buckets bucket); len = r.len + 1 }

unfoldable pub in_chain : ℕ → List ℕ → Bool
in_chain expected [] = false
in_chain expected (current ∷ rest) =
    let found = in_chain expected rest in if current == expected then true else found

unfoldable pub cut_header : ℕ → List ℕ → List ℕ
cut_header hdr [] = []
cut_header hdr (current ∷ rest) =
    let kept = cut_header hdr rest in if current == hdr then rest else current ∷ kept

unfoldable pub drop_header : Buckets → ℕ → Buckets
drop_header r hdr =
    let bucket = legacy_bucket hdr in
    if in_chain hdr (r.buckets bucket)
    then record {
      buckets = set_bucket r.buckets bucket (cut_header hdr (r.buckets bucket));
      len = r.len - 1;
    }
    else r
