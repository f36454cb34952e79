-- ===== src/Registry.antt =====
-- src/lib.rs: the registry of large regions outside the arena: the heads of the buckets, and the
-- `registry_next` of the header at each address, which chains the headers of a bucket. The lock makes
-- each operation one step. A walk has as many rounds as headers are counted.
pub mod Buckets
pub mod Links
pub mod Mirrors
pub mod Represents
pub mod History
mod Tests
use allox.Prelude.{
  ℕ, zero, suc, ◌+◌, ◌-◌, ◌*◌, ◌/◌, ◌%◌, ◌^◌, Bool, true, false, Option, none, some, ◌==◌,
  if◌then◌else◌, checked_sub,
}
use allox.Classes.{min_align}
use allox.Large.Header.{large_header_size}

abbrev pub large_registry_buckets : ℕ
large_registry_buckets = 4096

pub record Registry : Type 0 where
  pub heads : ℕ → ℕ
  pub next : ℕ → ℕ
  pub len : ℕ

unfoldable pub new_registry : Registry
new_registry = record { heads = λ k. 0; next = λ hdr. 0; len = 0 }

-- `wrapping_mul`, then the top 12 bits.
unfoldable pub legacy_bucket : ℕ → ℕ
legacy_bucket hdr = hdr * 0x9E3779B97F4A7C15 % 2 ^ 64 / 2 ^ 52 % large_registry_buckets

abbrev pub set_at : (ℕ → ℕ) → ℕ → ℕ → ℕ → ℕ
set_at f key value k = if k == key then value else f k

unfoldable pub register_legacy_large : Registry → ℕ → Registry
register_legacy_large r hdr =
    let bucket = legacy_bucket hdr in
    record {
      heads = set_at r.heads bucket hdr;
      next = set_at r.next hdr (r.heads bucket);
      len = r.len + 1;
    }

-- The walk of `legacy_large_contains`.
unfoldable pub find_header : ℕ → (ℕ → ℕ) → ℕ → ℕ → Bool
find_header zero next expected current = false
find_header (suc rounds) next expected current =
    let found = find_header rounds next expected (next current) in
    if current == 0 then false else if current == expected then true else found

-- The head of the bucket, or the header before it, is bent past `current`.
unfoldable pub bend_past : Registry → ℕ → ℕ → ℕ → Registry
bend_past r bucket previous current =
    let next = r.next current in
    if previous == 0
    then record r { heads = set_at r.heads bucket next; len = r.len - 1 }
    else record r { next = set_at r.next previous next; len = r.len - 1 }

-- The walk of `unregister_legacy_large`.
unfoldable pub unlink_header : ℕ → Registry → ℕ → ℕ → ℕ → ℕ → Registry
unlink_header zero r bucket hdr previous current = r
unlink_header (suc rounds) r bucket hdr previous current =
    let later = unlink_header rounds r bucket hdr current (r.next current) in
    if current == 0
    then r
    else if current == hdr
    then bend_past r bucket previous current
    else later

unfoldable pub unregister_legacy_large : Registry → ℕ → Registry
unregister_legacy_large r hdr =
    let bucket = legacy_bucket hdr in unlink_header r.len r bucket hdr 0 (r.heads bucket)

unfoldable pub contains_header : Registry → Option ℕ → Bool
contains_header r none = false
contains_header r (some address) =
    if address % min_align == 0
    then find_header r.len r.next address (r.heads (legacy_bucket address))
    else false

unfoldable pub legacy_large_contains : Registry → ℕ → Bool
legacy_large_contains r p =
    if r.len == 0 then false else contains_header r (checked_sub p large_header_size)
