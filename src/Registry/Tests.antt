-- ===== src/Registry/Tests.antt =====
-- src/lib.rs: two headers registered, one of them taken out again.
use allox.Prelude.{◌+◌, ◌≡◌, refl, [], ◌∷◌, List, arith}
use allox.Large.Header.{large_header_size}
use allox.Registry.{legacy_large_contains}
use allox.Registry.History.{
  Event, register, unregister, after, registered, IsNew, legacy_large_contains-registered,
}

abbrev demo_events : List Event
demo_events = unregister 65536 ∷ register 131072 ∷ register 65536 ∷ []

demo_events-IsNew : IsNew demo_events
unfolding IsNew registered
demo_events-IsNew = (omega arith, refl, (omega arith, refl, refl))

legacy_large_contains-registered_example :
    legacy_large_contains (after demo_events) (131072 + large_header_size)
    ≡ registered demo_events 131072
legacy_large_contains-registered_example =
    legacy_large_contains-registered demo_events 131072 demo_events-IsNew refl
