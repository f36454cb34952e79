-- ===== src/Pages/Tests.antt =====
-- src/page.rs: a small page and spans in an empty memory.
use allox.Prelude.{◌≤◌, ◌≡◌, refl, true, [], ◌∷◌, arith, get_or, ◌==◌, if◌then◌else◌}
use allox.Classes.{classes, medium_classes}
use allox.Classes.Medium.{medium_classes_first, max_medium_block_value}
use allox.Classes.Big.{big_classes_first}
use allox.Classes.BigTables.{big_classes, medium_capacity_for}
use allox.Pages.{Memory, Heads, page_init, provision, span_init, big_init}
use allox.Pages.Chain.{PopOutcome, pop_block-Chain}
use allox.Pages.Carve.{Packed, span_init-Packed, big_init-Packed}
use allox.Pages.Provision.{Extended, provision-Extended}

abbrev demo_memory : Memory
demo_memory address = if address == 4096 then 8192 else 0

abbrev demo_heads : Heads
demo_heads = record { memory = demo_memory; head = 4096 }

pop_block-Chain_example : PopOutcome demo_heads (4096 ∷ 8192 ∷ [])
pop_block-Chain_example =
    pop_block-Chain demo_heads (4096 ∷ 8192 ∷ []) (refl, omega arith, (refl, omega arith, refl))

first_medium : 1 ≤ get_or medium_classes 0 0
first_medium = omega (arith, medium_classes_first)

first_big : 1 ≤ get_or big_classes 0 0
first_big = omega (arith, big_classes_first, max_medium_block_value)

span_init-Packed_example :
    (Packed (get_or medium_classes 0 0) 131072 3 (span_init demo_memory 131072 0 3 true))
    × ((span_init demo_memory 131072 0 3 true).1.free_count
        ≡ medium_capacity_for (get_or medium_classes 0 0) 3)
span_init-Packed_example = span_init-Packed demo_memory 131072 0 3 (omega arith) first_medium

big_init-Packed_example : Packed (get_or big_classes 0 0) 131072 9 (big_init demo_memory 131072 0 9)
big_init-Packed_example = big_init-Packed demo_memory 131072 0 9 (omega arith) first_big

first_small : 16 ≤ get_or classes 0 0
unfolding classes
first_small = omega arith

provision-Extended_example :
    Extended 131072 (page_init 0) 32 [] (provision demo_memory 131072 (page_init 0) 32)
unfolding page_init
provision-Extended_example =
    provision-Extended demo_memory 131072 (page_init 0) 32 [] first_small (omega arith) refl refl
