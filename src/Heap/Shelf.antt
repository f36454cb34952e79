-- ===== src/Heap/Shelf.antt =====
-- src/heap.rs: the parked pages of a class: the empty ones, still mapped, and the cold ones.
use allox.Prelude.{
  ℕ, ◌+◌, ◌-◌, ◌*◌, ◌%◌, ◌≤◌, ◌≡◌, ap, ◌∙◌, true, false, Option, none, some, List, ◌∷◌, arith,
  length, All, occurrences, total, same,
}
use allox.Classes.{page_size}
use allox.Heap.{Page, Store, ColdPage, empty_page_cache_per_class, max_cold_page_slots}
use allox.Heap.Blocks.{InPage}

-- A page of the heap that is in no partial list and has no block in use.
pub record Parked (pages : Store) (p : ℕ) : Type 0 where
  pub aligned : p % page_size ≡ 0
  pub unlinked : (pages p).in_partial ≡ false
  pub unused : (pages p).used ≡ 0

-- How often a page is among the cold ones, and among those parked.
abbrev pub colds : ℕ → List ColdPage → ℕ
colds q = total (λ c. same q c.page)

abbrev pub shelved : ℕ → List ℕ → List ColdPage → ℕ
shelved q empty cold = occurrences q empty + colds q cold

abbrev pub AllSome {ℓ κ} : {A : Type ℓ} → (A → Type κ) → Option A → Type κ
AllSome P none = Unit
AllSome P (some x) = P x

module _ (clean : ℕ → Type 0) where
  -- A cold page that a purge has zeroed is clean.
  abbrev pub ColdOk : ColdPage → Type 0
  ColdOk c = c.zeroed ≡ true → (b : ℕ) → InPage c.page b → clean b

  -- The empty and the cold pages are parked, none of them twice, and counted.
  pub record ShelfOk (pages : Store) (empty : List ℕ) (count : ℕ) (cold : List ColdPage) (bytes : ℕ)
      : Type 0 where
    pub parked : (q : ℕ) → 1 ≤ shelved q empty cold → Parked pages q
    pub once : (q : ℕ) → shelved q empty cold ≤ 1
    pub wiped : All ColdOk cold
    pub counted : count ≡ length empty
    pub few : count ≤ empty_page_cache_per_class
    pub bytes_counted : bytes ≡ length cold * page_size
    pub cold_few : length cold ≤ max_cold_page_slots

  -- What changes no header of a parked page.
  pub ShelfOk-others :
      (f g : Store) (empty : List ℕ) (count : ℕ) (cold : List ColdPage) (bytes : ℕ)
      → ((q : ℕ) → 1 ≤ shelved q empty cold → (f q).in_partial ≡ false → g q ≡ f q)
      → ShelfOk f empty count cold bytes
      → ShelfOk g empty count cold bytes
  ShelfOk-others f g empty count cold bytes frame ok = record {
    parked = λ q on.
        let h = ok.parked q on in
        let e = frame q on h.unlinked in
        record {
          aligned = h.aligned;
          unlinked = ap (λ (r : Page). r.in_partial) e ∙ h.unlinked;
          unused = ap (λ (r : Page). r.used) e ∙ h.unused;
        };
    once = ok.once;
    wiped = ok.wiped;
    counted = ok.counted;
    few = ok.few;
    bytes_counted = ok.bytes_counted;
    cold_few = ok.cold_few;
  }

  -- What is left when a page is taken from the empty or from the cold ones.
  module _ (pages : Store) (count bytes : ℕ) (rest : List ℕ) where
    pub pop_empty :
        (p : ℕ) (cold : List ColdPage)
        → ShelfOk pages (p ∷ rest) count cold bytes
        → Parked pages p × (shelved p rest cold ≡ 0) × ShelfOk pages rest (count - 1) cold bytes
    pop_empty p cold ok = (
      ok.parked p (ground arith),
      ground (arith, ok.once p),
      record {
        parked = λ q on. ok.parked q (ground arith);
        once = λ q. ground (arith, ok.once q);
        wiped = ok.wiped;
        counted = omega (arith, ok.counted);
        few = omega (arith, ok.few);
        bytes_counted = ok.bytes_counted;
        cold_few = ok.cold_few;
      },
    )

    pub pop_cold :
        (c : ColdPage) (cold : List ColdPage)
        → ShelfOk pages rest count (c ∷ cold) bytes
        → Parked pages c.page
          × (shelved c.page rest cold ≡ 0)
          × ShelfOk pages rest count cold (bytes - page_size)
    pop_cold c cold ok = (
      ok.parked c.page (ground arith),
      ground (arith, ok.once c.page),
      record {
        parked = λ q on. ok.parked q (ground arith);
        once = λ q. ground (arith, ok.once q);
        wiped = ok.wiped.1;
        counted = ok.counted;
        few = ok.few;
        bytes_counted = omega (arith, ok.bytes_counted);
        cold_few = omega (arith, ok.cold_few);
      },
    )
