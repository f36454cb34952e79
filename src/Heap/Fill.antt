-- ===== src/Heap/Fill.antt =====
-- src/heap.rs: the inner loop of `fill_from_list`, which empties one page into the chain.
use allox.Prelude.{
  ℕ, zero, suc, ◌+◌, ◌-◌, ◌*◌, ◌≤◌, ◌<◌, ◌≡◌, ◌≢◌, ◌⊎◌, inl, inr, refl, ap, ◌∙◌, subst, Bool, true,
  false, ◌&&◌, List, [], ◌∷◌, arith, length, All, occurrences, total, ◌%◌, ltb, leb, ◌==◌,
  if◌then◌else◌, Bool-cases,
}
use allox.Classes.{page_size}
use allox.Pages.{header_size}
use allox.Heap.{
  Page, put, Filling, page_capacity, refill_batch, provision_page, unlink_page, fill_pop,
  fill_round, fill_page, page_rounds, add16, sub16,
}
use allox.Heap.Blocks.{
  InPage, PageOk, grid, provision_page-PageOk, provision_page-blocks, page_capacity_few,
  length-laid, HasSpare,
}

-- What the state of a refill keeps for any page: how many blocks there are, and that those of a
-- batch that is called virgin are clean.
pub record ChainOk (clean : ℕ → Type 0) (s : Filling) : Type 0 where
  pub batch : s.count ≤ refill_batch
  pub counted : length s.chain ≡ s.count
  pub cleaned : s.virgin ≡ true → All clean s.chain

-- How many blocks of a list lie in the page at `q`.
abbrev pub in_page : ℕ → ℕ → ℕ
in_page q b = if leb (q + header_size) b && ltb b (q + page_size) then 1 else 0

abbrev pub held : ℕ → List ℕ → ℕ
held q = total (in_page q)

pub in_page_once : (p b : ℕ) → InPage p b → in_page p b ≡ 1
in_page_once p b i = ground arith

pub in_page_elsewhere :
    (p q b : ℕ) → p % page_size ≡ 0 → q % page_size ≡ 0 → q ≢ p → InPage p b → in_page q b ≡ 0
in_page_elsewhere p q b at_p at_q ne i = ground arith

module _ (size : ℕ) (sized : 16 ≤ size) (clean : ℕ → Type 0) (p : ℕ) (aligned : p % page_size ≡ 0)
    (ps : List ℕ) where
  -- In the loop the page is the first of the list.
  pub record InLoop (s : Filling) : Type 0 where
    pub first : s.head ≡ p ∷ ps
    pub linked : (s.pages p).in_partial ≡ true
    pub page : PageOk size sized p (s.pages p)
    pub chain : ChainOk clean s
    pub wiped : s.virgin ≡ true → (b : ℕ) → InPage p b → clean b

  -- Behind it, the batch is full and the page still there, or the page has left the list, with
  -- nothing left in it.
  pub record Left (s : Filling) : Type 0 where
    pub page : PageOk size sized p (s.pages p)
    pub chain : ChainOk clean s
    pub outcome :
        ((s.head ≡ p ∷ ps) × ((s.pages p).in_partial ≡ true) × (s.count ≡ refill_batch))
        ⊎ ((s.head ≡ ps) × ((s.pages p).in_partial ≡ false))

  -- What happened between two states: other pages are as before, blocks only move from the page to
  -- the chain, and they are added only where the page had not yet laid out any.
  pub record Since (s t : Filling) : Type 0 where
    pub others : (q : ℕ) → q ≢ p → t.pages q ≡ s.pages q
    pub flag : t.virgin ≡ s.virgin
    pub keeps : (t.pages p).virgin ≡ (s.pages p).virgin
    pub used : held p t.chain + (s.pages p).used ≡ held p s.chain + (t.pages p).used
    pub elsewhere : (q : ℕ) → q % page_size ≡ 0 → q ≢ p → held q t.chain ≡ held q s.chain
    pub more : s.count ≤ t.count
    pub blocks :
        (x : ℕ)
        → occurrences x (t.pages p).free
            + occurrences x t.chain
            + occurrences x (grid size sized p ((s.pages p).used + (s.pages p).free_count))
          ≡ occurrences x (s.pages p).free
            + occurrences x s.chain
            + occurrences x (grid size sized p ((t.pages p).used + (t.pages p).free_count))

  pub Since-refl : (s : Filling) → Since s s
  Since-refl s = record {
    others = λ q ne. refl;
    flag = refl;
    keeps = refl;
    used = refl;
    elsewhere = λ q at ne. refl;
    more = omega arith;
    blocks = λ x. refl;
  }

  pub Since-trans : (s t u : Filling) → Since s t → Since t u → Since s u
  Since-trans s t u a b = record {
    others = λ q ne. b.others q ne ∙ a.others q ne;
    flag = b.flag ∙ a.flag;
    keeps = b.keeps ∙ a.keeps;
    used = omega (arith, a.used, b.used);
    elsewhere = λ q at ne. b.elsewhere q at ne ∙ a.elsewhere q at ne;
    more = omega (arith, a.more, b.more);
    blocks = λ x. omega (arith, a.blocks x, b.blocks x);
  }

  -- The rounds that a state can still take.
  abbrev pub rounds_left : Filling → ℕ
  rounds_left s = 2 * (refill_batch - s.count) + (if length (s.pages p).free == 0 then 1 else 0)

  abbrev pub RoundOk : Filling → Filling × Bool → Type 0
  RoundOk s (t, true) = InLoop t × Since s t × (rounds_left t < rounds_left s)
  RoundOk s (t, false) = Left t × Since s t

  unlink_page-Left :
      (s : Filling) → InLoop s → Left (unlink_page s p).0 × Since s (unlink_page s p).0
  unfolding unlink_page
  unlink_page-Left s l = rw l.linked (
    record {
      page = ground arith;
      chain = record {
        batch = l.chain.batch;
        counted = l.chain.counted;
        cleaned = l.chain.cleaned;
      };
      outcome = inr (ground (arith, l.first), ground arith);
    },
    record {
      others = λ q ne. ground arith;
      flag = refl;
      keeps = ground arith;
      used = ground arith;
      elsewhere = λ q at ne. refl;
      more = omega arith;
      blocks = λ x. ground arith;
    },
  )

  -- The state in which the block `b` has been moved.
  abbrev moved : Filling → ℕ → List ℕ → Filling
  moved s b rest = record s {
    pages = put s.pages p (record (s.pages p) {
      free = rest;
      free_count = sub16 (s.pages p).free_count 1;
      used = add16 (s.pages p).used 1;
    });
    chain = b ∷ s.chain;
    count = s.count + 1;
  }

  module _ (s : Filling) (l : InLoop s) (few : s.count < refill_batch) where
    module _ (b : ℕ) (rest : List ℕ) (e : (s.pages p).free ≡ b ∷ rest) where
      free_count_less : sub16 (s.pages p).free_count 1 ≡ length rest
      free_count_less =
          omega (
            arith,
            l.page.counted,
            l.page.room,
            page_capacity_few size sized,
            ap (length {A = ℕ}) e,
          )

      used_more : add16 (s.pages p).used 1 ≡ (s.pages p).used + 1
      used_more =
          omega (
            arith,
            l.page.counted,
            l.page.room,
            page_capacity_few size sized,
            ap (length {A = ℕ}) e,
          )

      same_places :
          add16 (s.pages p).used 1 + sub16 (s.pages p).free_count 1
          ≡ (s.pages p).used + (s.pages p).free_count
      same_places = omega (arith, free_count_less, used_more, l.page.counted, ap (length {A = ℕ}) e)

      free_inside : All (InPage p) (b ∷ rest)
      free_inside = subst (All (InPage p)) e l.page.inside

      moved-page : PageOk size sized p ((moved s b rest).pages p)
      moved-page = record {
        counted = ground (arith, free_count_less);
        room = ground (arith, same_places, l.page.room);
        inside = ground (arith, free_inside);
      }

      moved-InLoop : InLoop (moved s b rest)
      moved-InLoop = record {
        first = l.first;
        linked = ground (arith, l.linked);
        page = moved-page;
        chain = record {
          batch = omega (arith, few);
          counted = omega (arith, l.chain.counted);
          cleaned = λ v. (l.wiped v b free_inside.0, l.chain.cleaned v);
        };
        wiped = l.wiped;
      }

      moved-Since : Since s (moved s b rest)
      moved-Since = record {
        others = λ q ne. ground arith;
        flag = refl;
        keeps = ground arith;
        used = ground (arith, used_more, in_page_once p b free_inside.0);
        elsewhere = λ q at ne. omega (arith, in_page_elsewhere p q b aligned at ne free_inside.0);
        more = omega arith;
        blocks = λ x. ground (
          arith,
          ap (occurrences x) e,
          ap (λ n. occurrences x (grid size sized p n)) same_places,
        );
      }

      moved-fewer : rounds_left (moved s b rest) < rounds_left s
      moved-fewer = ground (arith, few, ap (length {A = ℕ}) e)

      fill_pop-some : RoundOk s (fill_pop size p s (b ∷ rest))
      unfolding fill_pop
      fill_pop-some =
          let t = moved s b rest in
          let left = t.pages p in
          elim (Bool-cases (
            sub16 (s.pages p).free_count 1 == 0
            && leb (page_capacity size)
                (add16 (s.pages p).used 1 + sub16 (s.pages p).free_count 1))) [
                  | inr more ↦ rw more (moved-InLoop, moved-Since, moved-fewer)
                  | inl done ↦ rw done (
                      let (gone, since) = unlink_page-Left t moved-InLoop in
                      (gone, Since-trans s t (unlink_page t p).0 moved-Since since))
                ]

    module _ (e : (s.pages p).free ≡ []) where
      abbrev made : Page × ℕ
      made = provision_page size p (s.pages p) (refill_batch - s.count)

      abbrev provisioned : Filling
      provisioned = record s { pages = put s.pages p made.0 }

      provisioned-InLoop : InLoop provisioned
      provisioned-InLoop = record {
        first = l.first;
        linked = unfold provision_page in ground (arith, l.linked);
        page =
            subst (PageOk size sized p) (ground arith)
              (provision_page-PageOk size sized p (s.pages p) (refill_batch - s.count) l.page);
        chain = record {
          batch = l.chain.batch;
          counted = l.chain.counted;
          cleaned = l.chain.cleaned;
        };
        wiped = l.wiped;
      }

      provisioned-Since : Since s provisioned
      provisioned-Since = record {
        others = λ q ne. ground arith;
        flag = refl;
        keeps = unfold provision_page in ground arith;
        used = unfold provision_page in ground arith;
        elsewhere = λ q at ne. refl;
        more = omega arith;
        blocks = λ x. ground (
          arith,
          provision_page-blocks size sized x p (s.pages p) (refill_batch - s.count) l.page,
        );
      }

      -- What is laid out lengthens the free list.
      provisioned-free : length made.0.free ≡ made.1
      unfolding provision_page
      provisioned-free = omega (arith, length-laid _ _ _ (s.pages p).free, ap (length {A = ℕ}) e)

      fill_pop-none : RoundOk s (fill_pop size p s [])
      unfolding fill_pop
      fill_pop-none =
          elim (Bool-cases (ltb ((s.pages p).used + (s.pages p).free_count) (page_capacity size))) [
            | inr full ↦ rw full (unlink_page-Left s l)
            | inl spare ↦ rw spare (elim (Bool-cases (made.1 == 0)) [
              | inl none_got ↦ rw none_got (unlink_page-Left s l)
              | inr got ↦ rw got (
                provisioned-InLoop,
                provisioned-Since,
                ground (arith, ap (length {A = ℕ}) e, provisioned-free),
              )
            ])
          ]

  fill_round-RoundOk : (s : Filling) → InLoop s → RoundOk s (fill_round size p s)
  unfolding fill_round
  fill_round-RoundOk s l = elim (Bool-cases (leb refill_batch s.count)) [
    | inl full ↦ rw full (
      record {
        page = l.page;
        chain = l.chain;
        outcome = inl (l.first, l.linked, ground (arith, l.chain.batch));
      },
      Since-refl s,
    )
    | inr few ↦ rw few (by_free (ground arith) (s.pages p).free refl)
  ]
    where
      by_free :
          s.count < refill_batch
          → (fs : List ℕ) → (s.pages p).free ≡ fs
          → RoundOk s (fill_pop size p s fs)
      by_free lt [] e = fill_pop-none s l lt e
      by_free lt (b ∷ rest) e = fill_pop-some s l lt b rest e

  -- The rounds after the first.
  abbrev continued : ℕ → Filling × Bool → Filling
  continued fuel (t, true) = fill_page fuel size p t
  continued fuel (t, false) = t

  fill_page-continued :
      (fuel : ℕ) (s : Filling)
      → fill_page (suc fuel) size p s ≡ continued fuel (fill_round size p s)
  unfolding fill_page
  fill_page-continued fuel s = refl

  continued-Left :
      (fuel : ℕ) (s : Filling)
      → ((t : Filling)
          → rounds_left t < fuel
          → InLoop t
          → Left (fill_page fuel size p t) × Since t (fill_page fuel size p t))
      → rounds_left s < suc fuel
      → (r : Filling × Bool) → RoundOk s r
      → Left (continued fuel r) × Since s (continued fuel r)
  continued-Left fuel s later lt (t, false) ok = ok
  continued-Left fuel s later lt (t, true) (in_loop, since, less) =
      let (left, rest) = later t (omega arith) in_loop in
      (left, Since-trans s t (fill_page fuel size p t) since rest)

  -- With fuel for the rounds left, the loop ends by its own tests.
  pub fill_page-Left :
      (fuel : ℕ) (s : Filling)
      → rounds_left s < fuel
      → InLoop s
      → Left (fill_page fuel size p s) × Since s (fill_page fuel size p s)
  fill_page-Left zero s lt l = absurd (omega arith)
  fill_page-Left (suc fuel) s lt l = rw (fill_page-continued fuel s) (
      continued-Left fuel s (fill_page-Left fuel) lt (fill_round size p s) (fill_round-RoundOk s l))

  -- Going on loses no block.
  continued-more :
      (fuel : ℕ) (s : Filling) (r : Filling × Bool)
      → rounds_left s < suc fuel
      → RoundOk s r
      → r.0.count ≤ (continued fuel r).count
  continued-more fuel s (t, false) lt ok = omega arith
  continued-more fuel s (t, true) lt (in_loop, since, less) =
      (fill_page-Left fuel t (omega arith) in_loop).1.more

  fill_round-pop :
      (s : Filling) (fs : List ℕ)
      → s.count < refill_batch
      → (s.pages p).free ≡ fs
      → fill_round size p s ≡ fill_pop size p s fs
  unfolding fill_round
  fill_round-pop s fs few e =
      let room : leb refill_batch s.count ≡ false = ground arith in
      rw room (ap (fill_pop size p s) e)

  fill_pop-count :
      (s : Filling) (b : ℕ) (rest : List ℕ) → s.count < (fill_pop size p s (b ∷ rest)).0.count
  unfolding fill_pop unlink_page
  fill_pop-count s b rest = ground arith

  -- A page with a free block gives one, as long as the batch has room.
  gain_free :
      (fuel : ℕ) (s : Filling) (fs : List ℕ)
      → rounds_left s < suc fuel
      → InLoop s
      → s.count < refill_batch
      → (s.pages p).free ≡ fs
      → 1 ≤ length fs
      → s.count < (fill_page (suc fuel) size p s).count
  gain_free fuel s [] lt l few e none_free = absurd (omega arith)
  gain_free fuel s (b ∷ rest) lt l few e more =
      rw (fill_page-continued fuel s, fill_round-pop s (b ∷ rest) few e)
        (omega (
          arith,
          fill_pop-count s b rest,
          continued-more fuel s (fill_pop size p s (b ∷ rest)) lt (fill_pop-some s l few b rest e),
        ))

  lays_some :
      (s : Filling)
      → s.count < refill_batch
      → (s.pages p).used + (s.pages p).free_count < page_capacity size
      → ((provision_page size p (s.pages p) (refill_batch - s.count)).1 == 0) ≡ false
  unfolding provision_page
  lays_some s few room = ground arith

  -- A page that can still lay out blocks lays some out.
  fill_pop-lays :
      (s : Filling)
      → InLoop s
      → s.count < refill_batch
      → (s.pages p).used + (s.pages p).free_count < page_capacity size
      → fill_pop size p s [] ≡ (
        record s {
          pages = put s.pages p (provision_page size p (s.pages p) (refill_batch - s.count)).0;
        },
        true,
      )
  unfolding fill_pop
  fill_pop-lays s l few room =
      let has : ltb ((s.pages p).used + (s.pages p).free_count) (page_capacity size) ≡ true =
        ground arith in
      rw (has, lays_some s few room) refl

  -- And a free block is then there.
  gain_room :
      (fuel : ℕ) (s : Filling)
      → rounds_left s < suc (suc fuel)
      → InLoop s
      → s.count < refill_batch
      → (s.pages p).free ≡ []
      → (s.pages p).used + (s.pages p).free_count < page_capacity size
      → s.count < (fill_page (suc (suc fuel)) size p s).count
  gain_room fuel s lt l few e room =
      let t = provisioned s l few e in
      let some_laid = lays_some s few room in
      let free = provisioned-free s l few e in
      rw (fill_page-continued (suc fuel) s, fill_round-pop s [] few e, fill_pop-lays s l few room)
        (gain_free fuel t (t.pages p).free (ground (arith, ap (length {A = ℕ}) e))
          (provisioned-InLoop s l few e) few refl (ground arith))

  -- A page with a block to give gives one, as long as the batch has room.
  pub fill_page-gain :
      (s : Filling)
      → InLoop s
      → s.count < refill_batch
      → HasSpare size (s.pages p)
      → s.count < (fill_page page_rounds size p s).count
  fill_page-gain s l few (inl free) =
      gain_free 129 s (s.pages p).free (ground arith) l few refl free
  fill_page-gain s l few (inr room) = by_free (s.pages p).free refl
    where
      by_free :
          (fs : List ℕ) → (s.pages p).free ≡ fs → s.count < (fill_page page_rounds size p s).count
      by_free [] e = gain_room 128 s (ground arith) l few e room
      by_free (b ∷ rest) e = gain_free 129 s (b ∷ rest) (ground arith) l few e (omega arith)
