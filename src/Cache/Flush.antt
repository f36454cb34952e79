-- ===== src/Cache/Flush.antt =====
-- src/cache.rs: what a flush takes from a bin, and what it gives to the heap for it.
use native.Mathlib.Nat.{suc-mul}
use allox.Prelude.{
  ℕ, zero, suc, ◌+◌, ◌-◌, ◌*◌, ◌≤◌, ◌<◌, ◌≡◌, ◌⊎◌, inl, inr, refl, sym, ap, ◌∙◌, subst, true, false,
  ◌&&◌, List, [], ◌∷◌, arith, length, All, total, ltb, ◌==◌, Bool-cases, drop,
}
use allox.Cache.{
  Tier, small, medium, big, Binned, Release, Flushing, flush_chunk, max_flush_groups,
  tier_bytes_less, pop_bin, flush_pop, flush_pops, flush_one_chunk, give_chunk, flush_loop,
  flush_tier, group_block,
}
use allox.Cache.Groups.{weight, given_weight, owned, GroupOk, group_block-Grouped}

-- The bytes of a bin that its tier's count has.
abbrev pub tier_bytes : Tier → ℕ → ℕ
tier_bytes small bytes = 0
tier_bytes medium bytes = bytes
tier_bytes big bytes = bytes

-- What is given is grouped: a group for an owner, with as many blocks as it counts.
abbrev pub ReleaseOk : (Tier → ℕ → ℕ) → Release → Type 0
ReleaseOk owner r = All (GroupOk (owner r.tier)) r.groups × ((o : ℕ) → owned o r.groups ≤ 1)

one_block : (n size : ℕ) → 1 ≤ n → n * size ≡ (n - 1) * size + size
one_block zero size pos = absurd (omega arith)
one_block (suc n) size pos = suc-mul n size ∙ ap (λ k. k * size + size) (omega arith)

tier_less :
    (tier : Tier) (counted tier_rest left size : ℕ)
    → counted ≡ tier_rest + tier_bytes tier (left + size)
    → tier_bytes_less tier counted size ≡ tier_rest + tier_bytes tier left
tier_less small counted tier_rest left size e = e
tier_less medium counted tier_rest left size e = omega arith
tier_less big counted tier_rest left size e = omega arith

-- One element further down a list.
drop_next : (n b : ℕ) (bs xs : List ℕ) → b ∷ bs ≡ drop n xs → bs ≡ drop (n + 1) xs
drop_next zero b bs [] e = cc
drop_next zero b bs (x ∷ xs) e = cc
drop_next (suc n) b bs [] e = cc
drop_next (suc n) b bs (x ∷ xs) e =
    subst (λ k. bs ≡ drop k (x ∷ xs)) {x = suc (n + 1)} (omega arith) (drop_next n b bs xs e)

chunk_room : (tier : Tier) → flush_chunk tier < max_flush_groups tier
chunk_room small = omega arith
chunk_room medium = omega arith
chunk_room big = omega arith

chunk_pos : (tier : Tier) → 1 ≤ flush_chunk tier
chunk_pos small = omega arith
chunk_pos medium = omega arith
chunk_pos big = omega arith

abbrev no_blocks : List ℕ
no_blocks = []

drop_none : (n : ℕ) → drop n no_blocks ≡ no_blocks
drop_none zero = refl
drop_none (suc n) = refl

drop-drop : (m n : ℕ) (xs : List ℕ) → drop m (drop n xs) ≡ drop (n + m) xs
drop-drop m zero xs = ap (λ k. drop k xs) {x = m} (omega arith)
drop-drop m (suc n) [] = drop_none m ∙ sym (drop_none (suc n + m))
drop-drop m (suc n) (x ∷ xs) =
    drop-drop m n xs ∙ ap (λ k. drop k (x ∷ xs)) {x = suc (n + m)} (omega arith)

-- `rest` and `tier_rest` are the bytes that the cache counts beside those of the bin.
module _ (owner : Tier → ℕ → ℕ) (tier : Tier) (rest tier_rest : ℕ) where
  pub record BinOk (c : Binned) : Type 0 where
    pub counted : c.bin.len ≡ length c.bin.blocks
    pub virgin : c.bin.virgin ≤ c.bin.len
    pub bytes : c.cached_bytes ≡ rest + c.bin.len * c.bin.size
    pub tier_counted : c.tier_cached_bytes ≡ tier_rest + tier_bytes tier (c.bin.len * c.bin.size)
    pub grouped : All (ReleaseOk owner) c.given

  -- One block fewer.
  pop_bin-BinOk :
      (c : Binned) (b : ℕ) (bs : List ℕ)
      → c.bin.blocks ≡ b ∷ bs
      → BinOk c
      → BinOk (pop_bin tier c bs) × (c.bin.len ≡ suc (pop_bin tier c bs).bin.len)
  unfolding pop_bin
  pop_bin-BinOk c b bs e ok =
      let one_more : c.bin.len ≡ suc (length bs) =
        omega (arith, ok.counted, ap (length {A = ℕ}) e) in
      let bytes : c.bin.len * c.bin.size ≡ (c.bin.len - 1) * c.bin.size + c.bin.size =
        one_block c.bin.len c.bin.size (omega arith) in
      (
        record {
          counted = omega arith;
          virgin = ground (arith, ok.virgin);
          bytes = omega (arith, ok.bytes);
          tier_counted =
              tier_less tier c.tier_cached_bytes tier_rest ((c.bin.len - 1) * c.bin.size) c.bin.size
                (ok.tier_counted ∙ ap (λ n. tier_rest + tier_bytes tier n) bytes);
          grouped = ok.grouped;
        },
        omega arith,
      )

  module _ (class floor : ℕ) (c : Binned) where
    -- The inner loop at work on the bin that `c` has.
    record PopsOk (s : Flushing) : Type 0 where
      at : BinOk s.at
      groups : All (GroupOk (owner tier)) s.groups
      apart : (o : ℕ) → owned o s.groups ≤ 1
      few : length s.groups ≤ s.popped
      chunk : s.popped ≤ flush_chunk tier
      given : s.at.given ≡ c.given
      size : s.at.bin.size ≡ c.bin.size
      moved : s.at.bin.len + s.popped ≡ c.bin.len
      above : floor ≤ s.at.bin.len
      kept : s.at.bin.blocks ≡ drop s.popped c.bin.blocks
      all_there : (f : ℕ → ℕ) → total f s.at.bin.blocks + weight f s.groups ≡ total f c.bin.blocks

    flush_pop-PopsOk :
        (s : Flushing) (b : ℕ) (bs : List ℕ)
        → s.at.bin.blocks ≡ b ∷ bs
        → floor < s.at.bin.len
        → s.popped < flush_chunk tier
        → PopsOk s
        → PopsOk (flush_pop tier (owner tier) class s (b ∷ bs)).0
          × ((flush_pop tier (owner tier) class s (b ∷ bs)).0.popped ≡ s.popped + 1)
    unfolding flush_pop pop_bin
    flush_pop-PopsOk s b bs e over room ok =
        let popped_one = record s { at = pop_bin tier s.at bs; popped = s.popped + 1 } in
        let (at', less) = pop_bin-BinOk s.at b bs e ok.at in
        let g =
          group_block-Grouped (owner tier) b tier class popped_one ok.groups ok.apart
            (omega (arith, ok.few, room, chunk_room tier)) in
        let t = group_block tier class (owner tier b) b popped_one in
        (
          record {
            at = subst BinOk (sym g.still) at';
            groups = g.ok;
            apart = g.apart;
            few = omega (arith, g.few, ok.few, g.popped);
            chunk = omega (arith, g.popped);
            given = ap (λ (u : Binned). u.given) g.still ∙ ok.given;
            size = ap (λ (u : Binned). u.bin.size) g.still ∙ ok.size;
            moved = omega (arith, ap (λ (u : Binned). u.bin.len) g.still, less, ok.moved, g.popped);
            above = omega (arith, ap (λ (u : Binned). u.bin.len) g.still, less);
            kept =
                ap (λ (u : Binned). u.bin.blocks) g.still
                ∙ drop_next s.popped b bs c.bin.blocks (sym e ∙ ok.kept)
                ∙ ap (λ n. drop n c.bin.blocks) (sym g.popped);
            all_there = λ f. omega (
              arith,
              g.heavier f,
              ap (λ (u : Binned). total f u.bin.blocks) g.still,
              ok.all_there f,
              ap (total f) e,
            );
          },
          g.popped,
        )

    flush_pops_more :
        (fuel : ℕ) (s : Flushing) (b : ℕ) (bs : List ℕ)
        → (ltb floor s.at.bin.len && ltb s.popped (flush_chunk tier)) ≡ true
        → s.at.bin.blocks ≡ b ∷ bs
        → flush_pops (suc fuel) tier (owner tier) class floor s
          ≡ flush_pops fuel tier
              (owner tier)
              class
              floor
              (flush_pop tier (owner tier) class s (b ∷ bs)).0
    unfolding flush_pops
    flush_pops_more fuel s b bs goes e =
        ap
          (λ xs. elim (ltb floor s.at.bin.len && ltb s.popped (flush_chunk tier)) [
            | false ↦ s
            | true ↦ elim (flush_pop tier (owner tier) class s xs).1 [
              | true ↦
                  flush_pops fuel tier (owner tier) class floor
                    (flush_pop tier (owner tier) class s xs).0
              | false ↦ s
            ]
          ])
          e
        ∙ simp goes (unfold flush_pop in refl)

    flush_pops_done :
        (fuel : ℕ) (s : Flushing)
        → (ltb floor s.at.bin.len && ltb s.popped (flush_chunk tier)) ≡ false
        → flush_pops (suc fuel) tier (owner tier) class floor s ≡ s
    unfolding flush_pops
    flush_pops_done fuel s stops = rw (stops, flush_pops)

    abbrev Ended : Flushing → Type 0
    Ended s = PopsOk s × ((s.at.bin.len ≡ floor) ⊎ (s.popped ≡ flush_chunk tier))

    -- The inner loop ends by its own test.
    flush_pops-Ended :
        (fuel : ℕ) (s : Flushing)
        → flush_chunk tier ≤ s.popped + fuel
        → PopsOk s
        → Ended (flush_pops fuel tier (owner tier) class floor s)
    flush_pops-Ended zero s enough ok = unfold flush_pops in (ok, inr (omega (arith, ok.chunk)))
    flush_pops-Ended (suc fuel) s enough ok =
        elim (Bool-cases (ltb floor s.at.bin.len && ltb s.popped (flush_chunk tier))) [
          | inr stops ↦ subst Ended (sym (flush_pops_done fuel s stops)) (ok, ended stops)
          | inl goes ↦ by_blocks goes s.at.bin.blocks refl (flush_pops-Ended fuel)
        ]
      where
        ended :
            (ltb floor s.at.bin.len && ltb s.popped (flush_chunk tier)) ≡ false
            → (s.at.bin.len ≡ floor) ⊎ (s.popped ≡ flush_chunk tier)
        ended stops = elim (Bool-cases (ltb floor s.at.bin.len)) [
          | inl over ↦ inr (ground (arith, ok.chunk))
          | inr under ↦ inl (ground (arith, ok.above))
        ]

        by_blocks :
            (ltb floor s.at.bin.len && ltb s.popped (flush_chunk tier)) ≡ true
            → (xs : List ℕ) → s.at.bin.blocks ≡ xs
            → ((t : Flushing)
                → flush_chunk tier ≤ t.popped + fuel
                → PopsOk t
                → Ended (flush_pops fuel tier (owner tier) class floor t))
            → Ended (flush_pops (suc fuel) tier (owner tier) class floor s)
        by_blocks goes [] e later = absurd (ground (arith, ok.at.counted, ap (length {A = ℕ}) e))
        by_blocks goes (b ∷ bs) e later =
            let (ok', popped) = flush_pop-PopsOk s b bs e (ground arith) (ground arith) ok in
            subst Ended (sym (flush_pops_more fuel s b bs goes e))
              (later (flush_pop tier (owner tier) class s (b ∷ bs)).0 (omega (arith, popped)) ok')

  -- What a flush keeps and gives: the bin keeps its lowest blocks, and those that left it are in the
  -- groups given.
  pub record Flushed (floor : ℕ) (c d : Binned) : Type 0 where
    pub ok : BinOk d
    pub size : d.bin.size ≡ c.bin.size
    pub len : d.bin.len ≡ floor
    pub kept : d.bin.blocks ≡ drop (c.bin.len - floor) c.bin.blocks
    pub all_there :
        (f : ℕ → ℕ)
        → total f d.bin.blocks + given_weight f d.given
          ≡ total f c.bin.blocks + given_weight f c.given

  module _ (class floor : ℕ) where
    -- After a chunk.
    record Chunked (c d : Binned) : Type 0 where
      ok : BinOk d
      size : d.bin.size ≡ c.bin.size
      above : floor ≤ d.bin.len
      less : d.bin.len < c.bin.len
      kept : d.bin.blocks ≡ drop (c.bin.len - d.bin.len) c.bin.blocks
      all_there :
          (f : ℕ → ℕ)
          → total f d.bin.blocks + given_weight f d.given
            ≡ total f c.bin.blocks + given_weight f c.given

    give_chunk-Chunked :
        (c : Binned)
        → BinOk c
        → floor < c.bin.len
        → Chunked c (give_chunk tier class (flush_one_chunk tier (owner tier) class floor c))
          × (1 ≤ (flush_one_chunk tier (owner tier) class floor c).popped)
    unfolding flush_one_chunk
    give_chunk-Chunked c ok over =
        let s : Flushing = record { at = c; groups = []; popped = 0 } in
        let t = flush_one_chunk tier (owner tier) class floor c in
        let begin : PopsOk class floor c s = record {
          at = ok;
          groups = tt;
          apart = λ o. omega arith;
          few = omega arith;
          chunk = omega arith;
          given = refl;
          size = refl;
          moved = omega arith;
          above = omega arith;
          kept = refl;
          all_there = λ f. omega arith;
        } in
        let (done, ends) =
          flush_pops-Ended class floor c (flush_chunk tier) s (omega arith) begin in
        let popped_some : 1 ≤ t.popped = elim ends [
          | inl low ↦ omega (arith, done.moved)
          | inr full ↦ omega (arith, chunk_pos tier)
        ] in
        (
          record {
            ok = record {
              counted = done.at.counted;
              virgin = done.at.virgin;
              bytes = done.at.bytes;
              tier_counted = done.at.tier_counted;
              grouped = ((done.groups, done.apart), done.at.grouped);
            };
            size = done.size;
            above = done.above;
            less = omega (arith, done.moved);
            kept = done.kept ∙ ap (λ n. drop n c.bin.blocks) (omega (arith, done.moved));
            all_there = λ f. omega (arith, done.all_there f, ap (given_weight f) done.given);
          },
          popped_some,
        )

    flush_loop_done :
        (fuel : ℕ) (c : Binned)
        → ltb floor c.bin.len ≡ false
        → flush_loop (suc fuel) tier (owner tier) class floor c ≡ c
    unfolding flush_loop
    flush_loop_done fuel c done = rw (done, flush_loop)

    flush_loop_more :
        (fuel : ℕ) (c : Binned)
        → ltb floor c.bin.len ≡ true
        → 1 ≤ (flush_one_chunk tier (owner tier) class floor c).popped
        → flush_loop (suc fuel) tier (owner tier) class floor c
          ≡ flush_loop fuel tier
              (owner tier)
              class
              floor
              (give_chunk tier class (flush_one_chunk tier (owner tier) class floor c))
    unfolding flush_loop
    flush_loop_more fuel c over popped =
        let some_popped : ((flush_one_chunk tier (owner tier) class floor c).popped == 0) ≡ false =
          ground arith in
        rw (over, some_popped, flush_loop)

    Chunked-Flushed : (c m d : Binned) → Chunked c m → Flushed floor m d → Flushed floor c d
    Chunked-Flushed c m d one more = record {
      ok = more.ok;
      size = more.size ∙ one.size;
      len = more.len;
      kept =
          more.kept
          ∙ ap (drop (m.bin.len - floor)) one.kept
          ∙ drop-drop (m.bin.len - floor) (c.bin.len - m.bin.len) c.bin.blocks
          ∙ ap (λ n. drop n c.bin.blocks) (omega (arith, one.above, one.less));
      all_there = λ f. omega (arith, one.all_there f, more.all_there f);
    }

    flush_loop-Flushed :
        (fuel : ℕ) (c : Binned)
        → BinOk c
        → floor ≤ c.bin.len
        → c.bin.len < floor + fuel
        → Flushed floor c (flush_loop fuel tier (owner tier) class floor c)
    flush_loop-Flushed zero c ok low enough = absurd (omega arith)
    flush_loop-Flushed (suc fuel) c ok low enough = elim (Bool-cases (ltb floor c.bin.len)) [
      | inr done ↦ subst (Flushed floor c) (sym (flush_loop_done fuel c done)) (record {
        ok = ok;
        size = refl;
        len = ground arith;
        kept = ap (λ n. drop n c.bin.blocks) {x = 0} (ground arith);
        all_there = λ f. refl;
      })
      | inl over ↦
          let t = flush_one_chunk tier (owner tier) class floor c in
          let d = give_chunk tier class t in
          let (one, some_popped) = give_chunk-Chunked c ok (ground arith) in
          subst (Flushed floor c) (sym (flush_loop_more fuel c over some_popped)) (
            Chunked-Flushed c d (flush_loop fuel tier (owner tier) class floor d) one
              (flush_loop-Flushed fuel d one.ok one.above (omega (arith, one.less))))
    ]

  -- For a bin whose counts are right and a floor not above its length, with its bytes among those
  -- that the cache counts: a flush ends, leaves exactly the lowest `floor` blocks in the bin, and
  -- keeps the counts of the bin and of the cache right. Every block is still in the bin or in a group
  -- given to the heap: a group has blocks of one owner only, as many as it counts, and in one chunk
  -- no owner has two groups.
  pub flush_tier-Flushed :
      (class floor : ℕ) (c : Binned)
      → BinOk c
      → floor ≤ c.bin.len
      → Flushed floor c (flush_tier tier (owner tier) class floor c)
  unfolding flush_tier
  flush_tier-Flushed class floor c ok low =
      flush_loop-Flushed class floor (c.bin.len + 1) c ok low (omega arith)
