-- ===== src/Cache/Groups.antt =====
-- src/cache.rs: the slots of a flush: a block goes to the one whose owner is its own.
use allox.Prelude.{
  subst, ℕ, ◌+◌, ◌≤◌, ◌<◌, ◌≡◌, inl, inr, refl, sym, false, Option, none, some, List, [], ◌∷◌, ◌++◌,
  arith, length, length-append, All, total, total-append, same, leb, ◌==◌, if◌then◌else◌,
  Bool-cases,
}
use allox.Cache.{
  no_room, Tier, Group, Release, add_to_group, group_block, Flushing, max_flush_groups,
}

-- What a weight of blocks comes to over a list of groups, and over the log.
abbrev pub weight : (ℕ → ℕ) → List Group → ℕ
weight f = total (λ g. total f g.blocks)

abbrev pub given_weight : (ℕ → ℕ) → List Release → ℕ
given_weight f = total (λ r. weight f r.groups)

abbrev pub owned : ℕ → List Group → ℕ
owned o = total (λ g. same o g.owner)

-- A group holds as many blocks as it counts, all of its owner.
pub record GroupOk (owner : ℕ → ℕ) (g : Group) : Type 0 where
  pub counted : g.n ≡ length g.blocks
  pub own : All (λ b. owner b ≡ g.owner) g.blocks

All-append : (P : ℕ → Type 0) (xs ys : List ℕ) → All P xs → All P ys → All P (xs ++ ys)
All-append P [] ys h k = k
All-append P (x ∷ xs) ys (here, rest) k = (here, All-append P xs ys rest k)

module _ (owner : ℕ → ℕ) (b : ℕ) where
  -- What becomes of a list of groups that gets the block.
  abbrev GotBlock : List Group → List Group → Type 0
  GotBlock gs hs = ((f : ℕ → ℕ) → weight f hs ≡ weight f gs + f b) × All (GroupOk owner) hs

  abbrev AddOk : List Group → Option (List Group) → Type 0
  AddOk gs none = owned (owner b) gs ≡ 0
  AddOk gs (some hs) =
      ((f : ℕ → ℕ) → weight f hs ≡ weight f gs + f b)
      × All (GroupOk owner) hs
      × (length hs ≡ length gs)
      × ((o : ℕ) → owned o hs ≡ owned o gs)

  abbrev new_group : Group
  new_group = record { owner = owner b; blocks = b ∷ []; n = 1 }

  abbrev longer : Group → Group
  longer g = record g { blocks = g.blocks ++ b ∷ []; n = g.n + 1 }

  longer-GroupOk : (g : Group) → g.owner ≡ owner b → GroupOk owner g → GroupOk owner (longer g)
  longer-GroupOk g e ok = record {
    counted = omega (arith, ok.counted, length-append g.blocks (b ∷ []));
    own = All-append (λ x. owner x ≡ g.owner) g.blocks (b ∷ []) ok.own (sym e, tt);
  }

  add_to_group-AddOk :
      (gs : List Group) → All (GroupOk owner) gs → AddOk gs (add_to_group (owner b) b gs)
  unfolding add_to_group
  add_to_group-AddOk [] h = refl
  add_to_group-AddOk (g ∷ gs) (ok, oks) = elim (Bool-cases (g.owner == owner b)) [
    | inl here ↦ simp here (
      λ f. omega (arith, total-append f g.blocks (b ∷ [])),
      (longer-GroupOk g (ground arith) ok, oks),
      omega arith,
      λ o. refl,
    )
    | inr other ↦
        simp other (by_rest other (add_to_group (owner b) b gs) (add_to_group-AddOk gs oks))
  ]
    where
      by_rest :
          (g.owner == owner b) ≡ false
          → (r : Option (List Group)) → AddOk gs r
          → AddOk (g ∷ gs) (elim r [ none ↦ none | some hs ↦ some (g ∷ hs) ])
      by_rest other none h = ground arith
      by_rest other (some hs) (heavier, all_ok, len, owners) = (
        λ f. omega (arith, heavier f),
        (ok, all_ok),
        omega (arith, len),
        λ o. omega (arith, owners o),
      )

  -- With room for a group, the block is in one, and no owner has two.
  pub record Grouped (s t : Flushing) : Type 0 where
    pub still : t.at ≡ s.at
    pub popped : t.popped ≡ s.popped
    pub heavier : (f : ℕ → ℕ) → weight f t.groups ≡ weight f s.groups + f b
    pub ok : All (GroupOk owner) t.groups
    pub few : length t.groups ≤ length s.groups + 1
    pub apart : (o : ℕ) → owned o t.groups ≤ 1

  All-append_groups :
      (gs hs : List Group)
      → All (GroupOk owner) gs
      → All (GroupOk owner) hs
      → All (GroupOk owner) (gs ++ hs)
  All-append_groups [] hs h k = k
  All-append_groups (g ∷ gs) hs (here, rest) k = (here, All-append_groups gs hs rest k)

  pub group_block-Grouped :
      (tier : Tier) (class : ℕ) (s : Flushing)
      → All (GroupOk owner) s.groups
      → ((o : ℕ) → owned o s.groups ≤ 1)
      → length s.groups < max_flush_groups tier
      → Grouped s (group_block tier class (owner b) b s)
  unfolding group_block
  group_block-Grouped tier class s ok apart room =
      by_result (add_to_group (owner b) b s.groups) (add_to_group-AddOk s.groups ok)
    where
      full : leb (max_flush_groups tier) (length s.groups) ≡ false
      full = ground arith

      by_result :
          (r : Option (List Group))
          → AddOk s.groups r
          → Grouped s (elim r [
            | some gs ↦ record s { groups = gs }
            | none ↦
                if leb (max_flush_groups tier) (length s.groups)
                then no_room tier class (owner b) b s
                else record s { groups = s.groups ++ new_group ∷ [] }
          ])
      by_result (some gs) (heavier, all_ok, len, owners) = record {
        still = refl;
        popped = refl;
        heavier = heavier;
        ok = all_ok;
        few = omega (arith, len);
        apart = λ o. omega (arith, owners o, apart o);
      }
      by_result none fresh = rw full (record {
        still = refl;
        popped = refl;
        heavier =
            λ f. omega (arith, total-append (λ g. total f g.blocks) s.groups (new_group ∷ []));
        ok =
            All-append_groups s.groups (new_group ∷ []) ok
              (record { counted = refl; own = (refl, tt) }, tt);
        few = omega (arith, length-append s.groups (new_group ∷ []));
        apart = λ o.
            let longer_by = total-append (λ g. same o g.owner) s.groups (new_group ∷ []) in
            elim (Bool-cases (owner b == o)) [
              | inl here ↦
                  let none_yet : owned o s.groups ≡ 0 =
                    subst (λ q. owned q s.groups ≡ 0) (ground arith) fresh in
                  ground (arith, longer_by)
              | inr other ↦ ground (arith, longer_by, apart o)
            ];
      })
