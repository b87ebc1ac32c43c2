-- ===== src/Mm/Update.antt =====
-- What the header writes of mm.c do to the list of blocks.
use shed_kernel.Prelude.{
  ℕ, ◌+◌, ◌-◌, ◌≤◌, ◌<◌, ◌≡◌, refl, ap, ◌∙◌, sym, ◌≢◌, true, ◌&&◌, ◌⊎◌, inl, inr, [], ◌∷◌, arith,
  ltb, ◌==◌, if◌then◌else◌, Bool-cases, ==_iff,
}
use shed_kernel.Mm.{Mm, Node, set_node, carve}
use shed_kernel.Mm.Chain.{
  Block, block, Blocks, after, head_at, Chain, has, has-le, Chain-le, Chain-frame, Chain-prev,
}
use shed_kernel.Mm.Best.{block_at}

-- The block at `b` marked.
unfoldable pub set_used_at : (b u a : ℕ) → Blocks → Blocks
set_used_at b u a [] = []
set_used_at b u a (x ∷ xs) =
    if a == b then record x { used = u } ∷ xs else x ∷ set_used_at b u (after a x.size) xs

-- A used block of the given size cut off the tail of the block at `b`.
unfoldable pub split_at : (b size a : ℕ) → Blocks → Blocks
split_at b size a [] = []
split_at b size a (x ∷ xs) =
    if a == b
    then record x { size = x.size - (size + 16) } ∷ block size 1 ∷ xs
    else x ∷ split_at b size (after a x.size) xs

-- The block at `b` joined with the one behind it.
unfoldable pub join_at : (b a : ℕ) → Blocks → Blocks
join_at b a [] = []
join_at b a (x ∷ []) = x ∷ []
join_at b a (x ∷ y ∷ xs) =
    if a == b
    then record x { size = x.size + (y.size + 16) } ∷ xs
    else x ∷ join_at b (after a x.size) (y ∷ xs)

head_at-set_used_at : (b u a c : ℕ) (xs : Blocks) → head_at c (set_used_at b u a xs) ≡ head_at c xs
unfolding set_used_at
head_at-set_used_at b u a c [] = refl
head_at-set_used_at b u a c (x ∷ xs) = ground arith

head_at-split_at : (b size a c : ℕ) (xs : Blocks) → head_at c (split_at b size a xs) ≡ head_at c xs
unfolding split_at
head_at-split_at b size a c [] = refl
head_at-split_at b size a c (x ∷ xs) = ground arith

pub Chain-set_used_at :
    (b u : ℕ) (m : Mm) (end prev a : ℕ) (xs : Blocks)
    → Chain m end prev a xs
    → Chain (set_node b (record (m.nodes b) { used = u }) m) end prev a (set_used_at b u a xs)
unfolding set_used_at
Chain-set_used_at b u m end prev a [] c = c
Chain-set_used_at b u m end prev a (x ∷ xs) (pos, node, c) = elim (Bool-cases (a == b)) [
  | inl at ↦ rw at (
    pos,
    ground (arith, at, node),
    Chain-frame m (set_node b (record (m.nodes b) { used = u }) m) end a (after a x.size) xs
        (λ d h. ground arith) c,
  )
  | inr off ↦ rw off (
    pos,
    ground (arith, off, node, head_at-set_used_at b u (after a x.size) (after a x.size) xs),
    Chain-set_used_at b u m end a (after a x.size) xs c,
  )
]

pub head_at-ne : (a : ℕ) (xs : Blocks) → xs ≢ [] → head_at a xs ≡ a
head_at-ne a [] h = absurd (h refl)
head_at-ne a (x ∷ xs) h = refl

-- The header of the block at `b` in a chain.
pub record HeaderAt (m : Mm) (end b : ℕ) (x : Block) : Type 0 where
  pub pos : 0 < b
  pub size : (m.nodes b).size ≡ x.size
  pub used : (m.nodes b).used ≡ x.used
  pub next : ((m.nodes b).next ≡ 0) ⊎ ((m.nodes b).next ≡ after b x.size)
  pub inside : after b x.size ≤ end

pub header_at :
    (b : ℕ) (m : Mm) (end prev a : ℕ) (xs : Blocks)
    → Chain m end prev a xs
    → has b a xs ≡ true
    → HeaderAt m end b (block_at b a xs)
header_at b m end prev a [] c h = absurd (ground arith)
header_at b m end prev a (x ∷ xs) (pos, node, c) h = elim (Bool-cases (a == b)) [
  | inl at ↦
      let e : a ≡ b = (==_iff a b).0 at in
      rw at (record {
        pos = omega arith;
        size = ground (arith, node, e);
        used = ground (arith, node, e);
        next = head_cases xs (ground (arith, node, e));
        inside = omega (arith, e, Chain-le m end a (after a x.size) xs c);
      })
  | inr off ↦ rw off (header_at b m end a (after a x.size) xs c (rw off at h))
]
  where
    head_cases :
        (ys : Blocks)
        → (m.nodes b).next ≡ head_at (after b x.size) ys
        → ((m.nodes b).next ≡ 0) ⊎ ((m.nodes b).next ≡ after b x.size)
    head_cases [] e = inl e
    head_cases (y ∷ ys) e = inr e

module _ (b size : ℕ) (m : Mm) (end : ℕ) (x : Block) (hd : HeaderAt m end b x)
    (small : end < 4294967296) (room : size + 16 ≤ x.size) where
  abbrev carved : ℕ
  carved = after b (x.size - (size + 16))

  -- Every header after `carve`.
  nodes-carve :
      (a : ℕ)
      → (carve b size m).1.nodes a ≡ (
          if a == b
          then record (m.nodes b) { size = x.size - (size + 16); next = carved }
          else if a == carved
          then record { size = size; used = 1; next = (m.nodes b).next; prev = b }
          else if (a == (m.nodes b).next) && ltb 0 a
          then record (m.nodes a) { prev = carved }
          else m.nodes a)
  unfolding carve
  nodes-carve a = ground arith

  nodes-carve_past : (a : ℕ) → after b x.size < a → (carve b size m).1.nodes a ≡ m.nodes a
  nodes-carve_past a h = ground (arith, nodes-carve a, hd.next)

  nodes-carve_next :
      (a : ℕ)
      → (m.nodes b).next ≡ a
      → carved < a
      → (carve b size m).1.nodes a ≡ record (m.nodes a) { prev = carved }
  nodes-carve_next a e h = ground (arith, nodes-carve a)

  nodes-carve_before : (a : ℕ) → a < b → (carve b size m).1.nodes a ≡ m.nodes a
  nodes-carve_before a h = ground (arith, nodes-carve a, hd.next)

  -- `carve` cuts the block at `b` in two.
  pub Chain-carve :
      (prev a : ℕ) (xs : Blocks)
      → Chain m end prev a xs
      → has b a xs ≡ true
      → block_at b a xs ≡ x
      → Chain (carve b size m).1 end prev a (split_at b size a xs)
  unfolding split_at
  Chain-carve prev a [] c h e = absurd (ground arith)
  Chain-carve prev a (y ∷ xs) (pos, node, c) h e = elim (Bool-cases (a == b)) [
    | inl at ↦
        let e' : y ≡ x = rw at at e in
        let at' : a ≡ b = (==_iff a b).0 at in
        let joined : after (after a (y.size - (size + 16))) size ≡ after a y.size =
          omega (arith, room, ap (λ (z : Block). z.size) e') in
        let here : after a (y.size - (size + 16)) ≡ carved =
          omega (arith, at', ap (λ (z : Block). z.size) e') in
        rw at (
          pos,
          ground (arith, nodes-carve a, node),
          (
            omega arith,
            ground (arith, nodes-carve (after a (y.size - (size + 16))), node, joined),
            rw joined (
                Chain-prev m (carve b size m).1 end a (after a (y.size - (size + 16)))
                  (after a y.size) xs
                  (λ ne. rw here (
                    nodes-carve_next (after a y.size)
                      (ap (λ k. (m.nodes k).next) (sym at')
                        ∙ ap (λ (n : Node). n.next) node
                        ∙ head_at-ne (after a y.size) xs ne)
                      (omega (arith, room, at', ap (λ (z : Block). z.size) e'))))
                  (λ d lt. nodes-carve_past d (omega (arith, at', ap (λ (z : Block). z.size) e')))
                  c),
          ),
        )
    | inr off ↦ rw off (
      pos,
      nodes-carve_before a (omega (arith, has-le b (after a y.size) xs (rw off at h)))
          ∙ node
          ∙ ap (λ k. record { size = y.size; used = y.used; next = k; prev = prev })
              (sym (head_at-split_at b size (after a y.size) (after a y.size) xs)),
      Chain-carve a (after a y.size) xs c (rw off at h) (rw off at e),
    )
  ]
