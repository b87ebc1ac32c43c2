-- ===== src/Mm/Best.antt =====
-- `find_best_mem_block` on the list of blocks: the best fit.
use shed_kernel.Prelude.{
  ℕ, zero, suc, ◌≤◌, ◌<◌, ◌≡◌, refl, Bool, true, ◌&&◌, ◌⊎◌, inl, inr, some, [], ◌∷◌, arith, length,
  leb, ◌==◌, if◌then◌else◌, Bool-cases,
}
use shed_kernel.Mm.{Mm, find_loop}
use shed_kernel.Mm.Chain.{Block, block, Blocks, after, head_at, Chain, has, has-le}

-- The block at address `b`; a used one of size 0 where there is none.
abbrev pub block_at : ℕ → ℕ → Blocks → Block
block_at b a [] = block 0 1
block_at b a (x ∷ xs) = if a == b then x else block_at b (after a x.size) xs

abbrev pub is_fit : ℕ → Block → Bool
is_fit size x = (x.used == 0) && leb size x.size

-- The last of the smallest blocks that fit, and its size, from a best one so far.
unfoldable pub best_of : (size a : ℕ) → Blocks → (best best_size : ℕ) → ℕ × ℕ
best_of size a [] best best_size = (best, best_size)
best_of size a (x ∷ xs) best best_size =
    let better = is_fit size x && leb x.size best_size in
    best_of size (after a x.size) xs (if better then a else best)
      (if better then x.size else best_size)

-- With more fuel than there are blocks the C loop ends, at the best block.
pub find_loop-best_of :
    (f size best best_size : ℕ) (m : Mm) (end prev a : ℕ) (xs : Blocks)
    → Chain m end prev a xs
    → length xs < f
    → find_loop f size (head_at a xs) best best_size m ≡ some (best_of size a xs best best_size).0
unfolding find_loop best_of
find_loop-best_of zero size best best_size m end prev a xs c h = absurd (omega arith)
find_loop-best_of (suc f) size best best_size m end prev a [] c h = refl
find_loop-best_of (suc f) size best best_size m end prev a (x ∷ xs) (pos, node, c) h =
    let better = is_fit size x && leb x.size best_size in
    ground (
      arith,
      node,
      find_loop-best_of f size (if better then a else best) (if better then x.size else best_size) m
          end a (after a x.size) xs c,
    )

-- The best size only falls.
pub best_of-le_start :
    (size a : ℕ) (xs : Blocks) (best best_size : ℕ)
    → (best_of size a xs best best_size).1 ≤ best_size
unfolding best_of
best_of-le_start size a [] best best_size = omega arith
best_of-le_start size a (x ∷ xs) best best_size =
    let better = is_fit size x && leb x.size best_size in
    ground (
      arith,
      best_of-le_start size (after a x.size) xs (if better then a else best)
          (if better then x.size else best_size),
    )

-- Every block that fits is at least as large as the best one.
pub best_of-le :
    (size a : ℕ) (xs : Blocks) (best best_size : ℕ) (b : ℕ)
    → has b a xs ≡ true
    → is_fit size (block_at b a xs) ≡ true
    → (best_of size a xs best best_size).1 ≤ (block_at b a xs).size
unfolding best_of
best_of-le size a [] best best_size b h fit = absurd (ground arith)
best_of-le size a (x ∷ xs) best best_size b h fit =
    let better = is_fit size x && leb x.size best_size in
    let b' = if better then a else best in
    let s' = if better then x.size else best_size in
    elim (Bool-cases (a == b)) [
      | inl at ↦ ground (arith, at, best_of-le_start size (after a x.size) xs b' s')
      | inr off ↦ ground (arith, off, best_of-le size (after a x.size) xs b' s' b)
    ]

-- The result is the start value, or a block that fits and has the size returned.
pub best_of-cases :
    (size a : ℕ) (xs : Blocks) (best best_size : ℕ)
    → ((best_of size a xs best best_size).0 ≡ best)
        × ((best_of size a xs best best_size).1 ≡ best_size)
      ⊎ (has (best_of size a xs best best_size).0 a xs ≡ true)
        × (is_fit size (block_at (best_of size a xs best best_size).0 a xs) ≡ true)
        × ((block_at (best_of size a xs best best_size).0 a xs).size
            ≡ (best_of size a xs best best_size).1)
unfolding best_of
best_of-cases size a [] best best_size = inl (refl, refl)
best_of-cases size a (x ∷ xs) best best_size =
    let better = is_fit size x && leb x.size best_size in
    let b' = if better then a else best in
    let s' = if better then x.size else best_size in
    let r = best_of size (after a x.size) xs b' s' in
    ground (arith, best_of-cases size (after a x.size) xs b' s', has-le r.0 (after a x.size) xs)
