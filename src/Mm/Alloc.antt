-- ===== src/Mm/Alloc.antt =====
-- The list of blocks after an allocation: the new block and the others.
use shed_kernel.Prelude.{
  ℕ, ◌+◌, ◌-◌, ◌≤◌, ◌<◌, ◌≡◌, refl, ap, ◌∙◌, ◌≢◌, true, false, ◌⊎◌, inl, inr, [], ◌∷◌, arith, leb,
  ◌==◌, Bool-cases,
}
use shed_kernel.Mm.{Mm}
use shed_kernel.Mm.Chain.{Block, block, Blocks, after, has, has-le}
use shed_kernel.Mm.Best.{block_at, is_fit, best_of, best_of-le, best_of-cases}
use shed_kernel.Mm.Update.{set_used_at, split_at, header_at}
use shed_kernel.Mm.Malloc.{IsHeap, best_block, alloc}

-- Where the other blocks are after a block has been marked or split.
set_used_at_other :
    (r u b a : ℕ) (xs : Blocks)
    → b ≢ r
    → (has b a (set_used_at r u a xs) ≡ has b a xs)
      × (block_at b a (set_used_at r u a xs) ≡ block_at b a xs)
unfolding set_used_at
set_used_at_other r u b a [] ne = (refl, refl)
set_used_at_other r u b a (x ∷ xs) ne =
    ground (arith, set_used_at_other r u b (after a x.size) xs ne)

set_used_at_self :
    (r u a : ℕ) (xs : Blocks)
    → has r a xs ≡ true
    → (has r a (set_used_at r u a xs) ≡ true)
      × (block_at r a (set_used_at r u a xs) ≡ record (block_at r a xs) { used = u })
unfolding set_used_at
set_used_at_self r u a [] h = absurd (ground arith)
set_used_at_self r u a (x ∷ xs) h = ground (arith, set_used_at_self r u (after a x.size) xs)

split_at_other :
    (r size b a : ℕ) (xs : Blocks)
    → b ≢ r
    → has b a xs ≡ true
    → size + 16 ≤ (block_at r a xs).size
    → (has b a (split_at r size a xs) ≡ true)
      × (block_at b a (split_at r size a xs) ≡ block_at b a xs)
unfolding split_at
split_at_other r size b a [] ne h room = absurd (ground arith)
split_at_other r size b a (x ∷ xs) ne h room = elim (Bool-cases (a == r)) [
  | inl at ↦
      let joined : size + 16 ≤ x.size
          → after (after a (x.size - (size + 16))) size ≡ after a x.size =
        λ q. omega arith in
      ground (arith, at, joined, has-le b (after a x.size) xs)
  | inr off ↦ ground (arith, off, split_at_other r size b (after a x.size) xs ne)
]

split_at_new :
    (r size a : ℕ) (xs : Blocks)
    → has r a xs ≡ true
    → size + 16 ≤ (block_at r a xs).size
    → let c = after r ((block_at r a xs).size - (size + 16)) in
      (has c a (split_at r size a xs) ≡ true) × (block_at c a (split_at r size a xs) ≡ block size 1)
unfolding split_at
split_at_new r size a [] h room = absurd (ground arith)
split_at_new r size a (x ∷ xs) h room = elim (Bool-cases (a == r)) [
  | inl at ↦ ground (arith, at)
  | inr off ↦
      ground (arith, off, split_at_new r size (after a x.size) xs, has-le r (after a x.size) xs)
]

module _ {area : ℕ} {bs : Blocks} {m : Mm} (heap : IsHeap area bs m) (size : ℕ) where
  best_block-cases :
      ((best_block size area bs ≡ 0) × ((best_of size area bs 0 1048577).1 ≡ 1048577))
      ⊎ (has (best_block size area bs) area bs ≡ true)
        × (is_fit size (block_at (best_block size area bs) area bs) ≡ true)
  best_block-cases = ground (arith, best_of-cases size area bs 0 1048577)

  -- On every heap, if the pointer of `alloc` is NULL then no block is free and large enough.
  pub alloc-null :
      (b : ℕ)
      → (alloc size area bs).0 ≡ 0
      → has b area bs ≡ true
      → is_fit size (block_at b area bs) ≡ false
  unfolding alloc
  alloc-null b null here = elim (Bool-cases (is_fit size (block_at b area bs))) [
    | inr miss ↦ miss
    | inl fit ↦ elim best_block-cases [
      | inl (none, s) ↦ absurd (
          omega (
            arith,
            s,
            best_of-le size area bs 0 1048577 b here fit,
            (header_at b m (area + 1048576) 0 area bs heap.chain here).inside,
            has-le b area bs here,
          ))
      | inr (r, f) ↦ absurd (ground (arith, has-le (best_block size area bs) area bs r, heap.pos))
    ]
  ]

  -- The three branches of `malloc`.
  data Branch : Type 0 where
    failed : alloc size area bs ≡ (0, bs) → Branch
    cut :
        has (best_block size area bs) area bs ≡ true
        → is_fit size (block_at (best_block size area bs) area bs) ≡ true
        → size + 16 ≤ (block_at (best_block size area bs) area bs).size
        → alloc size area bs ≡ (
          after
                (best_block size area bs)
                ((block_at (best_block size area bs) area bs).size - (size + 16))
              + 16,
          split_at (best_block size area bs) size area bs,
        )
        → Branch
    whole :
        has (best_block size area bs) area bs ≡ true
        → is_fit size (block_at (best_block size area bs) area bs) ≡ true
        → alloc size area bs
          ≡ (best_block size area bs + 16, set_used_at (best_block size area bs) 1 area bs)
        → Branch

  branch : Branch
  unfolding alloc
  branch = elim best_block-cases [
    | inl (r, _) ↦ failed (rw (r, alloc) refl)
    | inr (here, fit) ↦
        let r = best_block size area bs in
        let ne : (r == 0) ≡ false = ground (arith, has-le r area bs here, heap.pos) in
        elim (Bool-cases (leb (size + 16) (block_at r area bs).size)) [
          | inl room ↦ cut here fit (ground arith) (rw (ne, room, alloc) refl)
          | inr tight ↦ whole here fit (rw (ne, tight, alloc) refl)
        ]
  ]

  -- On every heap, a pointer of `alloc` that is not NULL is the payload of one of the blocks that
  -- `alloc` gives, which is marked used and has at least the size that was asked for.
  pub alloc-used :
      (alloc size area bs).0 ≢ 0
      → let (p, bs') = alloc size area bs in
        (has (p - 16) area bs' ≡ true)
        × ((block_at (p - 16) area bs').used ≡ 1)
        × (size ≤ (block_at (p - 16) area bs').size)
  alloc-used ne = elim branch [
    | failed e ↦ absurd (ne (ap (λ k. k.0) e))
    | cut here fit room e ↦
        let r = best_block size area bs in
        let c = after r ((block_at r area bs).size - (size + 16)) in
        let (in_new, at_new) = split_at_new r size area bs here room in
        let p : c + 16 - 16 ≡ c = omega arith in
        rw (e, p)
          (
            in_new,
            ap (λ (x : Block). x.used) at_new,
            omega (arith, ap (λ (x : Block). x.size) at_new),
          )
    | whole here fit e ↦
        let r = best_block size area bs in
        let (in_new, at_new) = set_used_at_self r 1 area bs here in
        let p : r + 16 - 16 ≡ r = omega arith in
        rw (e, p) (in_new, ap (λ (x : Block). x.used) at_new, ground (arith, at_new))
  ]

  -- On every heap, each block in use before an allocation is there, unchanged, among the blocks that
  -- `alloc` gives.
  pub alloc-live :
      (b : ℕ)
      → has b area bs ≡ true
      → (block_at b area bs).used ≢ 0
      → (has b area (alloc size area bs).1 ≡ true)
        × (block_at b area (alloc size area bs).1 ≡ block_at b area bs)
  alloc-live b here live = elim branch [
    | failed e ↦ rw e (here, refl)
    | cut _ fit room e ↦
        rw e (split_at_other (best_block size area bs) size b area bs (apart fit) here room)
    | whole _ fit e ↦
        let (h, x) = set_used_at_other (best_block size area bs) 1 b area bs (apart fit) in
        rw e (h ∙ here, x)
  ]
    where
      apart :
          is_fit size (block_at (best_block size area bs) area bs) ≡ true
          → b ≢ best_block size area bs
      apart fit same = live (ground (arith, ap (λ k. block_at k area bs) same))

-- Two blocks do not overlap.
pub blocks_apart :
    (r b a : ℕ) (xs : Blocks)
    → has r a xs ≡ true
    → has b a xs ≡ true
    → b ≢ r
    → (b < r) ⊎ (after r (block_at r a xs).size ≤ b)
blocks_apart r b a [] h h' ne = absurd (ground arith)
blocks_apart r b a (x ∷ xs) h h' ne = elim (Bool-cases (a == r)) [
  | inl at ↦ inr (ground (arith, at, has-le b (after a x.size) xs))
  | inr off ↦ elim (Bool-cases (a == b)) [
    | inl at ↦ inl (ground (arith, at, off, has-le r (after a x.size) xs))
    | inr off' ↦ rw off (blocks_apart r b (after a x.size) xs (rw off at h) (rw off' at h') ne)
  ]
]

-- The payload that is handed out is not that of a block in use.
pub alloc-apart :
    {area : ℕ} {bs : Blocks} {m : Mm}
    → IsHeap area bs m
    → (size b : ℕ) → has b area bs ≡ true
    → (block_at b area bs).used ≢ 0
    → b + 16 ≢ (alloc size area bs).0
alloc-apart {area} {bs} heap size b here live same = elim (branch heap size) [
  | failed e ↦ omega (arith, same, ap (λ k. k.0) e)
  | cut r fit room e ↦
      elim (blocks_apart (best_block size area bs) b area bs r here (live_ne fit)) [
        | inl lt ↦ omega (arith, lt, room, same, ap (λ k. k.0) e)
        | inr le ↦ omega (arith, le, room, same, ap (λ k. k.0) e)
      ]
  | whole r fit e ↦ live_ne fit (omega (arith, same, ap (λ k. k.0) e))
]
  where
    live_ne :
        is_fit size (block_at (best_block size area bs) area bs) ≡ true
        → b ≢ best_block size area bs
    live_ne fit eq = live (ground (arith, ap (λ k. block_at k area bs) eq))
