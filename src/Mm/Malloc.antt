-- ===== src/Mm/Malloc.antt =====
-- `malloc` of mm.c on the list of blocks.
use shed_kernel.Prelude.{
  ℕ, ◌+◌, ◌-◌, ◌*◌, ◌%◌, ◌≤◌, ◌<◌, ◌≡◌, refl, ap, ap₂, ◌∙◌, sym, subst, Bool, true, false, inl, inr,
  some, [], ◌∷◌, arith, length, leb, ◌==◌, if◌then◌else◌, Bool-cases,
}
use shed_kernel.Mm.{
  Mm, chain_fuel, init_dynamic_mem, find_loop, find_best_mem_block, carve, malloc_in, malloc_fuel,
  malloc,
}
use shed_kernel.Mm.Chain.{Block, block, Blocks, after, head_at, Chain}
use shed_kernel.Mm.Best.{block_at, best_of, find_loop-best_of, best_of-cases}
use shed_kernel.Mm.Update.{
  set_used_at, split_at, Chain-set_used_at, HeaderAt, header_at, Chain-carve,
}

-- The heap in `dynamic_mem_area` consists of the given blocks.
pub record IsHeap (area : ℕ) (bs : Blocks) (m : Mm) : Type 0 where
  pub chain : Chain m (area + 1048576) 0 area bs
  pub start : m.dynamic_mem_start ≡ area
  pub pos : 0 < area
  pub below : area + 1048576 < 4294967296

pub init_dynamic_mem-IsHeap :
    (area : ℕ) (m : Mm)
    → 0 < area
    → area + 1048576 < 4294967296
    → IsHeap area (block 1048560 0 ∷ []) (init_dynamic_mem area m)
unfolding init_dynamic_mem
init_dynamic_mem-IsHeap area m pos below = record {
  chain = (pos, ground arith, omega arith);
  start = refl;
  pos = pos;
  below = below;
}

-- Each block takes at least 16 bytes.
Chain-length :
    (m : Mm) (end prev a : ℕ) (xs : Blocks) → Chain m end prev a xs → a + 16 * length xs ≤ end
Chain-length m end prev a [] c = omega arith
Chain-length m end prev a (x ∷ xs) (pos, node, c) =
    omega (arith, Chain-length m end a (after a x.size) xs c)

-- What `malloc` does to the blocks: the pointer that it returns, and the new blocks.
abbrev pub best_block : (size area : ℕ) → Blocks → ℕ
best_block size area bs = (best_of size area bs 0 1048577).0

unfoldable pub alloc : (size area : ℕ) → Blocks → ℕ × Blocks
alloc size area bs =
    let r = best_block size area bs in
    let s = (block_at r area bs).size in
    if r == 0
    then (0, bs)
    else if leb (size + 16) s
    then (after r (s - (size + 16)) + 16, split_at r size area bs)
    else (r + 16, set_used_at r 1 area bs)

module _ (area : ℕ) (bs : Blocks) (m : Mm) (heap : IsHeap area bs m) where
  head_at-area : head_at area bs ≡ area
  head_at-area = go bs heap.chain
    where
      go : (xs : Blocks) → Chain m (area + 1048576) 0 area xs → head_at area xs ≡ area
      go [] c = absurd (omega arith)
      go (x ∷ xs) c = refl

  find_best_mem_block-best :
      (f size : ℕ)
      → length bs < f
      → find_best_mem_block f m.dynamic_mem_start size m ≡ some (best_block size area bs)
  unfolding find_best_mem_block
  find_best_mem_block-best f size h =
      subst (λ k. find_loop f size k 0 1048577 m ≡ some (best_block size area bs))
        (head_at-area ∙ sym heap.start)
        (find_loop-best_of f size 0 1048577 m (area + 1048576) 0 area bs heap.chain h)

  start-carve : (b size : ℕ) → (carve b size m).1.dynamic_mem_start ≡ m.dynamic_mem_start
  unfolding carve
  start-carve b size = ground arith

  pointer-carve :
      (b size : ℕ) (x : Block)
      → HeaderAt m (area + 1048576) b x
      → size + 16 ≤ x.size
      → (carve b size m).0 ≡ after b (x.size - (size + 16)) + 16
  unfolding carve
  pointer-carve b size x hd room = omega (arith, hd.size)

  malloc_in-best :
      (size : ℕ)
      → size < 4294967296
      → let r = best_block size area bs in
        ((malloc_in r size m).0 ≡ (alloc size area bs).0)
        × IsHeap area (alloc size area bs).1 (malloc_in r size m).1
  unfolding malloc_in alloc
  malloc_in-best size small = elim (best_of-cases size area bs 0 1048577) [
    | inl (none_fits, _) ↦ rw none_fits (refl, heap)
    | inr (here, fit, _) ↦
        let r = best_block size area bs in
        let x = block_at r area bs in
        let hd = header_at r m (area + 1048576) 0 area bs heap.chain here in
        let ne : (r == 0) ≡ false = ground (arith, hd.pos) in
        let wrap : (size + 16) % 4294967296 ≡ size + 16 =
          ground (arith, hd.inside, heap.below, fit) in
        let test : (b : Bool)
            → leb (size + 16) x.size ≡ b
            → leb ((size + 16) % 4294967296) (m.nodes r).size ≡ b =
          λ b e. ap₂ leb wrap hd.size ∙ e in
        elim (Bool-cases (leb (size + 16) x.size)) [
          | inl room ↦
              rw (ne, test true room, room)
                (
                  pointer-carve r size x hd (ground arith),
                  record {
                    chain =
                        Chain-carve r size m (area + 1048576) x hd heap.below (ground arith) 0 area
                          bs heap.chain here refl;
                    start = start-carve r size ∙ heap.start;
                    pos = heap.pos;
                    below = heap.below;
                  },
                )
          | inr tight ↦
              rw (ne, test false tight, tight)
                (
                  refl,
                  record {
                    chain = Chain-set_used_at r 1 m (area + 1048576) 0 area bs heap.chain;
                    start = heap.start;
                    pos = heap.pos;
                    below = heap.below;
                  },
                )
        ]
  ]

  malloc_fuel-alloc :
      (f size : ℕ)
      → length bs < f
      → malloc_fuel f size m ≡ some (malloc_in (best_block size area bs) size m)
  unfolding malloc_fuel
  malloc_fuel-alloc f size h = rw (find_best_mem_block-best f size h, malloc_fuel) refl

  -- On every heap of blocks `malloc` returns, for every 32-bit size, the pointer that `alloc` gives,
  -- and leaves a heap of the blocks that `alloc` gives: `chain_fuel` rounds are enough.
  pub malloc-alloc :
      (size : ℕ)
      → size < 4294967296
      → (m' : Mm) × (malloc size m ≡ some ((alloc size area bs).0, m'))
        × IsHeap area (alloc size area bs).1 m'
  unfolding malloc
  malloc-alloc size small =
      let r = best_block size area bs in
      let (p, h) = malloc_in-best size small in
      (
        (malloc_in r size m).1,
        malloc_fuel-alloc chain_fuel size
              (omega (arith, Chain-length m (area + 1048576) 0 area bs heap.chain))
            ∙ ap (λ k. some (k, (malloc_in r size m).1)) p,
        h,
      )
