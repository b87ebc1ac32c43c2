-- ===== src/Mm/Resize.antt =====
-- `realloc` of mm.c: it allocates, copies the payload, and frees.
use shed_kernel.Prelude.{
  ℕ, zero, suc, ◌+◌, ◌-◌, ◌%◌, ◌≤◌, ◌<◌, ◌≡◌, refl, ap, ◌∙◌, sym, ◌≢◌, Bool, true, false, ◌||◌,
  Option, none, some, ◌⊎◌, inl, inr, arith, ltb, leb, ◌==◌, if◌then◌else◌, Bool-cases, ==_iff,
}
use shed_kernel.Mm.{
  Mm, chain_fuel, set_node, set_prev_of, find_best_mem_block, carve, malloc_in, malloc_fuel, malloc,
  absorb, merge_next_node_into_current, merge_current_node_into_previous, mem_free, copy_bytes,
  realloc,
}
use shed_kernel.Mm.Chain.{Blocks, has, has-le, Chain-frame}
use shed_kernel.Mm.Best.{block_at}
use shed_kernel.Mm.Update.{header_at}
use shed_kernel.Mm.Malloc.{IsHeap, alloc, malloc-alloc}
use shed_kernel.Mm.Alloc.{alloc-used, alloc-live, alloc-apart, blocks_apart}
use shed_kernel.Mm.Free.{release}
use shed_kernel.Mm.Release.{mem_free-release}

-- The functions of the heap write headers only.
bytes-set_prev_of : (next p : ℕ) (m : Mm) → (set_prev_of next p m).bytes ≡ m.bytes
bytes-set_prev_of next p m = elim (Bool-cases (next == 0)) [ inl z ↦ rw z refl | inr z ↦ rw z refl ]

bytes-carve : (b size : ℕ) (m : Mm) → (carve b size m).1.bytes ≡ m.bytes
unfolding carve
bytes-carve b size m = bytes-set_prev_of (m.nodes b).next (b + 16 + (m.nodes b).size - size - 16) _

bytes-malloc_in : (b size : ℕ) (m : Mm) → (malloc_in b size m).1.bytes ≡ m.bytes
unfolding malloc_in
bytes-malloc_in b size m = elim (Bool-cases (b == 0)) [
  | inl z ↦ rw z refl
  | inr z ↦ elim (Bool-cases (leb ((size + 16) % 4294967296) (m.nodes b).size)) [
    | inl room ↦ rw (z, room) (bytes-carve b size m)
    | inr room ↦ rw (z, room) refl
  ]
]

bytes-absorb : (node next : ℕ) (m : Mm) → (absorb node next m).bytes ≡ m.bytes
unfolding absorb
bytes-absorb node next m = bytes-set_prev_of (m.nodes next).next node _

bytes-absorb_if :
    (c : Bool) (node next : ℕ) (m : Mm) → (if c then absorb node next m else m).bytes ≡ m.bytes
bytes-absorb_if true node next m = bytes-absorb node next m
bytes-absorb_if false node next m = refl

bytes-merge_next : (node : ℕ) (m : Mm) → (merge_next_node_into_current node m).bytes ≡ m.bytes
unfolding merge_next_node_into_current
bytes-merge_next node m = bytes-absorb_if _ node (m.nodes node).next m

bytes-merge_previous :
    (node : ℕ) (m : Mm) → (merge_current_node_into_previous node m).bytes ≡ m.bytes
unfolding merge_current_node_into_previous
bytes-merge_previous node m = bytes-absorb_if _ (m.nodes node).prev node m

bytes-mem_free : (p : ℕ) (m : Mm) → (mem_free p m).bytes ≡ m.bytes
unfolding mem_free
bytes-mem_free p m =
    let node = (p + 4294967296 - 16) % 4294967296 in
    let m1 = set_node node (record (m.nodes node) { used = 0 }) m in
    elim (Bool-cases (p == 0 || (node == 0))) [
      | inl z ↦ rw z refl
      | inr z ↦ rw z (
          bytes-merge_previous node (merge_next_node_into_current node m1)
          ∙ bytes-merge_next node m1)
    ]

-- What `malloc` hands out comes from `malloc_in`.
bytes-malloc : (size p : ℕ) (m m' : Mm) → malloc size m ≡ some (p, m') → m'.bytes ≡ m.bytes
unfolding malloc malloc_fuel
bytes-malloc size p m m' = go (find_best_mem_block chain_fuel m.dynamic_mem_start size m)
  where
    go :
        (b : Option ℕ)
        → elim b [ none ↦ none | some block ↦ some (malloc_in block size m) ] ≡ some (p, m')
        → m'.bytes ≡ m.bytes
    go none e = absurd (ground arith)
    go (some b) e =
        ap (λ o. elim o [ none ↦ m.bytes | some r ↦ r.1.bytes ]) (sym e) ∙ bytes-malloc_in b size m

-- What is copied between two places that do not overlap.
copy_bytes-at :
    (n i src dst j : ℕ) (bytes : ℕ → ℕ)
    → (src + (i + n) ≤ dst) ⊎ (dst + (i + n) ≤ src)
    → j < i + n
    → copy_bytes n i src dst bytes (dst + j)
      ≡ (if leb i j then bytes (src + j) else bytes (dst + j))
unfolding copy_bytes
copy_bytes-at zero i src dst j bytes apart inside = ground arith
copy_bytes-at (suc n) i src dst j bytes apart inside =
    copy_bytes-at n (i + 1) src dst j (λ a. if a == dst + i then bytes (src + i) else bytes a)
      (ground (arith, apart)) (omega arith)
    ∙ step (Bool-cases (j == i))
  where
    step :
        ((j == i) ≡ true) ⊎ ((j == i) ≡ false)
        → (if leb (i + 1) j
            then (if src + j == dst + i then bytes (src + i) else bytes (src + j))
            else if dst + j == dst + i
            then bytes (src + i)
            else bytes (dst + j))
          ≡ (if leb i j then bytes (src + j) else bytes (dst + j))
    step (inl at) = let e : j ≡ i = ground (arith, at) in rw e (ground arith)
    step (inr off) = ground (arith, off, apart, inside)

-- What `realloc` does to the blocks for the payload of block `b` and a size other than 0: the pointer
-- that it returns, and the new blocks.
unfoldable pub resize : (size b area : ℕ) → Blocks → ℕ × Blocks
resize size b area bs =
    let r = alloc size area bs in
    if leb size (block_at b area bs).size
    then (b + 16, bs)
    else if r.0 == 0
    then r
    else (r.0, release b area r.1)

module _ {area : ℕ} {bs : Blocks} {m : Mm} (heap : IsHeap area bs m) (b size : ℕ)
    (here : has b area bs ≡ true) (live : (block_at b area bs).used ≢ 0)
    (inside : b + 16 < area + 1048576) (some_bytes : 0 < size) (small : size < 4294967296) where
  -- The payload of the new block is apart from that of `b`.
  alloc-disjoint :
      (alloc size area bs).0 ≢ 0
      → (block_at b area bs).size < size
      → let p = (alloc size area bs).0 in
        let old = (block_at b area bs).size in (b + 16 + old ≤ p) ⊎ (p + old ≤ b + 16)
  alloc-disjoint ne larger =
      let (h1, x1) = alloc-live heap size b here live in
      let (h2, u2, s2) = alloc-used heap size ne in
      let p = (alloc size area bs).0 in
      let bs1 = (alloc size area bs).1 in
      let high : area ≤ p - 16 = has-le (p - 16) area bs1 h2 in
      let other : p - 16 ≢ b =
        λ e. alloc-apart heap size b here live (omega (arith, e, high, heap.pos)) in
      let old : (block_at b area bs1).size ≡ (block_at b area bs).size = ap (λ x. x.size) x1 in
      elim (blocks_apart (p - 16) b area bs1 h2 h1 (λ e. other (sym e))) [
        | inr above ↦ inr (omega (arith, above, larger, s2, high, heap.pos))
        | inl below ↦ elim (blocks_apart b (p - 16) area bs1 h1 h2 other) [
          | inl above ↦ absurd (omega (arith, above, below))
          | inr below' ↦ inl (omega (arith, below', old))
        ]
      ]

  -- The case in which the payload moves.
  realloc-moves :
      (m1 : Mm)
      → malloc size m ≡ some ((alloc size area bs).0, m1)
      → IsHeap area (alloc size area bs).1 m1
      → (alloc size area bs).0 ≢ 0
      → (block_at b area bs).size < size
      → let p = (alloc size area bs).0 in
        let m2 =
          mem_free (b + 16) (record m1 {
            bytes = copy_bytes (m1.nodes (b + 16 - 16)).size 0 (b + 16) p m1.bytes;
          }) in
        IsHeap area (release b area (alloc size area bs).1) m2
        × ((j : ℕ) → j < (block_at b area bs).size → m2.bytes (p + j) ≡ m.bytes (b + 16 + j))
  realloc-moves m1 done heap1 ne larger =
      let p = (alloc size area bs).0 in
      let bs1 = (alloc size area bs).1 in
      let (h1, x1) = alloc-live heap size b here live in
      let hd = header_at b m1 (area + 1048576) 0 area bs1 heap1.chain h1 in
      let at : b + 16 - 16 ≡ b = omega arith in
      let old : (m1.nodes (b + 16 - 16)).size ≡ (block_at b area bs).size =
        rw (at) (hd.size ∙ ap (λ x. x.size) x1) in
      let copied = record m1 {
        bytes = copy_bytes (m1.nodes (b + 16 - 16)).size 0 (b + 16) p m1.bytes;
      } in
      let heap2 : IsHeap area bs1 copied = record {
        chain = Chain-frame m1 copied (area + 1048576) 0 area bs1 (λ a h. refl) heap1.chain;
        start = heap1.start;
        pos = heap1.pos;
        below = heap1.below;
      } in
      (
        mem_free-release area bs1 copied heap2 b h1,
        λ j h.
            ap (λ f. f (p + j)) (bytes-mem_free (b + 16) copied)
            ∙ copy_bytes-at (m1.nodes (b + 16 - 16)).size 0 (b + 16) p j m1.bytes
                (ground (arith, old, alloc-disjoint ne larger)) (omega (arith, old, h))
            ∙ ground (arith, ap (λ f. f (b + 16 + j)) (bytes-malloc size p m m1 done)),
      )

  -- On every heap, `realloc` of the payload of a block in use, where the payload starts below the
  -- end of the area, to a 32-bit size other than 0 returns the pointer that `resize` gives and
  -- leaves a heap of the blocks that `resize` gives. If the pointer is not NULL, each byte of the
  -- old payload stands at the same place behind it.
  pub realloc-resize :
      (j : ℕ)
      → j < (block_at b area bs).size
      → let (p, bs') = resize size b area bs in
        (m' : Mm) × (realloc area (b + 16) size m ≡ some (p, m'))
        × IsHeap area bs' m'
        × ((p ≡ 0) ⊎ (m'.bytes (p + j) ≡ m.bytes (b + 16 + j)))
  unfolding realloc resize
  realloc-resize j below_old =
      let hd = header_at b m (area + 1048576) 0 area bs heap.chain here in
      let not_null : (b + 16 == 0) ≡ false = ground arith in
      let not_zero : (size == 0) ≡ false = ground (arith, some_bytes) in
      let in_area : (ltb (b + 16) area || leb (area + 1048576) (b + 16)) ≡ false =
        ground (arith, inside, has-le b area bs here) in
      let at : b + 16 - 16 ≡ b = omega arith in
      elim (Bool-cases (leb size (block_at b area bs).size)) [
        | inl fits ↦ rw (not_null, not_zero, in_area, at, hd.size, fits) (m, refl, heap, inr refl)
        | inr large ↦
            let (m1, e, heap1) = malloc-alloc area bs m heap size small in
            elim (Bool-cases ((alloc size area bs).0 == 0)) [
              | inl z ↦
                  rw (not_null, not_zero, in_area, at, hd.size, large, e, z)
                    (
                      m1,
                      ap (λ p. some (p, m1)) (sym ((==_iff (alloc size area bs).0 0).0 z)),
                      heap1,
                      inl ((==_iff (alloc size area bs).0 0).0 z),
                    )
              | inr some_p ↦
                  let ne : (alloc size area bs).0 ≢ 0 = λ z. ground (arith, some_p, z) in
                  let (h, kept) = realloc-moves m1 e heap1 ne (ground (arith, large)) in
                  rw (not_null, not_zero, in_area, at, hd.size, large, e, some_p)
                    (_, refl, h, inr (kept j below_old))
            ]
      ]
