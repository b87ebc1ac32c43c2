-- ===== src/Mm/Release.antt =====
-- `mem_free` of mm.c and its two coalescing helpers on the heap.
use shed_kernel.Prelude.{
  ℕ, ◌+◌, ◌-◌, ◌%◌, ◌<◌, ◌≡◌, refl, ap, ◌∙◌, sym, subst, Bool, true, false, not, ◌&&◌, inl, inr,
  arith, ◌==◌, if◌then◌else◌, Bool-cases,
}
use shed_kernel.Mm.{
  Mm, set_node, absorb, merge_next_node_into_current, merge_current_node_into_previous, mem_free,
}
use shed_kernel.Mm.Chain.{Blocks, after, has}
use shed_kernel.Mm.Best.{block_at}
use shed_kernel.Mm.Update.{set_used_at, join_at, Chain-set_used_at, header_at}
use shed_kernel.Mm.Malloc.{IsHeap}
use shed_kernel.Mm.Absorb.{Chain-absorb}
use shed_kernel.Mm.Free.{
  prev_at, next_is_free, join_next, join_prev, release, has-set_used_at, has-join_at_self,
  prev_at-cases, prev-header, next-cases,
}

start-absorb : (b x : ℕ) (m : Mm) → (absorb b x m).dynamic_mem_start ≡ m.dynamic_mem_start
unfolding absorb
start-absorb b x m = ground arith

module _ (area : ℕ) (bs : Blocks) (m : Mm) (heap : IsHeap area bs m) (b : ℕ)
    (here : has b area bs ≡ true) where
  -- The two blocks at `p` and behind it become one.
  absorb-IsHeap :
      (p n : ℕ)
      → has p area bs ≡ true
      → after p (block_at p area bs).size ≡ n
      → has n area bs ≡ true
      → IsHeap area (join_at p area bs) (absorb p n m)
  absorb-IsHeap p n in_p e in_n =
      let x = block_at p area bs in
      subst (λ k. IsHeap area (join_at p area bs) (absorb p k m)) e
        (record {
          chain =
              Chain-absorb p x.size m (area + 1048576) x (block_at (after p x.size) area bs)
                (header_at p m (area + 1048576) 0 area bs heap.chain in_p) refl
                (header_at (after p x.size) m (area + 1048576) 0 area bs heap.chain (rw e in_n))
                heap.below 0 area bs heap.chain in_p (rw e in_n);
          start = start-absorb p (after p x.size) m ∙ heap.start;
          pos = heap.pos;
          below = heap.below;
        })

  absorb_if :
      (t t' : Bool) (p n : ℕ)
      → t' ≡ t
      → IsHeap area (join_at p area bs) (absorb p n m)
      → IsHeap area (if t then join_at p area bs else bs) (if t' then absorb p n m else m)
  absorb_if true t' p n e h = rw e h
  absorb_if false t' p n e h = rw e heap

  merge_next-join_next : IsHeap area (join_next b area bs) (merge_next_node_into_current b m)
  unfolding merge_next_node_into_current
  merge_next-join_next = elim (next-cases b m (area + 1048576) 0 area bs heap.chain here) [
    | inl (e, f) ↦ rw (e, f) heap
    | inr (e, h, f) ↦
        let n = (m.nodes b).next in
        let in_n : has n area bs ≡ true = rw e h in
        let hd = header_at n m (area + 1048576) 0 area bs heap.chain in_n in
        absorb_if (next_is_free b area bs) (not (n == 0) && ((m.nodes n).used == 0)) b n
          (test_next n hd.pos hd.used (ap (λ k. (block_at k area bs).used) e) f)
          (absorb-IsHeap b n here (sym e) in_n)
  ]
    where
      test_next :
          (n : ℕ)
          → 0 < n
          → (m.nodes n).used ≡ (block_at n area bs).used
          → (block_at n area bs).used ≡ (block_at (after b (block_at b area bs).size) area bs).used
          → next_is_free b area bs
            ≡ ((block_at (after b (block_at b area bs).size) area bs).used == 0)
          → (not (n == 0) && ((m.nodes n).used == 0)) ≡ next_is_free b area bs
      test_next n pos used same f =
          let z : (n == 0) ≡ false = ground arith in rw (z, used, same, f) refl

  merge_previous-join_prev :
      IsHeap area (join_prev b area bs) (merge_current_node_into_previous b m)
  unfolding merge_current_node_into_previous
  merge_previous-join_prev =
      let e = prev-header b m (area + 1048576) 0 area bs heap.chain here in
      elim (prev_at-cases b m (area + 1048576) 0 area bs heap.chain here) [
        | inl (z, _) ↦ rw (e, z) heap
        | inr (h, f) ↦
            let p = prev_at b 0 area bs in
            let hd = header_at p m (area + 1048576) 0 area bs heap.chain h in
            rw e (
              absorb_if (not (p == 0) && ((block_at p area bs).used == 0))
                (not (p == 0) && ((m.nodes p).used == 0)) p b (rw hd.used refl)
                (absorb-IsHeap p b h f here))
      ]

module _ (area : ℕ) (bs : Blocks) (m : Mm) (heap : IsHeap area bs m) (b : ℕ)
    (here : has b area bs ≡ true) where
  -- On every heap, `mem_free` of the payload of one of its blocks leaves a heap of the blocks that
  -- `release` gives: that block marked free, and joined with the next and with the previous block
  -- where these are free.
  pub mem_free-release : IsHeap area (release b area bs) (mem_free (b + 16) m)
  unfolding mem_free release
  mem_free-release =
      let bs1 = set_used_at b 0 area bs in
      let m1 = set_node b (record (m.nodes b) { used = 0 }) m in
      let heap1 : IsHeap area bs1 m1 = record {
        chain = Chain-set_used_at b 0 m (area + 1048576) 0 area bs heap.chain;
        start = heap.start;
        pos = heap.pos;
        below = heap.below;
      } in
      let hd = header_at b m (area + 1048576) 0 area bs heap.chain here in
      let at : (b + 16 + 4294967296 - 16) % 4294967296 ≡ b = omega (arith, hd.inside, heap.below) in
      let ne : (b + 16 == 0) ≡ false = ground arith in
      let ne' : (b == 0) ≡ false = ground (arith, hd.pos) in
      let in1 : has b area bs1 ≡ true = has-set_used_at b 0 b area bs ∙ here in
      let heap2 = merge_next-join_next area bs1 m1 heap1 b in1 in
      rw (at, ne, ne')
        (merge_previous-join_prev area (join_next b area bs1) (merge_next_node_into_current b m1)
          heap2 b (has_join b bs1 in1))
    where
      has_join :
          (c : ℕ) (xs : Blocks) → has c area xs ≡ true → has c area (join_next c area xs) ≡ true
      has_join c xs h = elim (Bool-cases (next_is_free c area xs)) [
        | inl f ↦ rw f (has-join_at_self c area xs ∙ h)
        | inr f ↦ rw f h
      ]
