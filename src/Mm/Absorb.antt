-- ===== src/Mm/Absorb.antt =====
-- The coalescing helpers on the list of blocks.
use shed_kernel.Prelude.{
  ℕ, ◌+◌, ◌≤◌, ◌<◌, ◌≡◌, refl, ap, ◌∙◌, sym, subst, true, false, ◌&&◌, ◌||◌, inl, inr, [], ◌∷◌,
  arith, ltb, ◌==◌, if◌then◌else◌, Bool-cases, ==_iff,
}
use shed_kernel.Mm.{Mm, Node, absorb}
use shed_kernel.Mm.Chain.{Block, Blocks, after, head_at, Chain, has, has-le, Chain-prev}
use shed_kernel.Mm.Update.{join_at, HeaderAt, head_at-ne}

head_at-join_at : (b a c : ℕ) (xs : Blocks) → head_at c (join_at b a xs) ≡ head_at c xs
unfolding join_at
head_at-join_at b a c [] = refl
head_at-join_at b a c (x ∷ []) = refl
head_at-join_at b a c (x ∷ y ∷ xs) = ground arith

-- `b` is a block of size `s`, and `after b s` the one behind it.
module _ (b s : ℕ) (m : Mm) (end : ℕ) (x y : Block) (hd : HeaderAt m end b x) (size : x.size ≡ s)
    (hd' : HeaderAt m end (after b s) y) (small : end < 4294967296) where
  nodes-absorb :
      (a : ℕ)
      → (absorb b (after b s) m).nodes a ≡ (
          if a == b
          then record (m.nodes b) { size = s + (y.size + 16); next = (m.nodes (after b s)).next }
          else if (a == (m.nodes (after b s)).next) && ltb 0 a
          then record (m.nodes a) { prev = b }
          else m.nodes a)
  unfolding absorb
  nodes-absorb a = ground (arith, hd.size, hd'.size, hd'.inside, hd'.next)

  nodes-absorb_past :
      (a : ℕ) → after (after b s) y.size < a → (absorb b (after b s) m).nodes a ≡ m.nodes a
  nodes-absorb_past a h = ground (arith, nodes-absorb a, hd'.next)

  nodes-absorb_before : (a : ℕ) → a < b → (absorb b (after b s) m).nodes a ≡ m.nodes a
  nodes-absorb_before a h = ground (arith, nodes-absorb a, hd'.next)

  nodes-absorb_next :
      (a : ℕ)
      → (m.nodes (after b s)).next ≡ a
      → b < a
      → (absorb b (after b s) m).nodes a ≡ record (m.nodes a) { prev = b }
  nodes-absorb_next a e h = ground (arith, nodes-absorb a)

  absorb_has :
      (a c : ℕ) (ys : Blocks)
      → (a == b) ≡ false
      → a ≤ b
      → ((a == after b s) || has (after b s) c ys) ≡ true
      → has (after b s) c ys ≡ true
  absorb_has a c ys off le h = ground arith

  -- The block at `b` takes in the one behind it.
  pub Chain-absorb :
      (prev a : ℕ) (xs : Blocks)
      → Chain m end prev a xs
      → has b a xs ≡ true
      → has (after b s) a xs ≡ true
      → Chain (absorb b (after b s) m) end prev a (join_at b a xs)
  unfolding join_at
  Chain-absorb prev a [] c h h' = absurd (ground arith)
  Chain-absorb prev a (u ∷ []) c h h' = absurd (ground arith)
  Chain-absorb prev a (u ∷ w ∷ xs) (pos, node, (pos', node', c)) h h' = elim (Bool-cases (a == b)) [
    | inl at ↦
        let at' : a ≡ b = (==_iff a b).0 at in
        let s' : u.size ≡ s =
          ap (λ (n : Node). n.size) (sym node) ∙ ap (λ k. (m.nodes k).size) at' ∙ hd.size ∙ size in
        let here : after a u.size ≡ after b s = omega (arith, at', s') in
        let w' : w.size ≡ y.size =
          ap (λ (n : Node). n.size) (sym node') ∙ ap (λ k. (m.nodes k).size) here ∙ hd'.size in
        let joined : after a (u.size + (w.size + 16)) ≡ after (after a u.size) w.size =
          omega arith in
        rw at (
          pos,
          ground (
            arith,
            nodes-absorb a,
            ap m.nodes here,
            ap m.nodes at',
            node,
            node',
            s',
            w',
            ap (λ k. head_at k xs) joined,
          ),
          rw joined (
              Chain-prev m (absorb b (after b s) m) end (after a u.size) a
                (after (after a u.size) w.size) xs
                (λ ne.
                  subst
                    (λ k.
                      (absorb b (after b s) m).nodes (after (after a u.size) w.size)
                      ≡ record (m.nodes (after (after a u.size) w.size)) { prev = k })
                    (sym at')
                    (nodes-absorb_next (after (after a u.size) w.size)
                      (ap (λ k. (m.nodes k).next) (sym here)
                        ∙ ap (λ (n : Node). n.next) node'
                        ∙ head_at-ne (after (after a u.size) w.size) xs ne)
                      (omega (arith, here, at'))))
                (λ d lt. nodes-absorb_past d (omega (arith, here, w'))) c),
        )
    | inr off ↦ rw off (
      pos,
      nodes-absorb_before a (omega (arith, has-le b (after a u.size) (w ∷ xs) (rw off at h)))
          ∙ node
          ∙ ap (λ k. record { size = u.size; used = u.used; next = k; prev = prev })
              (sym (head_at-join_at b (after a u.size) (after a u.size) (w ∷ xs))),
      Chain-absorb a (after a u.size) (w ∷ xs) (pos', node', c) (rw off at h)
          (absorb_has a (after a u.size) (w ∷ xs) off (has-le b a (u ∷ w ∷ xs) h) h'),
    )
  ]
