-- ===== src/Mm/Apart.antt =====
-- Lists of blocks without two free ones side by side: what the steps of `malloc` and `mem_free` of mm.c
-- do to them.
use shed_kernel.Prelude.{
  ℕ, ◌≤◌, ◌<◌, ◌≡◌, refl, sym, subst, Bool, true, not, ◌&&◌, ◌||◌, inl, inr, [], ◌∷◌, arith, ◌==◌,
  Bool-cases, ==_iff,
}
use shed_kernel.Mm.Chain.{Block, Blocks, after}
use shed_kernel.Mm.Best.{block_at}
use shed_kernel.Mm.Update.{set_used_at, split_at, join_at}
use shed_kernel.Mm.Free.{next_is_free, join_next}

abbrev pub is_coalesced : Blocks → Bool
is_coalesced [] = true
is_coalesced (x ∷ []) = true
is_coalesced (x ∷ y ∷ xs) = not ((x.used == 0) && (y.used == 0)) && is_coalesced (y ∷ xs)

pub coalesced-use :
    (b a : ℕ) (xs : Blocks) → is_coalesced xs ≡ true → is_coalesced (set_used_at b 1 a xs) ≡ true
unfolding set_used_at
coalesced-use b a [] h = refl
coalesced-use b a (x ∷ []) h = ground arith
coalesced-use b a (x ∷ y ∷ xs) h = ground (arith, coalesced-use b (after a x.size) (y ∷ xs))

pub coalesced-split :
    (b size a : ℕ) (xs : Blocks)
    → is_coalesced xs ≡ true
    → is_coalesced (split_at b size a xs) ≡ true
unfolding split_at
coalesced-split b size a [] h = refl
coalesced-split b size a (x ∷ []) h = ground arith
coalesced-split b size a (x ∷ y ∷ xs) h =
    ground (arith, coalesced-split b size (after a x.size) (y ∷ xs))

-- Two free blocks may stand side by side only where one of the two is the block at `b`; or only where
-- the second one is.
abbrev coalesced_but : (b a : ℕ) → Blocks → Bool
coalesced_but b a [] = true
coalesced_but b a (x ∷ []) = true
coalesced_but b a (x ∷ y ∷ xs) =
    (not ((x.used == 0) && (y.used == 0)) || (a == b) || (after a x.size == b))
    && coalesced_but b (after a x.size) (y ∷ xs)

abbrev pub coalesced_left : (b a : ℕ) → Blocks → Bool
coalesced_left b a [] = true
coalesced_left b a (x ∷ []) = true
coalesced_left b a (x ∷ y ∷ xs) =
    (not ((x.used == 0) && (y.used == 0)) || (after a x.size == b))
    && coalesced_left b (after a x.size) (y ∷ xs)

but-coalesced : (b a : ℕ) (xs : Blocks) → is_coalesced xs ≡ true → coalesced_but b a xs ≡ true
but-coalesced b a [] h = refl
but-coalesced b a (x ∷ []) h = refl
but-coalesced b a (x ∷ y ∷ xs) h = ground (arith, but-coalesced b (after a x.size) (y ∷ xs))

pub but-free :
    (b a : ℕ) (xs : Blocks)
    → is_coalesced xs ≡ true
    → coalesced_but b a (set_used_at b 0 a xs) ≡ true
unfolding set_used_at
but-free b a [] h = refl
but-free b a (x ∷ []) h = ground arith
but-free b a (x ∷ y ∷ xs) h =
    ground (arith, but-coalesced b (after a x.size) (y ∷ xs), but-free b (after a x.size) (y ∷ xs))

-- Behind `b` no exception is left.
left-behind :
    (b a : ℕ) (xs : Blocks) → b < a → coalesced_but b a xs ≡ true → coalesced_left b a xs ≡ true
left-behind b a [] lt h = refl
left-behind b a (x ∷ []) lt h = refl
left-behind b a (x ∷ y ∷ xs) lt h = ground (arith, left-behind b (after a x.size) (y ∷ xs))

pub coalesced-behind :
    (b a : ℕ) (xs : Blocks) → b ≤ a → coalesced_left b a xs ≡ true → is_coalesced xs ≡ true
coalesced-behind b a [] lt h = refl
coalesced-behind b a (x ∷ []) lt h = refl
coalesced-behind b a (x ∷ y ∷ xs) lt h =
    ground (arith, coalesced-behind b (after a x.size) (y ∷ xs))

-- The used mark of the first block; that of no block is set.
abbrev pub head_used : Blocks → ℕ
head_used [] = 1
head_used (x ∷ xs) = x.used

pub head_used-join_at : (b a : ℕ) (xs : Blocks) → head_used (join_at b a xs) ≡ head_used xs
unfolding join_at
head_used-join_at b a [] = refl
head_used-join_at b a (x ∷ []) = refl
head_used-join_at b a (x ∷ y ∷ xs) = ground arith

left-cons :
    (b a : ℕ) (x : Block) (xs : Blocks)
    → (not ((x.used == 0) && (head_used xs == 0)) || (after a x.size == b)) ≡ true
    → coalesced_left b (after a x.size) xs ≡ true
    → coalesced_left b a (x ∷ xs) ≡ true
left-cons b a x [] h h' = refl
left-cons b a x (y ∷ xs) h h' = ground (arith, h, h')

pub coalesced-cons :
    (x : Block) (xs : Blocks)
    → not ((x.used == 0) && (head_used xs == 0)) ≡ true
    → is_coalesced xs ≡ true
    → is_coalesced (x ∷ xs) ≡ true
coalesced-cons x [] h h' = refl
coalesced-cons x (y ∷ xs) h h' = ground (arith, h, h')

-- Joined with the block behind it, `b` has no free block behind it.
left-join_next_self :
    (a : ℕ) (x y : Block) (xs : Blocks)
    → x.used ≡ 0
    → coalesced_but a a (x ∷ y ∷ xs) ≡ true
    → coalesced_left a a (join_next a a (x ∷ y ∷ xs)) ≡ true
unfolding join_at
left-join_next_self a x y [] free h = ground arith
left-join_next_self a x y (z ∷ xs) free h =
    let self : (a == a) ≡ true = ground arith in
    rw self (elim (Bool-cases (y.used == 0)) [
      | inl joins ↦
          rw joins
            (ground (arith, joins, h, left-behind a (after (after a x.size) y.size) (z ∷ xs)))
      | inr apart ↦ rw apart (ground (arith, apart, h, left-behind a (after a x.size) (y ∷ z ∷ xs)))
    ])

pub left-join_next :
    (b a : ℕ) (xs : Blocks)
    → (block_at b a xs).used ≡ 0
    → coalesced_but b a xs ≡ true
    → coalesced_left b a (join_next b a xs) ≡ true
unfolding join_at
left-join_next b a [] free h = refl
left-join_next b a (x ∷ []) free h = refl
left-join_next b a (x ∷ y ∷ xs) free h = elim (Bool-cases (a == b)) [
  | inl at ↦
      let same : a ≡ b = (==_iff a b).0 at in
      let self : (a == a) ≡ true = ground arith in
      subst (λ k. coalesced_left k a (join_next k a (x ∷ y ∷ xs)) ≡ true) same
        (left-join_next_self a x y xs (ground (arith, at, free))
          (subst (λ k. coalesced_but k a (x ∷ y ∷ xs) ≡ true) (sym same) h))
  | inr off ↦
      let rest = left-join_next b (after a x.size) (y ∷ xs) (rw off at free) (ground (arith, h)) in
      let c = next_is_free b (after a x.size) (y ∷ xs) in
      let apart : (not ((x.used == 0) && (y.used == 0)) || (after a x.size == b)) ≡ true =
        ground (arith, off, h) in
      elim (Bool-cases c) [
        | inl joins ↦
            rw (off, joins)
              (left-cons b a x (join_at b (after a x.size) (y ∷ xs))
                (rw (head_used-join_at b (after a x.size) (y ∷ xs)) apart) (rw joins at rest))
        | inr stays ↦ rw (off, stays) (left-cons b a x (y ∷ xs) apart (rw stays at rest))
      ]
]
