-- ===== src/Mm/Coalesced.antt =====
-- The heap of mm.c has no two free blocks side by side: `malloc` and `mem_free` keep it so.
use shed_kernel.Prelude.{
  ℕ, ◌+◌, ◌≤◌, ◌<◌, ◌≡◌, refl, ◌∙◌, sym, subst, true, false, not, ◌&&◌, inl, inr, some, [], ◌∷◌,
  arith, ◌==◌, if◌then◌else◌, Bool-cases,
}
use shed_kernel.Mm.Chain.{Block, Blocks, after, has, has-le}
use shed_kernel.Mm.Best.{block_at}
use shed_kernel.Mm.Update.{set_used_at, join_at}
use shed_kernel.Mm.Malloc.{IsHeap, alloc, best_block, malloc-alloc}
use shed_kernel.Mm.Release.{mem_free-release}
use shed_kernel.Mm.{Mm, malloc, mem_free}
use shed_kernel.Mm.Free.{
  prev_at, next_is_free, join_next, join_prev, release, has-set_used_at, has-join_at_self,
}
use shed_kernel.Mm.Apart.{
  is_coalesced, coalesced-use, coalesced-split, coalesced_left, but-free, coalesced-behind,
  head_used, head_used-join_at, coalesced-cons, left-join_next,
}

abbrev join_if_free : (p a : ℕ) → Blocks → Blocks
join_if_free p a xs = if (block_at p a xs).used == 0 then join_at p a xs else xs

-- `join_prev` without the test for a previous block, which there is.
abbrev join_before : (b prev a : ℕ) → Blocks → Blocks
join_before b prev a xs = join_if_free (prev_at b prev a xs) a xs

prev_at-le :
    (b prev a : ℕ) (xs : Blocks) → has b a xs ≡ true → prev ≤ a → prev ≤ prev_at b prev a xs
prev_at-le b prev a [] h lt = absurd (ground arith)
prev_at-le b prev a (x ∷ xs) h lt = elim (Bool-cases (a == b)) [
  | inl at ↦ rw at (omega arith)
  | inr off ↦ rw off (omega (arith, prev_at-le b a (after a x.size) xs (rw off at h) (omega arith)))
]

head_used-behind :
    (y : Block) (xs : Blocks)
    → y.used ≡ 0
    → is_coalesced (y ∷ xs) ≡ true
    → (head_used xs == 0) ≡ false
head_used-behind y [] free h = refl
head_used-behind y (z ∷ xs) free h = ground (arith, free, h)

coalesced-tail : (y : Block) (xs : Blocks) → is_coalesced (y ∷ xs) ≡ true → is_coalesced xs ≡ true
coalesced-tail y [] h = refl
coalesced-tail y (z ∷ xs) h = ground (arith, h)

coalesced-later :
    (p a : ℕ) (x y : Block) (xs : Blocks)
    → (a == p) ≡ false
    → not ((x.used == 0) && (y.used == 0)) ≡ true
    → is_coalesced (join_if_free p (after a x.size) (y ∷ xs)) ≡ true
    → is_coalesced (join_if_free p a (x ∷ y ∷ xs)) ≡ true
unfolding join_at
coalesced-later p a x y xs ne apart ih =
    let c = after a x.size in
    elim (Bool-cases ((block_at p c (y ∷ xs)).used == 0)) [
      | inl joins ↦
          rw (ne, joins)
            (coalesced-cons x (join_at p c (y ∷ xs)) (rw (head_used-join_at p c (y ∷ xs)) apart)
              (rw joins at ih))
      | inr stays ↦ rw (ne, stays) (coalesced-cons x (y ∷ xs) apart (rw stays at ih))
    ]

coalesced-join_before :
    (b prev a : ℕ) (x : Block) (xs : Blocks)
    → has b a (x ∷ xs) ≡ true
    → a < b
    → (block_at b a (x ∷ xs)).used ≡ 0
    → coalesced_left b a (x ∷ xs) ≡ true
    → is_coalesced (join_before b prev a (x ∷ xs)) ≡ true
unfolding join_at
coalesced-join_before b prev a x [] here lt free h = absurd (ground arith)
coalesced-join_before b prev a x (y ∷ xs) here lt free h =
    let off : (a == b) ≡ false = ground arith in
    elim (Bool-cases (after a x.size == b)) [
      | inl next ↦
          let self : (a == a) ≡ true = ground arith in
          let free_y : y.used ≡ 0 = ground (arith, off, next, free) in
          let behind : is_coalesced (y ∷ xs) ≡ true =
            coalesced-behind b (after a x.size) (y ∷ xs) (ground (arith, next))
              (ground (arith, h)) in
          elim (Bool-cases (x.used == 0)) [
            | inl joins ↦
                rw (off, next, self, joins)
                  (coalesced-cons (record x { size = x.size + (y.size + 16) }) xs
                    (rw (head_used-behind y xs free_y behind) (ground arith))
                    (coalesced-tail y xs behind))
            | inr stays ↦
                rw (off, next, self, stays) (coalesced-cons x (y ∷ xs) (rw stays refl) behind)
          ]
      | inr later ↦
          let c = after a x.size in
          let p = prev_at b a c (y ∷ xs) in
          let here' : has b c (y ∷ xs) ≡ true = rw off at here in
          let ih =
            coalesced-join_before b a c y xs here'
              (ground (arith, later, has-le b c (y ∷ xs) here')) (rw off at free)
              (ground (arith, h)) in
          let high : c ≤ p =
            rw later (prev_at-le b c (after c y.size) xs (rw later at here') (omega arith)) in
          let ne : (a == p) ≡ false = ground (arith, high) in
          let apart : not ((x.used == 0) && (y.used == 0)) ≡ true = ground (arith, later, h) in
          let same : prev_at b prev a (x ∷ y ∷ xs) ≡ p = rw off refl in
          subst (λ k. is_coalesced (join_if_free k a (x ∷ y ∷ xs)) ≡ true) (sym same)
            (coalesced-later p a x y xs ne apart ih)
    ]

used-set_used_at :
    (b u a : ℕ) (xs : Blocks) → has b a xs ≡ true → (block_at b a (set_used_at b u a xs)).used ≡ u
unfolding set_used_at
used-set_used_at b u a [] h = absurd (ground arith)
used-set_used_at b u a (x ∷ xs) h = ground (arith, used-set_used_at b u (after a x.size) xs)

used-join_at :
    (b a : ℕ) (xs : Blocks) → (block_at b a (join_at b a xs)).used ≡ (block_at b a xs).used
unfolding join_at
used-join_at b a [] = refl
used-join_at b a (x ∷ []) = refl
used-join_at b a (x ∷ y ∷ xs) = ground (arith, used-join_at b (after a x.size) (y ∷ xs))

used-join_next :
    (b a : ℕ) (xs : Blocks) → (block_at b a (join_next b a xs)).used ≡ (block_at b a xs).used
used-join_next b a xs = elim (Bool-cases (next_is_free b a xs)) [
  | inl joins ↦ rw joins (used-join_at b a xs)
  | inr stays ↦ rw stays refl
]

has-join_next : (b a : ℕ) (xs : Blocks) → has b a (join_next b a xs) ≡ has b a xs
has-join_next b a xs = elim (Bool-cases (next_is_free b a xs)) [
  | inl joins ↦ rw joins (has-join_at_self b a xs)
  | inr stays ↦ rw stays refl
]

coalesced-join_prev :
    (b a : ℕ) (xs : Blocks)
    → 0 < a
    → has b a xs ≡ true
    → (block_at b a xs).used ≡ 0
    → coalesced_left b a xs ≡ true
    → is_coalesced (join_prev b a xs) ≡ true
coalesced-join_prev b a [] pos here free h = absurd (ground arith)
coalesced-join_prev b a (x ∷ xs) pos here free h = elim (Bool-cases (a == b)) [
  | inl at ↦ rw at (coalesced-behind b a (x ∷ xs) (ground (arith, at)) h)
  | inr off ↦
      let p = prev_at b 0 a (x ∷ xs) in
      let high : a ≤ p =
        rw off (prev_at-le b a (after a x.size) xs (rw off at here) (omega arith)) in
      let some_p : (p == 0) ≡ false = ground (arith, high) in
      rw some_p (
        coalesced-join_before b 0 a x xs here (ground (arith, off, has-le b a (x ∷ xs) here)) free
          h)
]

-- `release` and `alloc`, which `mem_free` and `malloc` implement, keep free blocks apart.
pub release-is_coalesced :
    (b a : ℕ) (bs : Blocks)
    → 0 < a
    → has b a bs ≡ true
    → is_coalesced bs ≡ true
    → is_coalesced (release b a bs) ≡ true
unfolding release
release-is_coalesced b a bs pos here h =
    let bs1 = set_used_at b 0 a bs in
    let here1 : has b a bs1 ≡ true = has-set_used_at b 0 b a bs ∙ here in
    let free1 = used-set_used_at b 0 a bs here in
    coalesced-join_prev b a (join_next b a bs1) pos (has-join_next b a bs1 ∙ here1)
      (used-join_next b a bs1 ∙ free1) (left-join_next b a bs1 free1 (but-free b a bs h))

pub alloc-is_coalesced :
    (size a : ℕ) (bs : Blocks) → is_coalesced bs ≡ true → is_coalesced (alloc size a bs).1 ≡ true
unfolding alloc
alloc-is_coalesced size a bs h =
    let r = best_block size a bs in
    ground (arith, h, coalesced-split r size a bs h, coalesced-use r a bs h)

-- On a heap without two free blocks side by side, `malloc` returns, for every 32-bit size, and leaves
-- such a heap, and so does `mem_free` of the payload of each of its blocks.
pub mem_free-malloc-is_coalesced :
    {area : ℕ} {bs : Blocks} {m : Mm} (size b : ℕ)
    → IsHeap area bs m
    → is_coalesced bs ≡ true
    → size < 4294967296
    → has b area bs ≡ true
    → ((p : ℕ) × (m' : Mm) × (bs' : Blocks) × (malloc size m ≡ some (p, m'))
        × IsHeap area bs' m'
        × (is_coalesced bs' ≡ true))
      × ((bs' : Blocks) × IsHeap area bs' (mem_free (b + 16) m) × (is_coalesced bs' ≡ true))
mem_free-malloc-is_coalesced {area} {bs} {m} size b heap h small here =
    let (m', done, heap') = malloc-alloc area bs m heap size small in
    (
      (
        (alloc size area bs).0,
        m',
        (alloc size area bs).1,
        done,
        heap',
        alloc-is_coalesced size area bs h,
      ),
      (
        release b area bs,
        mem_free-release area bs m heap b here,
        release-is_coalesced b area bs heap.pos here h,
      ),
    )
