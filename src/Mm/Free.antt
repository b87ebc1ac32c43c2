-- ===== src/Mm/Free.antt =====
-- `mem_free` on the list of blocks.
use shed_kernel.Prelude.{
  ℕ, ◌<◌, ◌≡◌, refl, ap, ◌∙◌, sym, subst, Bool, true, false, not, ◌&&◌, ◌⊎◌, inl, inr, [], ◌∷◌,
  arith, ◌==◌, if◌then◌else◌, Bool-cases, ==_iff,
}
use shed_kernel.Mm.{Mm, Node}
use shed_kernel.Mm.Chain.{Block, Blocks, after, Chain, has, has-le}
use shed_kernel.Mm.Best.{block_at}
use shed_kernel.Mm.Update.{set_used_at, join_at}

-- The address of the block before the one at `b`; `prev` if it is the first.
abbrev pub prev_at : (b prev a : ℕ) → Blocks → ℕ
prev_at b prev a [] = 0
prev_at b prev a (x ∷ xs) = if a == b then prev else prev_at b a (after a x.size) xs

-- Whether the block behind the one at `b` is free.
abbrev pub next_is_free : (b a : ℕ) → Blocks → Bool
next_is_free b a [] = false
next_is_free b a (x ∷ []) = false
next_is_free b a (x ∷ y ∷ xs) =
    if a == b then y.used == 0 else next_is_free b (after a x.size) (y ∷ xs)

abbrev pub join_next : (b a : ℕ) → Blocks → Blocks
join_next b a bs = if next_is_free b a bs then join_at b a bs else bs

abbrev pub join_prev : (b a : ℕ) → Blocks → Blocks
join_prev b a bs =
    let p = prev_at b 0 a bs in
    if not (p == 0) && ((block_at p a bs).used == 0) then join_at p a bs else bs

-- What `mem_free` does to the blocks: mark the block free, and join it with its free neighbours.
unfoldable pub release : (b a : ℕ) → Blocks → Blocks
release b a bs = join_prev b a (join_next b a (set_used_at b 0 a bs))

pub has-set_used_at : (b u c a : ℕ) (xs : Blocks) → has c a (set_used_at b u a xs) ≡ has c a xs
unfolding set_used_at
has-set_used_at b u c a [] = refl
has-set_used_at b u c a (x ∷ xs) = ground (arith, has-set_used_at b u c (after a x.size) xs)

pub has-join_at_self : (b a : ℕ) (xs : Blocks) → has b a (join_at b a xs) ≡ has b a xs
unfolding join_at
has-join_at_self b a [] = refl
has-join_at_self b a (x ∷ []) = refl
has-join_at_self b a (x ∷ y ∷ xs) = ground (arith, has-join_at_self b (after a x.size) (y ∷ xs))

-- The block at `p` ends at `b`.
abbrev pub EndsAt : (b p a : ℕ) → Blocks → Type 0
EndsAt b p a xs = (has p a xs ≡ true) × (after p (block_at p a xs).size ≡ b)

EndsAt-first : (b a : ℕ) (x : Block) (xs : Blocks) → after a x.size ≡ b → EndsAt b a a (x ∷ xs)
EndsAt-first b a x xs e = ground arith

EndsAt-later :
    (b p a : ℕ) (x : Block) (xs : Blocks) → EndsAt b p (after a x.size) xs → EndsAt b p a (x ∷ xs)
EndsAt-later b p a x xs (h, e) = ground (arith, has-le p (after a x.size) xs)

-- The block before the one at `b` ends there.
pub prev_at-cases :
    (b : ℕ) (m : Mm) (end prev a : ℕ) (xs : Blocks)
    → Chain m end prev a xs
    → has b a xs ≡ true
    → ((prev_at b prev a xs ≡ prev) × (a ≡ b)) ⊎ EndsAt b (prev_at b prev a xs) a xs
prev_at-cases b m end prev a [] c h = absurd (ground arith)
prev_at-cases b m end prev a (x ∷ xs) (pos, node, c) h = elim (Bool-cases (a == b)) [
  | inl at ↦ inl (rw at refl, (==_iff a b).0 at)
  | inr off ↦
      let later : prev_at b prev a (x ∷ xs) ≡ prev_at b a (after a x.size) xs = rw off refl in
      elim (prev_at-cases b m end a (after a x.size) xs c (rw off at h)) [
        | inl (e, here) ↦
            inr (subst (λ k. EndsAt b k a (x ∷ xs)) (sym (later ∙ e)) (EndsAt-first b a x xs here))
        | inr ends ↦ inr (
            subst (λ k. EndsAt b k a (x ∷ xs)) (sym later)
              (EndsAt-later b (prev_at b a (after a x.size) xs) a x xs ends))
      ]
]

pub prev-header :
    (b : ℕ) (m : Mm) (end prev a : ℕ) (xs : Blocks)
    → Chain m end prev a xs
    → has b a xs ≡ true
    → (m.nodes b).prev ≡ prev_at b prev a xs
prev-header b m end prev a [] c h = absurd (ground arith)
prev-header b m end prev a (x ∷ xs) (pos, node, c) h =
    ground (arith, prev-header b m end a (after a x.size) xs c)

-- The block behind the one at `b`, of size `s`, if there is one.
abbrev pub NextIs : Mm → (b s a : ℕ) → Blocks → Type 0
NextIs m b s a xs =
    (((m.nodes b).next ≡ 0) × (next_is_free b a xs ≡ false))
    ⊎ ((m.nodes b).next ≡ after b s)
      × (has (after b s) a xs ≡ true)
      × (next_is_free b a xs ≡ ((block_at (after b s) a xs).used == 0))

NextIs-first :
    (m : Mm) (a : ℕ) (x y : Block) (xs : Blocks)
    → (m.nodes a).next ≡ after a x.size
    → NextIs m a x.size a (x ∷ y ∷ xs)
NextIs-first m a x y xs e = inr (e, ground arith, ground arith)

NextIs-later :
    (m : Mm) (b s a : ℕ) (x y : Block) (xs : Blocks)
    → a < b
    → NextIs m b s (after a x.size) (y ∷ xs)
    → NextIs m b s a (x ∷ y ∷ xs)
NextIs-later m b s a x y xs lt (inl e) = inl (ground arith)
NextIs-later m b s a x y xs lt (inr (e, h, f)) =
    let ne : (a == b) ≡ false = ground arith in
    let ne' : (a == after b s) ≡ false = ground arith in inr (rw (ne, ne') (e, h, f))

pub next-cases :
    (b : ℕ) (m : Mm) (end prev a : ℕ) (xs : Blocks)
    → Chain m end prev a xs
    → has b a xs ≡ true
    → NextIs m b (block_at b a xs).size a xs
next-cases b m end prev a [] c h = absurd (ground arith)
next-cases b m end prev a (x ∷ []) (pos, node, c) h = inl (ground arith)
next-cases b m end prev a (x ∷ y ∷ xs) (pos, node, c) h = elim (Bool-cases (a == b)) [
  | inl at ↦
      let size : (block_at b a (x ∷ y ∷ xs)).size ≡ x.size = rw at refl in
      subst (λ k. NextIs m b k a (x ∷ y ∷ xs)) (sym size)
        (subst (λ k. NextIs m k x.size a (x ∷ y ∷ xs)) ((==_iff a b).0 at)
          (NextIs-first m a x y xs (ap (λ (n : Node). n.next) node)))
  | inr off ↦
      let rest = block_at b (after a x.size) (y ∷ xs) in
      let size : (block_at b a (x ∷ y ∷ xs)).size ≡ rest.size = rw off refl in
      let there : has b (after a x.size) (y ∷ xs) ≡ true = rw off at h in
      subst (λ k. NextIs m b k a (x ∷ y ∷ xs)) (sym size)
        (NextIs-later m b rest.size a x y xs
          (omega (arith, has-le b (after a x.size) (y ∷ xs) there))
          (next-cases b m end a (after a x.size) (y ∷ xs) c there))
]
