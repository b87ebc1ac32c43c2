-- ===== src/Mm/Client.antt =====
-- `malloc` of mm.c as its callers see it.
use shed_kernel.Prelude.{
  ℕ, ◌+◌, ◌-◌, ◌≤◌, ◌<◌, ◌≡◌, ap, ◌∙◌, sym, subst, ◌≢◌, true, false, none, some,
}
use shed_kernel.Mm.{Mm, malloc}
use shed_kernel.Mm.Chain.{Blocks, has}
use shed_kernel.Mm.Best.{block_at, is_fit}
use shed_kernel.Mm.Malloc.{IsHeap, alloc, malloc-alloc}
use shed_kernel.Mm.Alloc.{alloc-null, alloc-used, alloc-live, alloc-apart}

some-injective {ℓ} : {A : Type ℓ} → {a b : A} → some a ≡ some b → a ≡ b
some-injective {a = a} e = ap (λ o. elim o [ none ↦ a | some c ↦ c ]) e

module _ {area : ℕ} {bs : Blocks} {m : Mm} (heap : IsHeap area bs m) (size : ℕ)
    (small : size < 4294967296) (p : ℕ) (m' : Mm) (done : malloc size m ≡ some (p, m')) where
  pub malloc-result : (p ≡ (alloc size area bs).0) × IsHeap area (alloc size area bs).1 m'
  malloc-result =
      let (m'', e, h) = malloc-alloc area bs m heap size small in
      let same : (p, m') ≡ ((alloc size area bs).0, m'') = some-injective (sym done ∙ e) in
      (ap (λ k. k.0) same, subst (IsHeap area (alloc size area bs).1) (sym (ap (λ k. k.1) same)) h)

  -- `malloc` on a heap returns NULL only if no block of the heap is free and large enough.
  pub malloc-null :
      (b : ℕ) → p ≡ 0 → has b area bs ≡ true → is_fit size (block_at b area bs) ≡ false
  malloc-null b null here = alloc-null heap size b (sym malloc-result.0 ∙ null) here

  -- If `malloc` on a heap does not return NULL, it returns the payload of a block of the heap that
  -- it leaves, which is marked used and has at least the size that was asked for.
  pub malloc-used :
      p ≢ 0
      → (bs' : Blocks) × IsHeap area bs' m'
        × (has (p - 16) area bs' ≡ true)
        × ((block_at (p - 16) area bs').used ≡ 1)
        × (size ≤ (block_at (p - 16) area bs').size)
  malloc-used ne =
      let (h, u, s) = alloc-used heap size (λ z. ne (malloc-result.0 ∙ z)) in
      (
        (alloc size area bs).1,
        malloc-result.1,
        rw malloc-result.0 h,
        rw malloc-result.0 u,
        rw malloc-result.0 s,
      )

  -- A block of the heap that is in use when `malloc` is called is there, unchanged, in the heap that
  -- it leaves, and its payload is not what `malloc` returns.
  pub malloc-live :
      (b : ℕ)
      → has b area bs ≡ true
      → (block_at b area bs).used ≢ 0
      → (bs' : Blocks) × IsHeap area bs' m'
        × (has b area bs' ≡ true)
        × (block_at b area bs' ≡ block_at b area bs)
        × (b + 16 ≢ p)
  malloc-live b here live =
      let (h, x) = alloc-live heap size b here live in
      (
        (alloc size area bs).1,
        malloc-result.1,
        h,
        x,
        λ e. alloc-apart heap size b here live (e ∙ malloc-result.0),
      )
