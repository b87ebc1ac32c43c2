-- ===== src/Mm/Chain.antt =====
-- The heap as the list of its blocks in address order.
use shed_kernel.Prelude.{
  ℕ, ◌+◌, ◌≤◌, ◌<◌, ◌≡◌, ap, ◌∙◌, ◌≢◌, Bool, true, false, ◌||◌, List, [], ◌∷◌, arith, ◌==◌,
}
use shed_kernel.Mm.{Mm, Node, init_dynamic_mem}

pub record Block : Type 0 where
  pub size : ℕ
  pub used : ℕ

abbrev pub block : ℕ → ℕ → Block
block s u = record { size = s; used = u }

abbrev pub Blocks : Type 0
Blocks = List Block

-- The address of the block behind one of size `s` at `a`.
abbrev pub after : ℕ → ℕ → ℕ
after a s = a + 16 + s

-- The address of the first block, NULL if there is none.
abbrev pub head_at : ℕ → Blocks → ℕ
head_at a [] = 0
head_at a (x ∷ xs) = a

-- From address `a` on the headers and payloads of the blocks follow one another without a gap up to
-- `end`, and each header has the links to its neighbours.
abbrev pub Chain : Mm → (end prev a : ℕ) → Blocks → Type 0
Chain m end prev a [] = a ≡ end
Chain m end prev a (x ∷ xs) =
    (0 < a)
    × (m.nodes a
        ≡ record { size = x.size; used = x.used; next = head_at (after a x.size) xs; prev = prev })
    × Chain m end a (after a x.size) xs

-- Whether one of the blocks stands at `b`.
abbrev pub has : ℕ → ℕ → Blocks → Bool
has b a [] = false
has b a (x ∷ xs) = (a == b) || has b (after a x.size) xs

pub has-le : (b a : ℕ) (xs : Blocks) → has b a xs ≡ true → a ≤ b
has-le b a [] h = absurd (ground arith)
has-le b a (x ∷ xs) h = ground (arith, has-le b (after a x.size) xs)

pub Chain-le : (m : Mm) (end prev a : ℕ) (xs : Blocks) → Chain m end prev a xs → a ≤ end
Chain-le m end prev a [] c = omega arith
Chain-le m end prev a (x ∷ xs) (pos, node, c) =
    omega (arith, Chain-le m end a (after a x.size) xs c)

-- A chain depends on the headers from its start on only.
pub Chain-frame :
    (m m' : Mm) (end prev a : ℕ) (xs : Blocks)
    → ((b : ℕ) → a ≤ b → m'.nodes b ≡ m.nodes b)
    → Chain m end prev a xs
    → Chain m' end prev a xs
Chain-frame m m' end prev a [] same c = c
Chain-frame m m' end prev a (x ∷ xs) same (pos, node, c) = (
  pos,
  same a (omega arith) ∙ node,
  Chain-frame m m' end a (after a x.size) xs (λ b h. same b (omega arith)) c,
)

-- What a new predecessor needs: only the `prev` link of the first block changes.
pub Chain-prev :
    (m m' : Mm) (end prev prev' a : ℕ) (xs : Blocks)
    → (xs ≢ [] → m'.nodes a ≡ record (m.nodes a) { prev = prev' })
    → ((b : ℕ) → a < b → m'.nodes b ≡ m.nodes b)
    → Chain m end prev a xs
    → Chain m' end prev' a xs
Chain-prev m m' end prev prev' a [] first same c = c
Chain-prev m m' end prev prev' a (x ∷ xs) first same (pos, node, c) = (
  pos,
  first (λ e. cc) ∙ ap (λ (n : Node). record n { prev = prev' }) node,
  Chain-frame m m' end a (after a x.size) xs (λ b h. same b (omega arith)) c,
)

-- `init_dynamic_mem` makes one free block of the whole area.
pub init_dynamic_mem-Chain :
    (area : ℕ) (m : Mm)
    → 0 < area
    → Chain (init_dynamic_mem area m) (area + 1048576) 0 area (block 1048560 0 ∷ [])
unfolding init_dynamic_mem
init_dynamic_mem-Chain area m h = (h, ground arith, omega arith)
