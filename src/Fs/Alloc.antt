-- ===== src/Fs/Alloc.antt =====
-- `fs_alloc_block`: the lowest free block.
use shed_kernel.Prelude.{
  ℕ, zero, suc, ◌+◌, ◌≤◌, ◌<◌, ◌≡◌, true, false, none, some, arith, Bool-cases, ◌⊎◌, inl, inr,
}
use shed_kernel.Fs.Disk.{Fs, fs_block_is_free, fs_mark_block_used, alloc_from}

-- What a successful search from block `i` over `n` blocks has found.
pub record Allocated (n i : ℕ) (fs : Fs) (block : ℕ) (fs' : Fs) : Type 0 where
  pub index : ℕ
  pub number : block ≡ fs.fs_sb.first_data_block + index
  pub from : i ≤ index
  pub below : index < i + n
  pub was_free : fs_block_is_free index fs ≡ true
  pub lowest : (j : ℕ) → i ≤ j → j < index → fs_block_is_free j fs ≡ false
  pub marked : fs' ≡ (fs_mark_block_used index fs).1

pub alloc_from-some :
    (n i : ℕ) (fs : Fs) (block : ℕ) (fs' : Fs)
    → alloc_from n i fs ≡ some (block, fs')
    → Allocated n i fs block fs'
unfolding alloc_from
alloc_from-some zero i fs block fs' e = absurd (cc)
alloc_from-some (suc n) i fs block fs' e = elim (Bool-cases (fs_block_is_free i fs)) [
  | inl free ↦ record {
    index = i;
    number = ground arith;
    from = omega arith;
    below = omega arith;
    was_free = free;
    lowest = λ j a b. absurd (omega arith);
    marked = ground arith;
  }
  | inr used ↦
      let later = alloc_from-some n (i + 1) fs block fs' (rw used at e) in
      record {
        index = later.index;
        number = later.number;
        from = omega (arith, later.from);
        below = omega (arith, later.below);
        was_free = later.was_free;
        lowest = λ j a b. ground (arith, later.lowest j, used);
        marked = later.marked;
      }
]

pub alloc_from-none :
    (n i : ℕ) (fs : Fs)
    → alloc_from n i fs ≡ none
    → (j : ℕ) → i ≤ j
    → j < i + n
    → fs_block_is_free j fs ≡ false
unfolding alloc_from
alloc_from-none zero i fs e j a b = absurd (omega arith)
alloc_from-none (suc n) i fs e j a b = elim (Bool-cases (fs_block_is_free i fs)) [
  | inl free ↦ absurd (ground arith)
  | inr used ↦ elim (cases) [
    | inl here ↦ rw here used
    | inr later ↦ alloc_from-none n (i + 1) fs (rw used at e) j later (omega arith)
  ]
]
  where
    cases : (j ≡ i) ⊎ (i + 1 ≤ j)
    cases = omega arith
