-- ===== src/Fs/Keep.antt =====
-- `fs_create_file`, `fs_delete_file` and `fs_init` of easyfs.c, and the invariant of the file system.
use shed_kernel.Prelude.{
  ℕ, zero, suc, ◌+◌, ◌-◌, ◌%◌, ◌<◌, ◌≡◌, refl, subst, ◌≢◌, true, false, some, List, arith,
  Option-cases, inl, inr, ◌==◌, length, set, All, replicate,
}
use shed_kernel.Fs.Disk.{
  DirEntry, Fs, empty_entry, fs_init, fs_block_is_free, alloc_from, fs_alloc_block,
}
use shed_kernel.Fs.Dir.{
  is_file, find_slot, copy_name, entry_at, create_in_slot, fs_find_file, fs_create_file,
  fs_delete_file,
}
use shed_kernel.Fs.Bitmap.{is_clear, count, is_clear-zero}
use shed_kernel.Fs.Alloc.{Allocated, alloc_from-some}
use shed_kernel.Fs.Entries.{owners, is_placed, own-le-owners, All-get_or, find_slot-some}
use shed_kernel.Fs.Valid.{
  IsValid, IsNamed, copy_name-IsNamed, take_block-IsValid, release_block-IsValid,
}

-- The entry that `fs_create_file` writes to slot `i`.
abbrev pub new_entry : ℕ → List ℕ → ℕ → Fs → DirEntry
new_entry i name block fs = record {
  name = copy_name 15 name (entry_at i fs).name;
  file_size = 0;
  first_data_block = block;
  is_used = 1;
}

module _ {fs : Fs} (v : IsValid fs) where
  pub allocated :
      (block : ℕ) (fs' : Fs) → fs_alloc_block fs ≡ some (block, fs') → Allocated 1021 0 fs block fs'
  unfolding fs_alloc_block
  allocated block fs' e =
      alloc_from-some 1021 0 fs block fs'
        (subst (λ n. alloc_from n 0 fs ≡ some (block, fs')) v.blocks e)

  is_clear_of_free :
      (b : ℕ) → b < 1021 → fs_block_is_free b fs ≡ true → is_clear fs.fs_bitmap b ≡ true
  unfolding fs_block_is_free
  is_clear_of_free b h e = ground (arith, v.blocks)

  create_in_slot-IsValid :
      (i : ℕ) (name : List ℕ)
      → i < length fs.fs_rootdir
      → (entry_at i fs).is_used ≡ 0
      → IsValid (create_in_slot i name fs).1
  unfolding create_in_slot
  create_in_slot-IsValid i name lt unused = elim (Option-cases (fs_alloc_block fs)) [
    | inl e ↦ rw (e, create_in_slot) v
    | inr ((block, fs'), e) ↦
        let a = allocated block fs' e in
        let h : a.index < 1021 = omega (arith, a.below) in
        let at : block ≡ a.index + 3 = omega (arith, a.number, v.first) in
        rw (e, create_in_slot)
          (rw (a.marked) (
            take_block-IsValid v a.index h i (new_entry i name block fs)
              (is_clear_of_free a.index h a.was_free) lt unused refl at
              (copy_name-IsNamed name _
                (All-get_or IsNamed fs.fs_rootdir i empty_entry v.named lt))))
  ]

  -- `fs_create_file` keeps the invariant of the file system, for every name, whether it succeeds or
  -- fails.
  pub fs_create_file-IsValid : (name : List ℕ) → IsValid (fs_create_file name fs).1
  unfolding fs_create_file
  fs_create_file-IsValid name = elim (Option-cases (fs_find_file name fs)) [
    | inr (i, e) ↦ rw (e, fs_create_file) v
    | inl e ↦ elim (Option-cases (find_slot (λ e. e.is_used == 0) fs.fs_rootdir)) [
      | inl full ↦ rw (e, fs_create_file) (rw full v)
      | inr (i, slot) ↦
          let f = find_slot-some _ fs.fs_rootdir i slot in
          rw (e, fs_create_file)
            (rw slot (create_in_slot-IsValid i name f.inside (ground (arith, f.passes))))
    ]
  ]

  owned_block :
      (i : ℕ)
      → i < length fs.fs_rootdir
      → (entry_at i fs).is_used ≢ 0
      → (b : ℕ) × ((entry_at i fs).first_data_block ≡ b + 3)
        × (b < 1021)
        × (is_clear fs.fs_bitmap b ≡ false)
  owned_block i lt used =
      let place = All-get_or _ fs.fs_rootdir i empty_entry v.placed lt in
      let b = (entry_at i fs).first_data_block - 3 in
      let at : (entry_at i fs).first_data_block ≡ b + 3 = ground arith in
      let h : b < 1021 = ground arith in
      (b, at, h, ground (arith, v.owned b h, own-le-owners b fs.fs_rootdir i lt))

  -- `fs_delete_file` keeps the invariant of the file system, for every name, whether it finds the
  -- file or not.
  pub fs_delete_file-IsValid : (name : List ℕ) → IsValid (fs_delete_file name fs).1
  unfolding fs_delete_file
  fs_delete_file-IsValid name = elim (Option-cases (find_slot (is_file name) fs.fs_rootdir)) [
    | inl e ↦ rw (e, fs_delete_file) v
    | inr (i, e) ↦
        let f = find_slot-some (is_file name) fs.fs_rootdir i e in
        let used : (entry_at i fs).is_used ≢ 0 = ground (arith, f.passes) in
        let (b, at, h, set) = owned_block i f.inside used in
        let number : ((entry_at i fs).first_data_block + 4294967296 - fs.fs_sb.first_data_block)
              % 4294967296
            ≡ b =
          omega (arith, v.first, at, h) in
        rw (e, fs_delete_file) (rw number (release_block-IsValid v b h i set f.inside used at))
  ]

-- A test of the slots and the bits: all are unused.
owners-replicate : (b n : ℕ) → owners b (replicate n empty_entry) ≡ 0
unfolding owners
owners-replicate b zero = refl
owners-replicate b (suc n) = omega (arith, owners-replicate b n)

placed-replicate : (n : ℕ) → All (λ e. is_placed e ≡ true) (replicate n empty_entry)
placed-replicate zero = tt
placed-replicate (suc n) = (refl, placed-replicate n)

IsNamed-replicate : (n : ℕ) → All IsNamed (replicate n empty_entry)
IsNamed-replicate zero = tt
IsNamed-replicate (suc n) = (omega arith, IsNamed-replicate n)

-- The state after `fs_init` is valid.
pub fs_init-IsValid : IsValid fs_init
unfolding fs_init count
fs_init-IsValid = record {
  blocks = refl;
  first = refl;
  bytes = λ i. omega arith;
  slots = refl;
  placed = placed-replicate 64;
  named = IsNamed-replicate 64;
  owned = λ b h. ground (arith, owners-replicate b 64, is_clear-zero b);
  free = refl;
}
