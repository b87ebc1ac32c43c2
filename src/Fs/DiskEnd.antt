-- ===== src/Fs/DiskEnd.antt =====
-- Files that reach past the last block of the disk.
use shed_kernel.Prelude.{
  Bool, Option, Bool-cases, leb, ltb, false, ℕ, zero, suc, ◌+◌, ◌*◌, ◌/◌, ◌%◌, ◌≤◌, ◌<◌, ◌≡◌, refl,
  ◌⊎◌, inl, inr, none, some, List, arith, set, ◌∙◌, get_or-set_self, pos,
}
use shed_kernel.Fs.Disk.{Fs, DirEntry, empty_entry, fs_write_block, fs_read_block}
use shed_kernel.Fs.Dir.{
  is_file, find_slot, entry_at, set_entry, fs_find_file, block_buf, read_blocks, write_blocks,
  fs_read_file, fs_write_file,
}
use shed_kernel.Fs.Blocks.{read_block-one}
use shed_kernel.Fs.Entries.{find_slot-set}
use shed_kernel.Fs.Valid.{IsValid}
use shed_kernel.Fs.Files.{found_first, first_block}

read_block-past : (b : ℕ) (buf : ℕ → ℕ) (fs : Fs) → 1024 ≤ b → fs_read_block b buf fs ≡ none
unfolding fs_read_block
read_block-past b buf fs h = ground arith

write_block-rootdir :
    (b : ℕ) (buf : Option (ℕ → ℕ)) (fs : Fs)
    → 3 ≤ b
    → (fs' : Fs) × (fs_write_block b buf fs ≡ some fs') × (fs'.fs_rootdir ≡ fs.fs_rootdir)
unfolding fs_write_block
write_block-rootdir b none fs lo = (fs, refl, refl)
write_block-rootdir b (some buf) fs lo = elim (Bool-cases (leb 1024 b)) [
  | inl past ↦ rw past (fs, refl, refl)
  | inr inside ↦ let behind : ltb b 3 ≡ false = ground arith in rw (inside, behind) (_, refl, refl)
]

-- The write loop always succeeds, and leaves the directory as it was.
pub write_blocks-rootdir :
    (first n i : ℕ) (null : Bool) (buf : ℕ → ℕ) (fs : Fs)
    → 3 ≤ first
    → first + i + n < 4294967296
    → (fs' : Fs) × (write_blocks first n i null buf fs ≡ some fs')
      × (fs'.fs_rootdir ≡ fs.fs_rootdir)
unfolding write_blocks
write_blocks-rootdir first zero i null buf fs lo hi = (fs, refl, refl)
write_blocks-rootdir first (suc n) i null buf fs lo hi =
    let (fs1, wrote, same) =
      write_block-rootdir ((first + i) % 4294967296) (block_buf null i buf) fs (omega arith) in
    let (fs', e, r) = write_blocks-rootdir first n (i + 1) null buf fs1 lo (omega arith) in
    (fs', rw (wrote, write_blocks) e, r ∙ same)

read_blocks-past :
    (first n i : ℕ) (buf : ℕ → ℕ) (fs : Fs)
    → 3 ≤ first
    → first + i ≤ 1024
    → 1024 < first + i + n
    → first + i + n < 4294967296
    → read_blocks first n i buf fs ≡ none
unfolding read_blocks
read_blocks-past first zero i buf fs lo at past hi = absurd (omega arith)
read_blocks-past first (suc n) i buf fs lo at past hi = elim (cases) [
  | inl inside ↦
      rw (read_block-one first i buf fs lo inside, read_blocks)
        (read_blocks-past first n (i + 1) _ fs lo (omega arith) (omega arith) (omega arith))
  | inr end ↦
      rw (read_block-past ((first + i) % 4294967296) (λ o. buf (i * 4096 + o)) fs end, read_blocks)
        refl
]
  where
    cases : (first + i < 1024) ⊎ (1024 ≤ (first + i) % 4294967296)
    cases = omega arith

-- In a valid file system, a write of fewer than 2^31 bytes, from a buffer that is not NULL, to a
-- name that is found, whose blocks reach past the end of the disk, still returns its size, and a
-- read of as many bytes of the file then reads past the end of the disk.
pub fs_write_file-past :
    (name : List ℕ) {i : ℕ} {fs : Fs} (buf old : ℕ → ℕ) (size : ℕ)
    → IsValid fs
    → fs_find_file name fs ≡ some i
    → 1024 < (entry_at i fs).first_data_block + size / 4096 + 1
    → size < 2147483648
    → (fs' : Fs) × (fs_write_file name false buf size fs ≡ some (pos size, fs'))
      × (fs_read_file name old size fs' ≡ none)
unfolding fs_write_file fs_read_file fs_find_file
fs_write_file-past name {i} {fs} buf old size v found past small =
    let e = entry_at i fs in
    let e' : DirEntry = record e { file_size = size } in
    let f = found_first name v found in
    let range = first_block name v found in
    let (fs', done, r) =
      write_blocks-rootdir e.first_data_block (size / 4096 + 1) 0 false buf fs range.0
        (omega arith) in
    let again : find_slot (is_file name) (set fs'.fs_rootdir i e') ≡ some i =
      rw r (find_slot-set (is_file name) fs.fs_rootdir i e' refl f.inside ∙ found) in
    let at : entry_at i (set_entry i e' fs') ≡ e' =
      rw r (get_or-set_self fs.fs_rootdir i e' empty_entry f.inside) in
    (
      set_entry i e' fs',
      ground (arith, found, done),
      ground (
        arith,
        again,
        at,
        read_blocks-past e.first_data_block (size / 4096 + 1) 0 old (set_entry i e' fs') range.0,
      ),
    )
