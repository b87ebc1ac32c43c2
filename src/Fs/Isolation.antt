-- ===== src/Fs/Isolation.antt =====
-- What a write to one file does to the others, and past the end of the disk.
use shed_kernel.Prelude.{
  false, ℕ, ◌+◌, ◌-◌, ◌*◌, ◌/◌, ◌%◌, ◌≤◌, ◌<◌, ◌≡◌, refl, sym, ap, ◌∙◌, ◌≢◌, true, ◌||◌, Option,
  none, some, min, List, arith, if◌then◌else◌, ltb, leb, length, get_or-set_ne, pos,
}
use mathlib.Core.Path.{fun_ext}
use shed_kernel.CString.{text}
use shed_kernel.Fs.Disk.{Fs, empty_entry, fs_read_block}
use shed_kernel.Fs.Dir.{is_file, entry_at, fs_find_file, read_blocks, fs_read_file, fs_write_file}
use shed_kernel.Fs.Entries.{is_placed, own-own-le-owners, All-get_or, find_slot-set}
use shed_kernel.Fs.Valid.{IsValid}
use shed_kernel.Fs.Files.{WroteFile, found_first, first_block, fs_write_file-WroteFile}
use shed_kernel.Fs.Names.{text_of_is_file, is_file-of_ne}

-- In a valid file system two used entries have different first blocks.
first_block-inj :
    (fs : Fs) (i j : ℕ)
    → IsValid fs
    → i ≢ j
    → i < length fs.fs_rootdir
    → j < length fs.fs_rootdir
    → (entry_at i fs).is_used ≢ 0
    → (entry_at j fs).is_used ≢ 0
    → (entry_at i fs).first_data_block ≢ (entry_at j fs).first_data_block
first_block-inj fs i j v ne hi hj ui uj same =
    let place = All-get_or (λ e. is_placed e ≡ true) fs.fs_rootdir i empty_entry v.placed hi in
    let b = (entry_at i fs).first_data_block - 3 in
    let at : (entry_at i fs).first_data_block ≡ b + 3 = ground arith in
    let h : b < 1021 = ground arith in
    ground (arith, v.owned b h, own-own-le-owners b fs.fs_rootdir i j ne hi hj)

abbrev block_read : ℕ → (ℕ → ℕ) → (ℕ → ℕ) → Option (ℕ → ℕ)
block_read b buf page =
    if leb 1024 b || ltb b 3 then none else some (λ o. if ltb o 4096 then page o else buf o)

fs_read_block-same :
    (b : ℕ) (buf : ℕ → ℕ) (fs fs' : Fs)
    → fs'.fs_disk b ≡ fs.fs_disk b
    → fs_read_block b buf fs' ≡ fs_read_block b buf fs
unfolding fs_read_block
fs_read_block-same b buf fs fs' disk = ap (block_read b buf) disk

read_blocks-same :
    (first : ℕ) (buf : ℕ → ℕ) (fs fs' : Fs)
    → first < 1024
    → fs'.fs_disk first ≡ fs.fs_disk first
    → read_blocks first 1 0 buf fs' ≡ read_blocks first 1 0 buf fs
unfolding read_blocks
read_blocks-same first buf fs fs' h disk =
    let e : (first + 0) % 4294967296 ≡ first = omega arith in
    rw (e, read_blocks, fs_read_block-same first (λ o. buf (0 * 4096 + o)) fs fs' disk)

-- A read of one block depends on the file's slot, its entry and that block only.
fs_read_file-same :
    (name : List ℕ) (buf : ℕ → ℕ) (size : ℕ) (fs fs' : Fs) {i : ℕ}
    → size < 4096
    → fs_find_file name fs' ≡ fs_find_file name fs
    → fs_find_file name fs ≡ some i
    → entry_at i fs' ≡ entry_at i fs
    → (3 ≤ (entry_at i fs).first_data_block) × ((entry_at i fs).first_data_block < 1024)
    → fs'.fs_disk (entry_at i fs).first_data_block ≡ fs.fs_disk (entry_at i fs).first_data_block
    → fs_read_file name buf size fs' ≡ fs_read_file name buf size fs
unfolding fs_read_file
fs_read_file-same name buf size fs fs' {i} small find found entry range disk =
    let e = entry_at i fs in
    let one : min (size / 4096 + 1) (e.file_size / 4096 + 1) ≡ 1 = omega arith in
    ground
      (arith, find, found, entry, one, read_blocks-same e.first_data_block buf fs fs' range.1 disk)

module _ (name other : List ℕ) {i j : ℕ} {fs : Fs} (v : IsValid fs)
    (found : fs_find_file name fs ≡ some i) (found' : fs_find_file other fs ≡ some j)
    (ne : text other ≢ text name) where
  apart : i ≢ j
  apart e =
      let f = found_first name v found in
      let f' = found_first other v found' in
      ne (
        sym (text_of_is_file other (entry_at j fs) f'.passes)
        ∙ ap (λ k. text (entry_at k fs).name) (sym e)
        ∙ text_of_is_file name (entry_at i fs) f.passes)

  module _ (buf : ℕ → ℕ) (size : ℕ) (fs' : Fs) (w : WroteFile i buf size fs fs') where
    find-other : fs_find_file other fs' ≡ some j
    unfolding fs_find_file
    find-other =
        let f = found_first name v found in
        let miss =
          is_file-of_ne other (entry_at i fs)
            (λ s. ne (sym s ∙ text_of_is_file name (entry_at i fs) f.passes)) in
        rw (w.rootdir) (
          find_slot-set (is_file other) fs.fs_rootdir i
            (record (entry_at i fs) { file_size = size }) refl f.inside
          ∙ found')

    entry-other : entry_at j fs' ≡ entry_at j fs
    entry-other = rw (w.rootdir) (
        get_or-set_ne fs.fs_rootdir i j (record (entry_at i fs) { file_size = size }) empty_entry
          apart)

  -- In a valid file system, for two different names that are both found, writing fewer than 4096
  -- bytes, from a buffer that is not NULL, to the one succeeds and leaves what reading fewer than
  -- 4096 bytes of the other returns.
  pub fs_read_file-write_other :
      (buf old : ℕ → ℕ) (size size' : ℕ)
      → size < 4096
      → size' < 4096
      → (fs' : Fs) × (fs_write_file name false buf size fs ≡ some (pos size, fs'))
        × (fs_read_file other old size' fs' ≡ fs_read_file other old size' fs)
  fs_read_file-write_other buf old size size' small small' =
      let f = found_first name v found in
      let f' = found_first other v found' in
      let (fs', done, w) =
        fs_write_file-WroteFile name v found buf size (omega (arith, first_block name v found))
          (omega arith) in
      let apart' =
        first_block-inj fs i j v apart f.inside f'.inside (ground (arith, f.passes))
          (ground (arith, f'.passes)) in
      let disk : fs'.fs_disk (entry_at j fs).first_data_block
          ≡ fs.fs_disk (entry_at j fs).first_data_block =
        fun_ext (λ o. ground (arith, w.disk (entry_at j fs).first_data_block o)) in
      (
        fs',
        done,
        fs_read_file-same other old size' fs fs' small' (find-other buf size fs' w ∙ sym found')
            found' (entry-other buf size fs' w) (first_block other v found') disk,
      )
