-- ===== src/Fs/Files.antt =====
-- Reading back what was written, and what else a write changes.
use shed_kernel.Prelude.{
  false, ℕ, ◌+◌, ◌-◌, ◌*◌, ◌/◌, ◌%◌, ◌≤◌, ◌<◌, ◌≡◌, refl, ap, ◌∙◌, true, some, List, arith, set,
  get_or-set_self, pos,
}
use shed_kernel.Fs.Disk.{Fs, empty_entry}
use shed_kernel.Fs.Dir.{is_file, entry_at, set_entry, fs_find_file, fs_read_file, fs_write_file}
use shed_kernel.Fs.Blocks.{written, write_blocks-Wrote, read_blocks-copied}
use shed_kernel.Fs.Entries.{is_placed, All-get_or, FirstAt, find_slot-some, find_slot-set}
use shed_kernel.Fs.Valid.{IsValid}

-- What `fs_write_file` leaves of `fs`: the new disk, and the new size in the file's entry.
pub record WroteFile (i : ℕ) (buf : ℕ → ℕ) (size : ℕ) (fs fs' : Fs) : Type 0 where
  pub disk :
      (b o : ℕ)
      → fs'.fs_disk b o
        ≡ written (entry_at i fs).first_data_block (size / 4096 + 1) 0 buf fs.fs_disk b o
  pub bitmap : fs'.fs_bitmap ≡ fs.fs_bitmap
  pub sb : fs'.fs_sb ≡ fs.fs_sb
  pub rootdir : fs'.fs_rootdir ≡ set fs.fs_rootdir i (record (entry_at i fs) { file_size = size })

module _ (name : List ℕ) {i : ℕ} {fs : Fs} (v : IsValid fs)
    (found : fs_find_file name fs ≡ some i) where
  pub found_first : FirstAt (is_file name) fs.fs_rootdir i
  unfolding fs_find_file
  found_first = find_slot-some (is_file name) fs.fs_rootdir i found

  pub first_block :
      (3 ≤ (entry_at i fs).first_data_block) × ((entry_at i fs).first_data_block < 1024)
  first_block = ground (
    arith,
    found_first.passes,
    All-get_or (λ e. is_placed e ≡ true) fs.fs_rootdir i empty_entry v.placed found_first.inside,
  )

  module _ (buf : ℕ → ℕ) (size : ℕ)
      (fits : (entry_at i fs).first_data_block + size / 4096 + 1 ≤ 1024)
      (small : size < 2147483648) where
    -- A write that ends before the disk does returns the size, and writes the `size / 4096 + 1`
    -- blocks from the file's first block on, whether or not they belong to the file; the bitmap, the
    -- superblock and the other entries stay as they were.
    pub fs_write_file-WroteFile :
        (fs' : Fs) × (fs_write_file name false buf size fs ≡ some (pos size, fs'))
        × WroteFile i buf size fs fs'
    unfolding fs_write_file
    fs_write_file-WroteFile =
        let e = entry_at i fs in
        let (fs', done, w) =
          write_blocks-Wrote e.first_data_block (size / 4096 + 1) 0 buf fs first_block.0
            (omega arith) in
        (
          set_entry i (record e { file_size = size }) fs',
          ground (arith, found, done),
          record { disk = w.disk; bitmap = w.bitmap; sb = w.sb; rootdir = rw (w.rootdir) refl },
        )

    find-write : (fs' : Fs) → WroteFile i buf size fs fs' → fs_find_file name fs' ≡ some i
    unfolding fs_find_file
    find-write fs' w = rw (w.rootdir) (
        find_slot-set (is_file name) fs.fs_rootdir i (record (entry_at i fs) { file_size = size })
          refl found_first.inside
        ∙ found)

    entry-write :
        (fs' : Fs)
        → WroteFile i buf size fs fs'
        → entry_at i fs' ≡ record (entry_at i fs) { file_size = size }
    entry-write fs' w = rw (w.rootdir) (
        get_or-set_self fs.fs_rootdir i (record (entry_at i fs) { file_size = size }) empty_entry
          found_first.inside)

    -- In a valid file system, for a name that is found and a size below 2^31 whose blocks end within
    -- the disk, `fs_write_file` from a buffer that is not NULL returns the size, and `fs_read_file`
    -- of as many bytes then returns the size and has put every byte below it in the caller's memory
    -- as it was written.
    pub fs_read_file-write :
        (old : ℕ → ℕ) (o : ℕ)
        → o < size
        → (fs' : Fs) × (buf' : ℕ → ℕ) × (fs_write_file name false buf size fs
            ≡ some (pos size, fs'))
          × (fs_read_file name old size fs' ≡ some (pos size, buf'))
          × (buf' o ≡ buf o)
    unfolding fs_read_file
    fs_read_file-write old o h =
        let (fs', done, w) = fs_write_file-WroteFile in
        let e = entry_at i fs in
        let (buf', read, c) =
          read_blocks-copied e.first_data_block (size / 4096 + 1) 0 old fs' first_block.0
            (omega arith) in
        (
          fs',
          buf',
          done,
          ground (arith, find-write fs' w, entry-write fs' w, read),
          ground (
            arith,
            c o,
            w.disk (e.first_data_block + o / 4096) (o % 4096),
            ap buf (same e.first_data_block o),
          ),
        )
      where
        same : (first o : ℕ) → (first + o / 4096 - first) * 4096 + o % 4096 ≡ o
        same first o = omega arith
