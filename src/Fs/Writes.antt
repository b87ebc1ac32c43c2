-- ===== src/Fs/Writes.antt =====
-- easyfs.c: `fs_write_file` and the invariant.
use shed_kernel.Prelude.{
  ℕ, Bool, zero, suc, ◌+◌, ◌/◌, ◌%◌, ◌≡◌, ◌∙◌, none, some, List, arith, Option-cases, inl, inr,
  Option, length-set, ℤ, ◌<◌, length, subst,
}
use shed_kernel.Fs.Disk.{Fs, DirEntry, empty_entry, fs_write_block}
use shed_kernel.Fs.Dir.{entry_at, set_entry, fs_find_file, block_buf, write_blocks, fs_write_file}
use shed_kernel.Fs.Entries.{owners-set, All-set, All-get_or}
use shed_kernel.Fs.Valid.{IsValid, IsNamed}
use shed_kernel.Fs.Files.{found_first}

-- What a write to the data blocks leaves alone.
abbrev pub IsSameIndex : Fs → Fs → Type 0
IsSameIndex fs fs' =
    (fs'.fs_bitmap ≡ fs.fs_bitmap) × (fs'.fs_sb ≡ fs.fs_sb) × (fs'.fs_rootdir ≡ fs.fs_rootdir)

write_block-IsSameIndex :
    (b : ℕ) (buf : Option (ℕ → ℕ)) (fs fs' : Fs)
    → fs_write_block b buf fs ≡ some fs'
    → IsSameIndex fs fs'
unfolding fs_write_block
write_block-IsSameIndex b none fs fs' e = ground (arith, e)
write_block-IsSameIndex b (some buf) fs fs' e = ground (arith, e)

pub write_blocks-IsSameIndex :
    (first n i : ℕ) (null : Bool) (buf : ℕ → ℕ) (fs fs' : Fs)
    → write_blocks first n i null buf fs ≡ some fs'
    → IsSameIndex fs fs'
unfolding write_blocks
write_blocks-IsSameIndex first zero i null buf fs fs' e = ground (arith, e)
write_blocks-IsSameIndex first (suc n) i null buf fs fs' e =
    elim (Option-cases (fs_write_block ((first + i) % 4294967296) (block_buf null i buf) fs)) [
      | inl bad ↦ absurd (ground (arith, bad, e))
      | inr (fs1, e1) ↦ ground (
        arith,
        write_block-IsSameIndex _ _ fs fs1 e1,
        write_blocks-IsSameIndex first n (i + 1) null buf fs1 fs' (ground (arith, e1, e)),
      )
    ]

IsNamed-resize : (size : ℕ) (e : DirEntry) → IsNamed e → IsNamed (record e { file_size = size })
IsNamed-resize size e n = record { field = n.field; terminated = n.terminated }

-- A new size for an entry.
resize-IsValid :
    (size : ℕ) {fs : Fs}
    → IsValid fs
    → (i : ℕ) → i < length fs.fs_rootdir
    → (fs' : Fs) → IsSameIndex fs fs'
    → IsValid (set_entry i (record (entry_at i fs) { file_size = size }) fs')
resize-IsValid size {fs} v i lt fs' (bitmap, sb, rootdir) =
    let e : DirEntry = record (entry_at i fs) { file_size = size } in
    record {
      blocks = rw sb v.blocks;
      first = rw sb v.first;
      bytes = λ j. rw bitmap (v.bytes j);
      slots = rw rootdir (length-set fs.fs_rootdir i e ∙ v.slots);
      placed = rw rootdir (
          All-set _ fs.fs_rootdir i e v.placed
            (All-get_or _ fs.fs_rootdir i empty_entry v.placed lt));
      named = rw rootdir (
          All-set IsNamed fs.fs_rootdir i e v.named
            (IsNamed-resize size _ (All-get_or IsNamed fs.fs_rootdir i empty_entry v.named lt)));
      owned = λ b h.
          rw (rootdir, bitmap) (ground (arith, v.owned b h, owners-set b fs.fs_rootdir i e lt));
      free = rw (sb, bitmap) v.free;
    }

-- `fs_write_file` keeps the invariant of the file system, for every name and size, whether it finds
-- the file or not.
pub fs_write_file-IsValid :
    (name : List ℕ) (null : Bool) (buf : ℕ → ℕ) (size : ℕ) {fs : Fs} (n : ℤ) (fs' : Fs)
    → IsValid fs
    → fs_write_file name null buf size fs ≡ some (n, fs')
    → IsValid fs'
unfolding fs_write_file fs_find_file
fs_write_file-IsValid name null buf size {fs} n fs' v e =
    elim (Option-cases (fs_find_file name fs)) [
      | inl missing ↦ subst IsValid (ground (arith, missing, e)) v
      | inr (i, found) ↦
          elim (Option-cases
            (write_blocks (entry_at i fs).first_data_block (size / 4096 + 1) 0 null buf fs)) [
              | inl bad ↦ absurd (ground (arith, found, bad, e))
              | inr (fs1, done) ↦
                  let resized =
                    resize-IsValid size v i (found_first name v found).inside fs1
                      (write_blocks-IsSameIndex _ _ 0 null buf fs fs1 done) in
                  subst IsValid (ground (arith, found, done, e)) resized
            ]
    ]
