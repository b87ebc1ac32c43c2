-- ===== src/Fs/Valid.antt =====
-- easyfs.c: the invariant of the file system.
use shed_kernel.Prelude.{
  ℕ, zero, suc, ◌+◌, ◌-◌, ◌/◌, ◌%◌, ◌≤◌, ◌<◌, ◌≡◌, refl, ◌≢◌, true, false, List, [], ◌∷◌, arith,
  if◌then◌else◌, ◌==◌, length, length-set, length-take, take, All,
}
use shed_kernel.CString.{text}
use shed_kernel.Fs.Disk.{DirEntry, Fs, empty_entry, fs_mark_block_used, fs_mark_block_free}
use shed_kernel.Fs.Dir.{copy_name, entry_at, set_entry}
use shed_kernel.Fs.Bitmap.{
  is_clear, is_clear-or, is_clear-and, bit_and-lt, count, count-le, count-clear,
}
use shed_kernel.Fs.Entries.{owners, is_placed, owners-set, All-set, All-get_or}

-- A name field has 16 bytes, and its text ends within them.
pub record IsNamed (e : DirEntry) : Type 0 where
  pub field : length e.name ≡ 16
  pub terminated : length (text e.name) ≤ 15

length-copy_name : (n : ℕ) (name old : List ℕ) → length (copy_name n name old) ≡ length old
unfolding copy_name
length-copy_name n name [] = refl
length-copy_name n [] (o ∷ old) = refl
length-copy_name zero (c ∷ name) (o ∷ old) = refl
length-copy_name (suc n) (c ∷ name) (o ∷ old) = ground (arith, length-copy_name n name old)

-- The copy loop stores the first `n` characters of the name.
pub text-copy_name :
    (n : ℕ) (name old : List ℕ) → n < length old → text (copy_name n name old) ≡ take n (text name)
unfolding copy_name
text-copy_name n name [] h = absurd (omega arith)
text-copy_name zero [] (o ∷ old) h = refl
text-copy_name (suc n) [] (o ∷ old) h = refl
text-copy_name zero (c ∷ name) (o ∷ old) h = refl
text-copy_name (suc n) (c ∷ name) (o ∷ old) h =
    ground (arith, text-copy_name n name old (omega arith))

pub copy_name-IsNamed :
    (name : List ℕ) (e : DirEntry)
    → IsNamed e
    → (length (copy_name 15 name e.name) ≡ 16) × (length (text (copy_name 15 name e.name)) ≤ 15)
copy_name-IsNamed name e h = (
  omega (arith, length-copy_name 15 name e.name, h.field),
  rw (text-copy_name 15 name e.name (omega (arith, h.field)))
      (omega (arith, length-take 15 (text name))),
)

-- A block's bit is set exactly if one used entry has it as its first block, no two used entries
-- have the same one, and the free count is the number of clear bits.
pub record IsValid (fs : Fs) : Type 0 where
  pub blocks : fs.fs_sb.num_data_blocks ≡ 1021
  pub first : fs.fs_sb.first_data_block ≡ 3
  pub bytes : (i : ℕ) → fs.fs_bitmap i < 256
  pub slots : length fs.fs_rootdir ≡ 64
  pub placed : All (λ e. is_placed e ≡ true) fs.fs_rootdir
  pub named : All IsNamed fs.fs_rootdir
  pub owned :
      (b : ℕ) → b < 1021 → owners b fs.fs_rootdir ≡ (if is_clear fs.fs_bitmap b then 0 else 1)
  pub free : fs.fs_sb.free_block_count ≡ count 1021 (is_clear fs.fs_bitmap)

-- What marking a free block does to the map.
module _ {fs : Fs} (v : IsValid fs) (b : ℕ) (inside : b < 1021) where
  bytes-used : (i : ℕ) → (fs_mark_block_used b fs).1.fs_bitmap i < 256
  unfolding fs_mark_block_used
  bytes-used i = ground (arith, v.bytes i, v.blocks)

  bytes-free : (i : ℕ) → (fs_mark_block_free b fs).1.fs_bitmap i < 256
  unfolding fs_mark_block_free
  bytes-free i = ground (arith, v.bytes i, v.blocks, bit_and-lt fs.fs_bitmap b (v.bytes (b / 8)))

  clear-used :
      (j : ℕ)
      → is_clear (fs_mark_block_used b fs).1.fs_bitmap j
        ≡ (if j == b then false else is_clear fs.fs_bitmap j)
  unfolding fs_mark_block_used
  clear-used j = ground (arith, v.blocks, is_clear-or fs.fs_bitmap b j (v.bytes (b / 8)))

  clear-free :
      (j : ℕ)
      → is_clear (fs_mark_block_free b fs).1.fs_bitmap j
        ≡ (if j == b then true else is_clear fs.fs_bitmap j)
  unfolding fs_mark_block_free
  clear-free j = ground (arith, v.blocks, is_clear-and fs.fs_bitmap b j (v.bytes (b / 8)))

  count-used :
      is_clear fs.fs_bitmap b ≡ true
      → count 1021 (is_clear (fs_mark_block_used b fs).1.fs_bitmap) + 1
        ≡ count 1021 (is_clear fs.fs_bitmap)
  count-used was =
      count-clear 1021 b (is_clear fs.fs_bitmap) (is_clear (fs_mark_block_used b fs).1.fs_bitmap)
        inside was (λ j h. clear-used j)

  count-free :
      is_clear fs.fs_bitmap b ≡ false
      → count 1021 (is_clear fs.fs_bitmap) + 1
        ≡ count 1021 (is_clear (fs_mark_block_free b fs).1.fs_bitmap)
  count-free was =
      count-clear 1021 b (is_clear (fs_mark_block_free b fs).1.fs_bitmap) (is_clear fs.fs_bitmap)
        inside (ground (arith, clear-free b)) (λ j h. ground (arith, clear-free j))

  free-used :
      is_clear fs.fs_bitmap b ≡ true
      → (fs_mark_block_used b fs).1.fs_sb.free_block_count
        ≡ count 1021 (is_clear (fs_mark_block_used b fs).1.fs_bitmap)
  free-used was =
      ground (arith, sb_used, v.free, count-used was, count-le 1021 (is_clear fs.fs_bitmap))
    where
      sb_used :
          (fs_mark_block_used b fs).1.fs_sb.free_block_count
          ≡ (fs.fs_sb.free_block_count + 4294967296 - 1) % 4294967296
      sb_used = unfold fs_mark_block_used in ground (arith, v.blocks)

  free-free :
      is_clear fs.fs_bitmap b ≡ false
      → (fs_mark_block_free b fs).1.fs_sb.free_block_count
        ≡ count 1021 (is_clear (fs_mark_block_free b fs).1.fs_bitmap)
  free-free was = ground (
    arith,
    sb_free,
    v.free,
    count-free was,
    count-le 1021 (is_clear (fs_mark_block_free b fs).1.fs_bitmap),
  )
    where
      sb_free :
          (fs_mark_block_free b fs).1.fs_sb.free_block_count
          ≡ (fs.fs_sb.free_block_count + 1) % 4294967296
      sb_free = unfold fs_mark_block_free in ground (arith, v.blocks)

  pub same-used :
      let fs' = (fs_mark_block_used b fs).1 in
      (fs'.fs_sb.num_data_blocks ≡ 1021)
      × (fs'.fs_sb.first_data_block ≡ 3)
      × (fs'.fs_rootdir ≡ fs.fs_rootdir)
      × (fs'.fs_disk ≡ fs.fs_disk)
  unfolding fs_mark_block_used
  same-used = ground (arith, v.blocks, v.first)

  pub same-free :
      let fs' = (fs_mark_block_free b fs).1 in
      (fs'.fs_sb.num_data_blocks ≡ 1021)
      × (fs'.fs_sb.first_data_block ≡ 3)
      × (fs'.fs_rootdir ≡ fs.fs_rootdir)
      × (fs'.fs_disk ≡ fs.fs_disk)
  unfolding fs_mark_block_free
  same-free = ground (arith, v.blocks, v.first)

  -- Marking a clear block used and giving an unused slot to it.
  pub take_block-IsValid :
      (i : ℕ) (e : DirEntry)
      → is_clear fs.fs_bitmap b ≡ true
      → i < length fs.fs_rootdir
      → (entry_at i fs).is_used ≡ 0
      → e.is_used ≡ 1
      → e.first_data_block ≡ b + 3
      → (length e.name ≡ 16) × (length (text e.name) ≤ 15)
      → IsValid (set_entry i e (fs_mark_block_used b fs).1)
  take_block-IsValid i e was lt unused used at name = record {
    blocks = same-used.0;
    first = same-used.1;
    bytes = bytes-used;
    slots = ground (arith, same-used, length-set fs.fs_rootdir i e, v.slots);
    placed = rw (same-used.2) (All-set _ fs.fs_rootdir i e v.placed (ground arith));
    named = rw (same-used.2) (All-set IsNamed fs.fs_rootdir i e v.named (omega arith));
    owned = λ j h.
        rw (same-used.2)
          (ground (arith, clear-used j, v.owned j h, owners-set j fs.fs_rootdir i e lt));
    free = free-used was;
  }

  still : (i : ℕ) → i < length fs.fs_rootdir → IsNamed (record (entry_at i fs) { is_used = 0 })
  still i lt =
      let n = All-get_or IsNamed fs.fs_rootdir i empty_entry v.named lt in
      record { field = n.field; terminated = n.terminated }

  -- Marking an owned block free and giving up the slot that has it.
  pub release_block-IsValid :
      (i : ℕ)
      → is_clear fs.fs_bitmap b ≡ false
      → i < length fs.fs_rootdir
      → (entry_at i fs).is_used ≢ 0
      → (entry_at i fs).first_data_block ≡ b + 3
      → IsValid (set_entry i (record (entry_at i fs) { is_used = 0 }) (fs_mark_block_free b fs).1)
  release_block-IsValid i was lt used at = record {
    blocks = same-free.0;
    first = same-free.1;
    bytes = bytes-free;
    slots = ground (
      arith,
      same-free,
      length-set fs.fs_rootdir i (record (entry_at i fs) { is_used = 0 }),
      v.slots,
    );
    placed = rw (same-free.2) (All-set _ fs.fs_rootdir i _ v.placed (ground arith));
    named = rw (same-free.2) (All-set IsNamed fs.fs_rootdir i _ v.named (still i lt));
    owned = λ j h. rw (same-free.2) (
        ground (
          arith,
          clear-free j,
          v.owned j h,
          owners-set j fs.fs_rootdir i (record (entry_at i fs) { is_used = 0 }) lt,
        ));
    free = free-free was;
  }
