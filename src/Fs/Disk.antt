-- ===== src/Fs/Disk.antt =====
-- fs/easyfs.c and its headers: the state of the file system, its blocks and its bitmap.
--
-- `fs_disk` is one array in which blocks 0, 1 and 2 hold the superblock, the bitmap and the root
-- directory. The model keeps these three as typed values, and the data blocks as a function from
-- block number and offset to a byte. What would read or write past the array, or write over one of
-- the three through a data pointer, is `none`.
use Prim.Native.Nat.{bit_and, bit_or}
use shed_kernel.Prelude.{
  ℕ, zero, suc, ◌+◌, ◌-◌, ◌/◌, ◌%◌, ◌^◌, Bool, true, false, ◌&&◌, ◌||◌, Option, none, some, List,
  ltb, leb, ◌==◌, if◌then◌else◌, replicate,
}

abbrev pub block_size : ℕ
block_size = 4096

abbrev pub total_blocks : ℕ
total_blocks = 1024

abbrev pub max_filename_len : ℕ
max_filename_len = 16

abbrev pub max_dir_entries : ℕ
max_dir_entries = 64

abbrev pub num_data_blocks : ℕ
num_data_blocks = total_blocks - 3

abbrev pub superblock_magic : ℕ
superblock_magic = 0xDEADBEEF

abbrev pub u32_mod : ℕ
u32_mod = 4294967296

pub record Superblock : Type 0 where
  pub magic : ℕ
  pub total_blocks : ℕ
  pub block_size : ℕ
  pub num_data_blocks : ℕ
  pub free_block_count : ℕ
  pub bitmap_block : ℕ
  pub root_dir_block : ℕ
  pub first_data_block : ℕ
  pub timestamp : ℕ

pub record DirEntry : Type 0 where
  -- the array of 16 bytes
  pub name : List ℕ
  pub file_size : ℕ
  pub first_data_block : ℕ
  pub is_used : ℕ

pub record Fs : Type 0 where
  pub fs_sb : Superblock
  -- byte number to byte
  pub fs_bitmap : ℕ → ℕ
  pub fs_rootdir : List DirEntry
  -- block number, then offset in the block
  pub fs_disk : ℕ → ℕ → ℕ

abbrev pub empty_entry : DirEntry
empty_entry = record {
  name = replicate max_filename_len 0;
  file_size = 0;
  first_data_block = 0;
  is_used = 0;
}

unfoldable pub fs_init : Fs
fs_init = record {
  fs_sb = record {
    magic = superblock_magic;
    total_blocks = total_blocks;
    block_size = block_size;
    num_data_blocks = num_data_blocks;
    free_block_count = num_data_blocks;
    bitmap_block = 1;
    root_dir_block = 2;
    first_data_block = 3;
    timestamp = 0;
  };
  fs_bitmap = λ _. 0;
  fs_rootdir = replicate max_dir_entries empty_entry;
  fs_disk = λ _ _. 0;
}

-- `buf` is the caller's memory from the pointer on; `none` for it is a null pointer.
unfoldable pub fs_write_block : (block : ℕ) (buf : Option (ℕ → ℕ)) → Fs → Option Fs
fs_write_block block none fs = some fs
fs_write_block block (some buf) fs =
    if leb total_blocks block
    then some fs
    else if ltb block 3
    then none
    else some (record fs {
      fs_disk = λ b o. if b == block && ltb o block_size then buf o else fs.fs_disk b o;
    })

-- The caller's memory after the copy: the block in its first 4096 bytes.
unfoldable pub fs_read_block : (block : ℕ) (buf : ℕ → ℕ) → Fs → Option (ℕ → ℕ)
fs_read_block block buf fs =
    if leb total_blocks block || ltb block 3
    then none
    else some (λ o. if ltb o block_size then fs.fs_disk block o else buf o)

abbrev pub set_byte : ℕ → ℕ → (ℕ → ℕ) → ℕ → ℕ
set_byte i v f j = if j == i then v else f j

unfoldable pub fs_block_is_free : ℕ → Fs → Bool
fs_block_is_free block fs =
    if leb fs.fs_sb.num_data_blocks block
    then false
    else bit_and (fs.fs_bitmap (block / 8)) (2 ^ (block % 8)) == 0

unfoldable pub fs_mark_block_used : ℕ → Fs → Bool × Fs
fs_mark_block_used block fs = if leb fs.fs_sb.num_data_blocks block then (false, fs) else (
  true,
  record fs {
    fs_bitmap =
        set_byte (block / 8) (bit_or (fs.fs_bitmap (block / 8)) (2 ^ (block % 8)) % 256)
          fs.fs_bitmap;
    fs_sb = record (fs.fs_sb) {
      free_block_count = (fs.fs_sb.free_block_count + u32_mod - 1) % u32_mod;
    };
  },
)

unfoldable pub fs_mark_block_free : ℕ → Fs → Bool × Fs
fs_mark_block_free block fs = if leb fs.fs_sb.num_data_blocks block then (false, fs) else (
  true,
  record fs {
    fs_bitmap =
        set_byte (block / 8) (bit_and (fs.fs_bitmap (block / 8)) (255 - 2 ^ (block % 8)))
          fs.fs_bitmap;
    fs_sb = record (fs.fs_sb) { free_block_count = (fs.fs_sb.free_block_count + 1) % u32_mod };
  },
)

-- The loop of `fs_alloc_block` over the `n` blocks from `i` on.
unfoldable pub alloc_from : (n i : ℕ) → Fs → Option (ℕ × Fs)
alloc_from zero i fs = none
alloc_from (suc n) i fs =
    let rest = alloc_from n (i + 1) fs in
    if fs_block_is_free i fs
    then some (fs.fs_sb.first_data_block + i, (fs_mark_block_used i fs).1)
    else rest

-- `none` is the result -1.
unfoldable pub fs_alloc_block : Fs → Option (ℕ × Fs)
unfolding alloc_from
fs_alloc_block fs = alloc_from fs.fs_sb.num_data_blocks 0 fs
