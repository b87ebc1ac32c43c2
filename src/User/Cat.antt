-- ===== src/User/Cat.antt =====
-- user/user_shell.c and fs/easyfs.c: what `cat` does to its buffer of 512 bytes.
use shed_kernel.Prelude.{ℕ, ◌+◌, ◌-◌, ◌/◌, ◌%◌, ◌<◌, ◌≡◌, refl, ap, ◌∙◌, some, List, arith, min}
use shed_kernel.Fs.Dir.{int32, entry_at, fs_find_file, fs_read_file}
use shed_kernel.Fs.Blocks.{copied, read_blocks-copied}
use shed_kernel.Fs.Files.{first_block}
use shed_kernel.Fs.Valid.{IsValid}
use shed_kernel.Syscall.{Kernel, bytes_from, store_from, to_u32, read_named}

copied-one :
    (first o : ℕ) (disk : ℕ → ℕ → ℕ) (buf : ℕ → ℕ)
    → o < 4096
    → copied first 1 0 disk buf o ≡ disk first o
copied-one first o disk buf h =
    let block : first + o / 4096 ≡ first = omega arith in
    let byte : o % 4096 ≡ o = omega arith in rw block (rw byte (ground arith))

-- In a valid file system, reading fewer than 4096 bytes of a file that is there puts all 4096 bytes
-- of its first block into memory, those behind the bytes that were asked for included.
pub read_named-block :
    (name : List ℕ) {i : ℕ} (buf size o : ℕ) (k : Kernel)
    → IsValid k.fs
    → fs_find_file name k.fs ≡ some i
    → size < 4096
    → o < 4096
    → buf + o < 4294967296
    → (r : ℕ) × (k' : Kernel) × (read_named name buf size k ≡ some (r, k'))
      × (k'.memory (buf + o) ≡ k.fs.fs_disk (entry_at i k.fs).first_data_block o)
unfolding read_named fs_read_file
read_named-block name {i} buf size o k v found small inside range =
    let e = entry_at i k.fs in
    let place = first_block name v found in
    let (bytes, done, c) =
      read_blocks-copied e.first_data_block 1 0 (bytes_from buf k.memory) k.fs place.0
        (omega (arith, place)) in
    let one : min (size / 4096 + 1) (e.file_size / 4096 + 1) ≡ 1 = omega arith in
    let at : (buf + o + 4294967296 - buf) % 4294967296 ≡ o = omega arith in
    (
      to_u32 (int32 e.file_size),
      record k { memory = store_from buf bytes },
      rw (found, read_named) (rw one (rw (done, read_named) refl)),
      ap bytes at
          ∙ c o
          ∙ copied-one e.first_data_block o k.fs.fs_disk (bytes_from buf k.memory) inside,
    )
