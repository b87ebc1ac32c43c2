-- ===== src/Fs/Blocks.antt =====
-- The block loops of `fs_write_file` and `fs_read_file`: which bytes they move.
use shed_kernel.Prelude.{
  false, ℕ, zero, suc, ◌+◌, ◌-◌, ◌*◌, ◌/◌, ◌%◌, ◌≤◌, ◌<◌, ◌≡◌, refl, ◌&&◌, some, arith,
  if◌then◌else◌, ltb, leb, ◌==◌,
}
use shed_kernel.Fs.Disk.{Fs, fs_write_block, fs_read_block}
use shed_kernel.Fs.Dir.{read_blocks, write_blocks}

-- The disk after `n` blocks from number `i` of the file at block `first` have been written.
abbrev pub written : (first n i : ℕ) (buf : ℕ → ℕ) → (ℕ → ℕ → ℕ) → ℕ → ℕ → ℕ
written first n i buf disk b o =
    if leb (first + i) b && ltb b (first + i + n) && ltb o 4096
    then buf ((b - first) * 4096 + o)
    else disk b o

-- What a run of the write loop has done: the disk only, as `written` says.
pub record Wrote (first n i : ℕ) (buf : ℕ → ℕ) (fs fs' : Fs) : Type 0 where
  pub disk : (b o : ℕ) → fs'.fs_disk b o ≡ written first n i buf fs.fs_disk b o
  pub bitmap : fs'.fs_bitmap ≡ fs.fs_bitmap
  pub rootdir : fs'.fs_rootdir ≡ fs.fs_rootdir
  pub sb : fs'.fs_sb ≡ fs.fs_sb

abbrev pub one_written : (first i : ℕ) (buf : ℕ → ℕ) → Fs → Fs
one_written first i buf fs = record fs {
  fs_disk = λ b o. if b == first + i && ltb o 4096 then buf (i * 4096 + o) else fs.fs_disk b o;
}

pub write_block-one :
    (first i : ℕ) (buf : ℕ → ℕ) (fs : Fs)
    → 3 ≤ first
    → first + i < 1024
    → fs_write_block ((first + i) % 4294967296) (some (λ o. buf (i * 4096 + o))) fs
      ≡ some (one_written first i buf fs)
unfolding fs_write_block
write_block-one first i buf fs lo hi =
    let e : (first + i) % 4294967296 ≡ first + i = omega arith in rw e (ground arith)

-- A run of the write loop inside the data blocks succeeds and writes exactly those blocks.
pub write_blocks-Wrote :
    (first n i : ℕ) (buf : ℕ → ℕ) (fs : Fs)
    → 3 ≤ first
    → first + i + n ≤ 1024
    → (fs' : Fs) × (write_blocks first n i false buf fs ≡ some fs') × Wrote first n i buf fs fs'
unfolding write_blocks
write_blocks-Wrote first zero i buf fs lo hi =
    (fs, refl, record { disk = λ b o. ground arith; bitmap = refl; rootdir = refl; sb = refl })
write_blocks-Wrote first (suc n) i buf fs lo hi =
    let (fs', e, w) =
      write_blocks-Wrote first n (i + 1) buf (one_written first i buf fs) lo (omega arith) in
    (
      fs',
      rw (write_block-one first i buf fs lo (omega arith), write_blocks) e,
      record {
        disk = λ b o. ground (arith, w.disk b o, at b);
        bitmap = w.bitmap;
        rootdir = w.rootdir;
        sb = w.sb;
      },
    )
  where
    at : (b : ℕ) → b ≡ first + i → b - first ≡ i
    at b h = omega arith

-- The caller's memory after `n` blocks from number `i` have been read.
abbrev pub copied : (first n i : ℕ) → (ℕ → ℕ → ℕ) → (ℕ → ℕ) → ℕ → ℕ
copied first n i disk buf o =
    if leb (i * 4096) o && ltb o ((i + n) * 4096) then disk (first + o / 4096) (o % 4096) else buf o

abbrev one_copied : (first i : ℕ) → (ℕ → ℕ → ℕ) → (ℕ → ℕ) → ℕ → ℕ
one_copied first i disk buf o =
    if ltb o (i * 4096)
    then buf o
    else if ltb (o - i * 4096) 4096
    then disk (first + i) (o - i * 4096)
    else buf (i * 4096 + (o - i * 4096))

pub read_block-one :
    (first i : ℕ) (buf : ℕ → ℕ) (fs : Fs)
    → 3 ≤ first
    → first + i < 1024
    → fs_read_block ((first + i) % 4294967296) (λ o. buf (i * 4096 + o)) fs
      ≡ some (λ o. if ltb o 4096 then fs.fs_disk (first + i) o else buf (i * 4096 + o))
unfolding fs_read_block
read_block-one first i buf fs lo hi =
    let e : (first + i) % 4294967296 ≡ first + i = omega arith in rw e (ground arith)

-- A run of the read loop inside the data blocks succeeds, and fills exactly its part of the
-- caller's memory.
pub read_blocks-copied :
    (first n i : ℕ) (buf : ℕ → ℕ) (fs : Fs)
    → 3 ≤ first
    → first + i + n ≤ 1024
    → (buf' : ℕ → ℕ) × (read_blocks first n i buf fs ≡ some buf')
      × ((o : ℕ) → buf' o ≡ copied first n i fs.fs_disk buf o)
unfolding read_blocks
read_blocks-copied first zero i buf fs lo hi = (buf, refl, λ o. ground arith)
read_blocks-copied first (suc n) i buf fs lo hi =
    let (buf', e, c) =
      read_blocks-copied first n (i + 1) (one_copied first i fs.fs_disk buf) fs lo (omega arith) in
    (
      buf',
      rw (read_block-one first i buf fs lo (omega arith), read_blocks) e,
      λ o. ground (arith, c o, parts i o),
    )
  where
    parts :
        (i o : ℕ) → i * 4096 ≤ o → o - i * 4096 < 4096 → (o / 4096 ≡ i) × (o % 4096 ≡ o - i * 4096)
    parts i o a b = omega arith
