-- ===== src/Fs/Messages.antt =====
-- fs/easyfs.c: what the operations print, as calls of `kprintf`.
use shed_kernel.Prelude.{
  ℕ, zero, suc, ◌+◌, ◌/◌, ◌%◌, Bool, ◌&&◌, ◌||◌, ◌++◌, leb, if◌then◌else◌, Option, none, some, List,
  [], ◌∷◌, ◌==◌, codes,
}
use shed_kernel.Console.{Vga}
use shed_kernel.Console.Format.{Arg, num, str, kprintf}
use shed_kernel.Fs.Disk.{Fs, total_blocks, block_size, u32_mod, num_data_blocks, fs_alloc_block}
use shed_kernel.Fs.Dir.{is_file, find_slot, entry_at, fs_find_file, fs_list_files}

-- A format and its arguments.
abbrev pub Line : Type 0
Line = List ℕ × List Arg

unfoldable pub kprintf_all : List Line → Vga → Option Vga
kprintf_all [] v = some v
kprintf_all ((format, args) ∷ lines) v = elim (kprintf format args v) [
  | none ↦ none
  | some v' ↦ kprintf_all lines v'
]

unfoldable pub init_prints : List Line
init_prints =
    (
      codes "easyfs: initialised. %d blocks, %d data blocks\n",
      num total_blocks ∷ num num_data_blocks ∷ [],
    )
    ∷ []

-- What `fs_create_file` prints when it is called in `fs`.
unfoldable pub create_prints : List ℕ → Fs → List Line
create_prints name fs = elim (fs_find_file name fs) [
  | some i ↦ (codes "easyfs: file '%s' already exists\n", str name ∷ []) ∷ []
  | none ↦ elim (find_slot (λ e. e.is_used == 0) fs.fs_rootdir) [
    | none ↦ (codes "easyfs: root directory full\n", []) ∷ []
    | some i ↦ elim (fs_alloc_block fs) [
      | none ↦ (codes "easyfs: no free blocks\n", []) ∷ []
      | some found ↦ []
    ]
  ]
]

unfoldable pub delete_prints : List ℕ → Fs → List Line
delete_prints name fs = elim (find_slot (is_file name) fs.fs_rootdir) [
  | none ↦ (codes "easyfs: file '%s' not found\n", str name ∷ []) ∷ []
  | some i ↦ []
]

-- What `fs_write_block` prints: it refuses a block behind the disk, and a null pointer.
unfoldable pub block_print : (block : ℕ) (null : Bool) → List Line
block_print block null =
    if leb total_blocks block || null
    then (codes "easyfs: failed to write block. Invalid block or buffer\n", []) ∷ []
    else []

-- The calls in the loop of `fs_write_file`, as in `write_blocks`.
unfoldable pub block_prints : (first n i : ℕ) (null : Bool) → List Line
unfolding block_print
block_prints first zero i null = []
block_prints first (suc n) i null =
    block_print ((first + i) % u32_mod) (null && (i == 0)) ++ block_prints first n (i + 1) null

unfoldable pub write_prints : List ℕ → (null : Bool) (size : ℕ) → Fs → List Line
unfolding block_prints
write_prints name null size fs = elim (fs_find_file name fs) [
  | none ↦ []
  | some i ↦ block_prints (entry_at i fs).first_data_block (size / block_size + 1) 0 null
]

unfoldable pub file_lines : List (List ℕ × ℕ) → List Line
file_lines [] = []
file_lines ((name, size) ∷ files) =
    (codes "  %s (%d bytes)\n", str name ∷ num size ∷ []) ∷ file_lines files

unfoldable pub list_prints : Fs → List Line
unfolding file_lines
list_prints fs = elim (fs_list_files fs) [
  | [] ↦ (codes "  (empty)\n", []) ∷ []
  | file ∷ files ↦ file_lines (file ∷ files)
]
