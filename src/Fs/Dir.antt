-- ===== src/Fs/Dir.antt =====
-- fs/easyfs.c: the root directory, and reading and writing whole files.
use shed_kernel.Prelude.{
  ℕ, zero, suc, ◌+◌, ◌-◌, ◌*◌, ◌/◌, ◌%◌, Bool, false, not, ◌&&◌, Option, none, some, min, List, [],
  ◌∷◌, ltb, ◌==◌, if◌then◌else◌, get_or, set, ℤ, pos, negsuc,
}
use shed_kernel.CString.{strcmp}
use shed_kernel.Fs.Disk.{
  block_size, max_filename_len, u32_mod, DirEntry, Fs, empty_entry, fs_write_block, fs_read_block,
  fs_mark_block_free, fs_alloc_block,
}

-- An `int` from the bit pattern of a `uint32_t`.
abbrev pub int32 : ℕ → ℤ
int32 w = if ltb w 2147483648 then pos w else negsuc (4294967296 - w - 1)

abbrev pub is_zero : ℤ → Bool
is_zero (pos n) = n == 0
is_zero (negsuc n) = false

abbrev pub is_file : List ℕ → DirEntry → Bool
is_file name e = not (e.is_used == 0) && is_zero (strcmp e.name name)

-- The slot of the first entry that passes the test.
unfoldable pub find_slot : (DirEntry → Bool) → List DirEntry → Option ℕ
find_slot test [] = none
find_slot test (e ∷ es) =
    let rest = find_slot test es in
    if test e then some 0 else elim rest [ none ↦ none | some i ↦ some (i + 1) ]

-- The pointer to an entry is its slot, `none` is NULL.
unfoldable pub fs_find_file : List ℕ → Fs → Option ℕ
unfolding find_slot
fs_find_file name fs = find_slot (is_file name) fs.fs_rootdir

-- The loop that copies at most `n` bytes of a name, and the terminator behind it.
unfoldable pub copy_name : ℕ → List ℕ → List ℕ → List ℕ
copy_name n name [] = []
copy_name n [] (o ∷ old) = 0 ∷ old
copy_name zero (c ∷ name) (o ∷ old) = 0 ∷ old
copy_name (suc n) (c ∷ name) (o ∷ old) = if c == 0 then 0 ∷ old else c ∷ copy_name n name old

abbrev pub entry_at : ℕ → Fs → DirEntry
entry_at i fs = get_or fs.fs_rootdir i empty_entry

abbrev pub set_entry : ℕ → DirEntry → Fs → Fs
set_entry i e fs = record fs { fs_rootdir = set fs.fs_rootdir i e }

abbrev pub ok : ℤ
ok = pos 0

abbrev pub error : ℤ
error = negsuc 0

unfoldable pub create_in_slot : ℕ → List ℕ → Fs → ℤ × Fs
create_in_slot i name fs = elim (fs_alloc_block fs) [
  | none ↦ (error, fs)
  | some (block, fs') ↦ (
    ok,
    set_entry i
        (record {
          name = copy_name (max_filename_len - 1) name (entry_at i fs).name;
          file_size = 0;
          first_data_block = block;
          is_used = 1;
        })
        fs',
  )
]

unfoldable pub fs_create_file : List ℕ → Fs → ℤ × Fs
unfolding create_in_slot
fs_create_file name fs = elim (fs_find_file name fs) [
  | some i ↦ (error, fs)
  | none ↦ elim (find_slot (λ e. e.is_used == 0) fs.fs_rootdir) [
    | none ↦ (error, fs)
    | some i ↦ create_in_slot i name fs
  ]
]

unfoldable pub fs_delete_file : List ℕ → Fs → ℤ × Fs
fs_delete_file name fs = elim (find_slot (is_file name) fs.fs_rootdir) [
  | none ↦ (error, fs)
  | some i ↦
      let e = entry_at i fs in
      let block = (e.first_data_block + u32_mod - fs.fs_sb.first_data_block) % u32_mod in
      let (_, fs') = fs_mark_block_free block fs in (ok, set_entry i (record e { is_used = 0 }) fs')
]

-- The lines that `fs_list_files` prints: name and size of each used entry; none is "(empty)".
unfoldable pub list_entries : List DirEntry → List (List ℕ × ℕ)
list_entries [] = []
list_entries (e ∷ es) =
    if e.is_used == 0 then list_entries es else (e.name, e.file_size) ∷ list_entries es

unfoldable pub fs_list_files : Fs → List (List ℕ × ℕ)
unfolding list_entries
fs_list_files fs = list_entries fs.fs_rootdir

-- The loops over the `n` blocks from number `i` of the file on. When the buffer of a write is the null
-- pointer, `buf` is the memory from address 0 on: the pointer to the first block is null, the others are
-- not.
unfoldable pub read_blocks : (first n i : ℕ) (buf : ℕ → ℕ) → Fs → Option (ℕ → ℕ)
read_blocks first zero i buf fs = some buf
read_blocks first (suc n) i buf fs =
    elim (fs_read_block ((first + i) % u32_mod) (λ o. buf (i * block_size + o)) fs) [
      | none ↦ none
      | some page ↦
          read_blocks first n (i + 1)
            (λ o. if ltb o (i * block_size) then buf o else page (o - i * block_size)) fs
    ]

abbrev pub block_buf : (null : Bool) (i : ℕ) (buf : ℕ → ℕ) → Option (ℕ → ℕ)
block_buf null i buf = if null && (i == 0) then none else some (λ o. buf (i * block_size + o))

unfoldable pub write_blocks : (first n i : ℕ) (null : Bool) (buf : ℕ → ℕ) → Fs → Option Fs
write_blocks first zero i null buf fs = some fs
write_blocks first (suc n) i null buf fs =
    elim (fs_write_block ((first + i) % u32_mod) (block_buf null i buf) fs) [
      | none ↦ none
      | some fs' ↦ write_blocks first n (i + 1) null buf fs'
    ]

-- The result, and the caller's memory after it.
unfoldable pub fs_read_file : List ℕ → (buf : ℕ → ℕ) (size : ℕ) → Fs → Option (ℤ × (ℕ → ℕ))
fs_read_file name buf size fs = elim (fs_find_file name fs) [
  | none ↦ some (error, buf)
  | some i ↦
      let e = entry_at i fs in
      let n = min (size / block_size + 1) (e.file_size / block_size + 1) in
      elim (read_blocks e.first_data_block n 0 buf fs) [
        | none ↦ none
        | some buf' ↦ some (int32 e.file_size, buf')
      ]
]

unfoldable pub fs_write_file :
    List ℕ → (null : Bool) (buf : ℕ → ℕ) (size : ℕ) → Fs → Option (ℤ × Fs)
fs_write_file name null buf size fs = elim (fs_find_file name fs) [
  | none ↦ some (error, fs)
  | some i ↦
      let e = entry_at i fs in
      elim (write_blocks e.first_data_block (size / block_size + 1) 0 null buf fs) [
        | none ↦ none
        | some fs' ↦ some (int32 size, set_entry i (record e { file_size = size }) fs')
      ]
]
