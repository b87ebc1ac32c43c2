-- ===== src/Editor/Command.antt =====
-- fs/ed.c: loading and saving the file, and the command line.
use shed_kernel.Prelude.{
  ℕ, zero, suc, ◌+◌, ◌-◌, Bool, true, false, ◌||◌, Option, none, some, min, List, [], ◌∷◌, ◌++◌,
  ltb, leb, ◌==◌, if◌then◌else◌, length, take, get_or, pos, negsuc,
}
use shed_kernel.CString.{text, strcmp}
use shed_kernel.Fs.Disk.{block_size, Fs, fs_write_block, fs_read_block}
use shed_kernel.Fs.Dir.{is_zero, entry_at, set_entry, fs_find_file, fs_create_file}
use shed_kernel.Editor.{EditorConfig, Row, numrows, editor_insert_row}

-- The loop of `editorOpen` over the bytes that are left; `cur` is what stands between `start` and `j`.
unfoldable pub open_loop : List ℕ → Row → EditorConfig → EditorConfig
unfolding editor_insert_row
open_loop [] cur e = e
open_loop (c ∷ s) cur e =
    if (c == 10) || (c == 0)
    then open_loop s [] (editor_insert_row (numrows e) cur e)
    else open_loop s (cur ++ c ∷ []) e

-- `n` bytes of a buffer from index `i` on.
abbrev pub read_bytes : (n i : ℕ) → (ℕ → ℕ) → List ℕ
read_bytes zero i f = []
read_bytes (suc n) i f = f i ∷ read_bytes n (i + 1) f

-- `stack` is what the buffer on the stack holds before. A size above `INT_MAX` is an index below 0.
unfoldable pub editor_open : (stack : ℕ → ℕ) → List ℕ → EditorConfig → Fs → Option EditorConfig
unfolding open_loop
editor_open stack filename e fs =
    let e1 = record e { filename = take 63 (text filename) } in
    elim (fs_find_file filename fs) [
      | none ↦ some e1
      | some i ↦
          let entry = entry_at i fs in
          if entry.file_size == 0
          then some e1
          else if leb 2147483648 entry.file_size
          then none
          else elim (fs_read_block entry.first_data_block stack fs) [
            | none ↦ none
            | some buf ↦
                some
                  (record (open_loop
                    (read_bytes (min entry.file_size (block_size - 1)) 0 buf ++ 0 ∷ []) [] e1) {
                      dirty = pos 0;
                    })
          ]
    ]

-- The loop of `editorSave`, with `space` bytes left: what it writes.
unfoldable pub save_loop : List Row → (space : ℕ) → List ℕ
save_loop [] space = []
save_loop (row ∷ rows) space =
    let copy = min (length row) space in
    let rest = save_loop rows (space - copy - 1) in
    if space == 0 then [] else take copy row ++ (if ltb copy space then 10 ∷ rest else [])

-- The written bytes, the terminator, and behind it what was on the stack.
abbrev pub save_buf : (stack : ℕ → ℕ) → List ℕ → ℕ → ℕ
save_buf stack out o =
    if ltb o (length out) then get_or out o 0 else if o == length out then 0 else stack o

unfoldable pub editor_save : (stack : ℕ → ℕ) → EditorConfig → Fs → Option (EditorConfig × Fs)
unfolding save_loop
editor_save stack e fs =
    let out = save_loop e.rows (block_size - 1) in
    let fs1 : Fs = elim (fs_find_file e.filename fs) [
      | none ↦ (fs_create_file e.filename fs).1
      | some i ↦ fs
    ] in
    if length e.filename == 0 then some (e, fs) else elim (fs_find_file e.filename fs1) [
      | none ↦ some (e, fs1)
      | some i ↦
          elim (fs_write_block (entry_at i fs1).first_data_block (some (save_buf stack out)) fs1) [
            | none ↦ none
            | some fs2 ↦ some (
              record e { dirty = pos 0 },
              set_entry i (record (entry_at i fs2) { file_size = length out }) fs2,
            )
          ]
    ]

-- "No write since last change (use :q!)"
abbrev pub no_write_message : List ℕ
no_write_message =
    78 ∷ 111 ∷ 32 ∷ 119 ∷ 114 ∷ 105 ∷ 116 ∷ 101 ∷ 32 ∷ 115 ∷ 105 ∷ 110 ∷ 99 ∷ 101 ∷ 32 ∷ 108 ∷ 97
    ∷ 115 ∷ 116 ∷ 32 ∷ 99 ∷ 104 ∷ 97 ∷ 110 ∷ 103 ∷ 101 ∷ 32 ∷ 40 ∷ 117 ∷ 115 ∷ 101 ∷ 32 ∷ 58 ∷ 113
    ∷ 33 ∷ 41 ∷ []

-- "Not an editor command: "
abbrev pub not_a_command : List ℕ
not_a_command =
    78 ∷ 111 ∷ 116 ∷ 32 ∷ 97 ∷ 110 ∷ 32 ∷ 101 ∷ 100 ∷ 105 ∷ 116 ∷ 111 ∷ 114 ∷ 32 ∷ 99 ∷ 111 ∷ 109
    ∷ 109 ∷ 97 ∷ 110 ∷ 100 ∷ 58 ∷ 32 ∷ []

abbrev pub is_command : List ℕ → List ℕ → Bool
is_command cmdbuf name = is_zero (strcmp cmdbuf name)

abbrev pub is_dirty : EditorConfig → Bool
is_dirty e = elim e.dirty [ pos n ↦ ltb 0 n | negsuc n ↦ false ]

-- Whether the command quits, and the state after it. The message for an unknown command is put
-- together in an array of 80 bytes; a longer one overflows it.
unfoldable pub editor_exec_command :
    (stack : ℕ → ℕ) → EditorConfig → Fs → Option (Bool × EditorConfig × Fs)
editor_exec_command stack e fs =
    if is_command e.cmdbuf (113 ∷ [])
    then (if is_dirty e
        then some (false, record e { cmdbuf = no_write_message }, fs)
        else some (true, e, fs))
    else if is_command e.cmdbuf (113 ∷ 33 ∷ [])
    then some (true, e, fs)
    else if is_command e.cmdbuf (119 ∷ [])
    then elim (editor_save stack e fs) [ none ↦ none | some (e', fs') ↦ some (false, e', fs') ]
    else if is_command e.cmdbuf (119 ∷ 113 ∷ [])
    then elim (editor_save stack e fs) [ none ↦ none | some (e', fs') ↦ some (true, e', fs') ]
    else if ltb 79 (length (not_a_command ++ e.cmdbuf))
    then none
    else some (false, record e { cmdbuf = not_a_command ++ e.cmdbuf }, fs)
