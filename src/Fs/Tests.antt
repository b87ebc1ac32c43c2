-- ===== src/Fs/Tests.antt =====
-- The file system's theorems at concrete states, and tests.
use shed_kernel.Prelude.{
  false, ℕ, ◌%◌, ◌≡◌, refl, ap, none, some, List, [], ◌∷◌, arith, replicate, get_or-replicate, pos,
}
use shed_kernel.CString.{strcmp}
use shed_kernel.Fs.Disk.{
  Fs, DirEntry, empty_entry, fs_init, fs_alloc_block, alloc_from, fs_block_is_free,
  fs_mark_block_used,
}
use shed_kernel.Fs.Dir.{
  ok, find_slot, copy_name, create_in_slot, entry_at, fs_find_file, fs_create_file, fs_delete_file,
  fs_read_file, fs_write_file,
}
use shed_kernel.Fs.Valid.{IsValid}
use shed_kernel.Fs.Keep.{fs_init-IsValid, fs_create_file-IsValid}
use shed_kernel.Fs.Files.{fs_read_file-write}
use shed_kernel.Fs.Names.{fs_find_file-create}
use shed_kernel.Fs.Distinct.{
  IsDistinct, fs_create_file-IsDistinct, fs_find_file-delete, create_twice-not-IsDistinct,
}
use shed_kernel.Fs.Isolation.{fs_read_file-write_other}
use shed_kernel.Fs.DiskEnd.{fs_write_file-past}

abbrev pub name_a : List ℕ
name_a = b'a' ∷ []

abbrev name_b : List ℕ
name_b = b'b' ∷ []

-- Sixteen characters.
abbrev long_name : List ℕ
long_name = replicate 16 b'x'

one_file : Fs
unfolding fs_create_file create_in_slot fs_find_file find_slot fs_alloc_block alloc_from
    fs_block_is_free fs_mark_block_used fs_init strcmp copy_name
one_file = (fs_create_file name_a fs_init).1

pub two_files : Fs
unfolding one_file
two_files = (fs_create_file name_b one_file).1

one_file-IsValid : IsValid one_file
unfolding one_file
one_file-IsValid = fs_create_file-IsValid fs_init-IsValid name_a

pub two_files-IsValid : IsValid two_files
unfolding two_files
two_files-IsValid = fs_create_file-IsValid one_file-IsValid name_b

created_a : fs_create_file name_a fs_init ≡ (ok, one_file)
unfolding one_file
created_a = refl

created_b : fs_create_file name_b one_file ≡ (ok, two_files)
unfolding two_files
created_b = refl

pub found_a : fs_find_file name_a two_files ≡ some 0
unfolding two_files
found_a = refl

found_b : fs_find_file name_b two_files ≡ some 1
unfolding two_files
found_b = refl

pub first_a : (entry_at 0 two_files).first_data_block ≡ 3
unfolding two_files
first_a = refl

-- Files under both names, and a write that reaches into the second file's block.
fs_create_file-IsValid_example : IsValid (fs_create_file name_b one_file).1
fs_create_file-IsValid_example = fs_create_file-IsValid one_file-IsValid name_b

fs_read_file-write_example :
    (fs' : Fs) × (buf' : ℕ → ℕ) × (fs_write_file name_a false (λ o. o % 256) 5000 two_files
      ≡ some (pos 5000, fs'))
    × (fs_read_file name_a (λ _. 0) 5000 fs' ≡ some (pos 5000, buf'))
    × (buf' 4500 ≡ 148)
fs_read_file-write_example =
    fs_read_file-write name_a two_files-IsValid found_a (λ o. o % 256) 5000 (omega (arith, first_a))
      (omega arith) (λ _. 0) 4500 (omega arith)

fs_read_file-write_other_example :
    (fs' : Fs) × (fs_write_file name_a false (λ _. 7) 4000 two_files ≡ some (pos 4000, fs'))
    × (fs_read_file name_b (λ _. 0) 100 fs' ≡ fs_read_file name_b (λ _. 0) 100 two_files)
fs_read_file-write_other_example =
    fs_read_file-write_other name_a name_b two_files-IsValid found_a found_b (λ e. ground arith)
      (λ _. 7) (λ _. 0) 4000 100 (omega arith) (omega arith)

fs_init-IsDistinct : IsDistinct fs_init
unfolding fs_init
fs_init-IsDistinct i j hi hj ui uj same =
    absurd (ui (ap (λ (e : DirEntry). e.is_used) (get_or-replicate 64 i empty_entry)))

one_file-IsDistinct : IsDistinct one_file
one_file-IsDistinct =
    fs_create_file-IsDistinct fs_init-IsValid fs_init-IsDistinct name_a one_file created_a
      (omega arith)

two_files-IsDistinct : IsDistinct two_files
two_files-IsDistinct =
    fs_create_file-IsDistinct one_file-IsValid one_file-IsDistinct name_b two_files created_b
      (omega arith)

-- The same long name created twice.
long_once : Fs
unfolding one_file
long_once = (fs_create_file long_name fs_init).1

long_twice : Fs
unfolding long_once
long_twice = (fs_create_file long_name long_once).1

long_first : fs_create_file long_name fs_init ≡ (ok, long_once)
unfolding long_once
long_first = refl

long_second : fs_create_file long_name long_once ≡ (ok, long_twice)
unfolding long_twice
long_second = refl

create_twice-not-IsDistinct_example : ¬ IsDistinct long_twice
create_twice-not-IsDistinct_example =
    create_twice-not-IsDistinct long_name fs_init-IsValid long_first long_second

-- A file of a little over 4 MB is one block too long for the disk.
fs_write_file-past_example :
    (fs' : Fs) × (fs_write_file name_a false (λ _. 1) 4182016 two_files ≡ some (pos 4182016, fs'))
    × (fs_read_file name_a (λ _. 0) 4182016 fs' ≡ none)
fs_write_file-past_example =
    fs_write_file-past name_a (λ _. 1) (λ _. 0) 4182016 two_files-IsValid found_a
      (omega (arith, first_a)) (omega arith)

fs_find_file-create_example :
    (i : ℕ) × (fs_find_file name_b two_files ≡ some i)
    × ((entry_at i two_files).file_size ≡ 0)
    × (fs_find_file name_a two_files ≡ fs_find_file name_a one_file)
fs_find_file-create_example =
    fs_find_file-create one_file-IsValid name_b two_files created_b (omega arith) name_a
      (λ e. ground arith)

fs_find_file-delete_example :
    ((fs_delete_file name_a two_files).0 ≡ ok)
    × (fs_find_file name_a (fs_delete_file name_a two_files).1 ≡ none)
    × (fs_find_file name_b (fs_delete_file name_a two_files).1 ≡ fs_find_file name_b two_files)
fs_find_file-delete_example =
    fs_find_file-delete two_files name_a 0 found_a name_b two_files-IsDistinct (λ e. ground arith)
