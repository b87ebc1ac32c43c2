-- ===== src/Shell/Tests.antt =====
-- The shell on short lines.
use shed_kernel.Prelude.{ℕ, ◌≡◌, refl, some, List, [], ◌∷◌, ◌++◌, codes, pos}
use shed_kernel.CString.{strchr, strcmp}
use shed_kernel.Console.{Vga}
use shed_kernel.Shell.{
  lsh_split_line, split_loop, strtok, skip_delims, cut_token, builtin_func, lsh_launch, lsh_execute,
  find_builtin,
}
use shed_kernel.Editor.{normal}
use shed_kernel.Fs.Dir.{fs_create_file}
use shed_kernel.Fs.Tests.{two_files}
use shed_kernel.Shell.Commands.{Lsh, status, lsh_round}
use shed_kernel.Shell.Session.{lsh_round-touch}

abbrev dark : Vga
dark = record { vidptr = λ a. 0; current_loc = 0 }

-- "  ls a "
abbrev spaced : List ℕ
spaced = 32 ∷ 32 ∷ 108 ∷ 115 ∷ 32 ∷ 97 ∷ 32 ∷ []

split_spaced : lsh_split_line spaced ≡ some ((108 ∷ 115 ∷ []) ∷ (97 ∷ []) ∷ [])
unfolding lsh_split_line split_loop strtok skip_delims cut_token strchr
split_spaced = refl

ls_is_builtin : lsh_execute ((108 ∷ 115 ∷ []) ∷ []) ≡ builtin_func 1
unfolding lsh_execute find_builtin strcmp
ls_is_builtin = refl

a_is_unknown : lsh_execute ((97 ∷ []) ∷ []) ≡ lsh_launch
unfolding lsh_execute find_builtin strcmp
a_is_unknown = refl

abbrev started : Lsh
started = record {
  fs = two_files;
  vga = dark;
  user_entry = 0;
  words = [];
  editor = record {
    cx = 0;
    cy = 0;
    rowoff = 0;
    coloff = 0;
    screenrows = 24;
    screencols = 80;
    dirty = pos 0;
    mode = normal;
    rows = [];
    filename = [];
    cmdbuf = [];
    yank = [];
  };
}

lsh_round-touch_example :
    (s' : Lsh) × (lsh_round (λ o. 0) ((codes "touch" ++ (32 ∷ 120 ∷ [])) ++ 10 ∷ 97 ∷ []) started
      ≡ some (status 1, 97 ∷ [], s'))
    × (s'.fs ≡ (fs_create_file (120 ∷ []) two_files).1)
unfolding strchr
lsh_round-touch_example = lsh_round-touch (λ o. 0) 120 [] (97 ∷ []) started refl refl
