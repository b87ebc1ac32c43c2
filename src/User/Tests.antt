-- ===== src/User/Tests.antt =====
-- user/: the programs' functions at concrete inputs.
use shed_kernel.Prelude.{
  ℕ, suc, ◌+◌, ◌≡◌, refl, true, false, none, some, List, [], ◌∷◌, ◌++◌, arith, inl, replicate,
  codes, ◌==◌, if◌then◌else◌, leb, length,
}
use shed_kernel.Console.{Vga}
use shed_kernel.Console.Format.{put_text}
use shed_kernel.Fs.Dir.{entry_at}
use shed_kernel.Fs.Tests.{name_a, two_files, two_files-IsValid, found_a}
use shed_kernel.Kbd.Queue.{IsRing, waiting}
use shed_kernel.Shell.{tok_delim}
use shed_kernel.Shell.Words.{words}
use shed_kernel.Syscall.{Kernel, string_at, read_named, erase_cell}
use shed_kernel.User.{shed_shared_mem, _write, _read, read_line, line_loop, split_line}
use shed_kernel.User.Output.{shown, _write-put_text}
use shed_kernel.User.Input.{store_line, _read-line}
use shed_kernel.User.ShellLine.{split_line-words}
use shed_kernel.CString.{strchr}
use shed_kernel.User.Programs.{shell_round}
use shed_kernel.User.Session.{shell_round-edit}
use shed_kernel.User.Cat.{read_named-block}

abbrev dark : Vga
dark = record { vidptr = λ a. 0; current_loc = 0 }

-- "h" and a newline wait; "Hi" stands at address 200.
abbrev sample : Kernel
sample = record {
  fs = two_files;
  mm = record {
    nodes = λ a. record { size = 0; used = 0; next = 0; prev = 0 };
    bytes = λ a. 0;
    dynamic_mem_start = 0;
  };
  kbd = record {
    kbd_buf = 104 ∷ 10 ∷ replicate 254 0;
    kbd_buf_read = 0;
    kbd_buf_write = 2;
    shift_held = false;
    initialized = true;
    enabled = true;
    ports = [];
  };
  vga = dark;
  paging = record { memory = λ a. 0; next_free_page = 2097152 };
  memory = λ a. if a == 200 then 72 else if a == 201 then 105 else 0;
  user_heap_ptr = 0xE0000000;
  exit_requested = 0;
  jiffies = 0;
  user_entry = 0;
}

sample-IsRing : IsRing sample.kbd
sample-IsRing = record { buf_size = refl; read_in = omega arith; write_in = omega arith }

shell_round-edit_example :
    (k' : Kernel) × (shell_round 0 0 ((codes "edit" ++ (32 ∷ codes "notes")) ++ 10 ∷ []) sample
      ≡ some ([], k'))
    × (k'.user_entry ≡ 0x70000000)
    × (string_at (length (codes "notes") + 1) k'.memory shed_shared_mem ≡ some (codes "notes"))
unfolding strchr
shell_round-edit_example = shell_round-edit 0 0 110 (codes "otes") [] sample refl refl (omega arith)

_write-put_text_example :
    (k' : Kernel) × (_write (suc (suc 0)) 900 1 200 3 sample ≡ some (3, k'))
    × (k'.vga ≡ put_text (shown 3 200 sample.memory) dark)
_write-put_text_example = _write-put_text 0 900 1 200 3 sample (omega arith) (inl (omega arith))

_read-line_example :
    (k' : Kernel) × (_read 0 400 80 sample ≡ some (1 + 1, k'))
    × (waiting k'.kbd ≡ [])
    × (k'.memory ≡ store_line 400 (104 ∷ 10 ∷ []) sample.memory)
_read-line_example = _read-line (104 ∷ []) [] 0 400 80 sample sample-IsRing refl refl (omega arith)

typed_hi :
    read_line (104 ∷ 8 ∷ 105 ∷ 10 ∷ []) dark
    ≡ some (105 ∷ [], [], put_text (105 ∷ []) (erase_cell (put_text (104 ∷ []) dark)))
unfolding read_line line_loop
typed_hi = refl

-- Sixty-four words of one letter are one too many.
abbrev many_words : List ℕ
many_words =
    codes "a a a a a a a a a a a a a a a a a a a a a a a a a a a a a a a a "
    ++ codes "a a a a a a a a a a a a a a a a a a a a a a a a a a a a a a a a"

split_line-words_example : split_line many_words ≡ (
    if leb 64 (length (words tok_delim many_words []))
    then none
    else some (words tok_delim many_words []))
split_line-words_example = split_line-words many_words

read_named-block_example :
    (r : ℕ) × (k' : Kernel) × (read_named name_a 5000 512 sample ≡ some (r, k'))
    × (k'.memory (5000 + 600) ≡ two_files.fs_disk (entry_at 0 two_files).first_data_block 600)
read_named-block_example =
    read_named-block name_a 5000 512 600 sample two_files-IsValid found_a (omega arith)
      (omega arith) (omega arith)
