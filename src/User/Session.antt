-- ===== src/User/Session.antt =====
-- user/user_shell.c: what a typed line does.
use shed_kernel.Prelude.{
  ℕ, ◌+◌, ◌%◌, ◌<◌, ◌≤◌, ◌≡◌, refl, ap, ◌∙◌, sym, true, false, none, some, List, [], ◌∷◌, ◌++◌,
  arith, ◌==◌, leb, length, length-append, append_assoc, append_nil, codes,
}
use shed_kernel.CString.{text, strcmp, strchr}
use shed_kernel.Console.{Vga}
use shed_kernel.Console.Format.{put_text}
use shed_kernel.Shell.{tok_delim}
use shed_kernel.Shell.Line.{is_typed}
use shed_kernel.Shell.Words.{words}
use shed_kernel.Shell.Session.{is_word, words-blank}
use shed_kernel.Syscall.{Kernel, string_at}
use shed_kernel.User.{
  line_loop, read_line, split_line, execute, kernel_of, sys_exec_editor, shed_shared_mem,
}
use shed_kernel.User.Calls.{sys_exec_editor-name}
use shed_kernel.User.ShellLine.{split_line-words}
use shed_kernel.User.Programs.{shell_round}

-- The echo of a line.
abbrev pub echo : List ℕ → Vga → Vga
echo [] v = v
echo (c ∷ s) v = echo s (put_text (text (c ∷ [])) v)

line_loop-plain :
    (line rest buf : List ℕ) (v : Vga)
    → is_typed line ≡ true
    → length buf + length line < 1023
    → line_loop (line ++ 10 ∷ rest) buf v ≡ some (buf ++ line, rest, echo line v)
unfolding line_loop
line_loop-plain [] rest buf v plain short = ap (λ l. some (l, rest, v)) (sym (append_nil buf))
line_loop-plain (c ∷ line) rest buf v plain short =
    let byte : c % 256 ≡ c = ground (arith, plain) in
    let no_end : (c == 10) ≡ false = ground (arith, plain) in
    let no_back : (c == 8) ≡ false = ground (arith, plain) in
    let room : leb 1023 (length buf + 1) ≡ false = ground (arith, short) in
    rw (byte, no_end, no_back, room, line_loop)
      (line_loop-plain line rest (buf ++ c ∷ []) (put_text (text (c ∷ [])) v)
          (ground (arith, plain)) (omega (arith, short, length-append buf (c ∷ [])))
        ∙ ap (λ l. some (l, rest, echo line (put_text (text (c ∷ [])) v)))
            (append_assoc buf (c ∷ []) line))

-- A typed line of fewer than 64 words is split into them, which are executed; the codes behind it are
-- left.
pub shell_round-execute :
    (fuel buf : ℕ) (line rest : List ℕ) (k : Kernel)
    → is_typed line ≡ true
    → length line < 1023
    → length (words tok_delim line []) < 64
    → (v : Vga) × (shell_round fuel buf (line ++ 10 ∷ rest) k
        ≡ elim (execute fuel buf (words tok_delim line []) (record k { vga = v })) [
          | none ↦ none
          | some k' ↦ some (rest, k')
        ])
unfolding shell_round read_line
shell_round-execute fuel buf line rest k plain short few =
    let read =
      line_loop-plain line rest [] (put_text (codes "> ") k.vga) plain (omega (arith, short)) in
    let room : leb 64 (length (words tok_delim line [])) ≡ false = ground (arith, few) in
    let split : split_line line ≡ some (words tok_delim line []) =
      split_line-words line ∙ rw room refl in
    (
      put_text (codes "\n") (echo line (put_text (codes "> ") k.vga)),
      rw (read, shell_round) (rw (split, shell_round) refl),
    )

edit_is_word : is_word (codes "edit") ≡ true
unfolding strchr
edit_is_word = refl

text-word : (s : List ℕ) → is_word s ≡ true → text s ≡ s
text-word [] word = refl
text-word (c ∷ s) word =
    let nz : (c == 0) ≡ false = ground arith in rw nz (ap (λ t. c ∷ t) (text-word s (ground arith)))

-- For the two words, `execute` calls `sys_exec_editor`.
execute-edit :
    (fuel buf : ℕ) (name : List ℕ) (k : Kernel)
    → execute fuel buf (codes "edit" ∷ name ∷ []) k ≡ kernel_of (sys_exec_editor name k)
unfolding execute strcmp
execute-edit fuel buf name k = refl

-- Typing "edit", a blank, a name of at most 1000 bytes without delimiters, and a newline into the
-- shell of the user starts the editor, which finds the name at the shared address; the keys behind the
-- newline are left.
pub shell_round-edit :
    (fuel buf c : ℕ) (name rest : List ℕ) (k : Kernel)
    → is_typed (c ∷ name) ≡ true
    → is_word (c ∷ name) ≡ true
    → length (c ∷ name) ≤ 1000
    → (k' : Kernel) × (shell_round fuel buf ((codes "edit" ++ (32 ∷ c ∷ name)) ++ 10 ∷ rest) k
        ≡ some (rest, k'))
      × (k'.user_entry ≡ 0x70000000)
      × (string_at (length (c ∷ name) + 1) k'.memory shed_shared_mem ≡ some (c ∷ name))
shell_round-edit fuel buf c name rest k typed word short =
    let line = codes "edit" ++ (32 ∷ c ∷ name) in
    let split : words tok_delim line [] ≡ codes "edit" ∷ (c ∷ name) ∷ [] =
      words-blank (codes "edit") (c ∷ name) [] edit_is_word word in
    let (v, round) =
      shell_round-execute fuel buf line rest k typed (omega (arith, short))
        (rw split (omega arith)) in
    let (k', done, entry, found) =
      sys_exec_editor-name (c ∷ name) (record k { vga = v }) (omega (arith, short)) in
    (
      k',
      round
          ∙ ap
              (λ args. elim (execute fuel buf args (record k { vga = v })) [
                | none ↦ none
                | some k' ↦ some (rest, k')
              ])
              split
          ∙ rw (execute-edit fuel buf (c ∷ name) (record k { vga = v })) (rw done refl),
      entry,
      found ∙ ap (λ s. some s) (text-word (c ∷ name) word),
    )
