-- ===== src/Shell/Session.antt =====
-- kernel/Shell.c: what a typed command does.
use shed_kernel.Prelude.{
  ℕ, ◌≡◌, refl, ap, ◌∙◌, sym, Bool, true, false, not, ◌&&◌, some, List, [], ◌∷◌, ◌++◌, arith, ◌==◌,
  codes, is_some, some_of_is_some, append_assoc, append_nil,
}
use shed_kernel.CString.{strcmp, strchr}
use shed_kernel.Console.{Vga, put_string}
use shed_kernel.Console.Format.{kprintf, parse_precision, convert}
use shed_kernel.Console.Returns.{accepts, kprintf-returns}
use shed_kernel.Fs.Dir.{fs_create_file}
use shed_kernel.Fs.Messages.{kprintf_all, create_prints}
use shed_kernel.Syscall.Returns.{kprintf_all-returns, create_prints-print}
use shed_kernel.Shell.{is_delim, tok_delim, lsh_execute, find_builtin}
use shed_kernel.Shell.Line.{is_typed, lsh_read_line-typed}
use shed_kernel.Shell.Words.{flush, words, lsh_split_line-words}
use shed_kernel.Shell.Commands.{
  Lsh, status, set_vga, prints, touch_command, run_builtin, execute, lsh_round,
}

-- A word: bytes that are typed as they are, and end neither a word nor the line.
abbrev pub is_word : List ℕ → Bool
is_word [] = true
is_word (c ∷ s) = not (c == 0) && not (is_delim tok_delim c) && is_word s

words-word : (s cur : List ℕ) → is_word s ≡ true → words tok_delim s cur ≡ flush (cur ++ s)
words-word [] cur h = ap flush (sym (append_nil cur))
words-word (c ∷ s) cur h =
    let nz : (c == 0) ≡ false = ground arith in
    let plain : is_delim tok_delim c ≡ false = ground arith in
    rw nz (
      rw plain
        (words-word s (cur ++ c ∷ []) (ground arith) ∙ ap flush (append_assoc cur (c ∷ []) s)))

blank_is_delim : is_delim tok_delim 32 ≡ true
unfolding strchr
blank_is_delim = refl

pub words-blank :
    (s t cur : List ℕ)
    → is_word s ≡ true
    → is_word t ≡ true
    → words tok_delim (s ++ (32 ∷ t)) cur ≡ flush (cur ++ s) ++ flush t
words-blank [] t cur h h' = rw blank_is_delim (
    ap (λ k. flush cur ++ k) (words-word t [] h')
    ∙ ap (λ k. flush k ++ flush t) (sym (append_nil cur)))
words-blank (c ∷ s) t cur h h' =
    let nz : (c == 0) ≡ false = ground arith in
    let plain : is_delim tok_delim c ≡ false = ground arith in
    rw nz (
      rw plain (
        words-blank s t (cur ++ c ∷ []) (ground arith) h'
        ∙ ap (λ k. flush k ++ flush t) (append_assoc cur (c ∷ []) s)))

prompt-returns : (v : Vga) → is_some (kprintf (codes "> ") [] v) ≡ true
unfolding accepts parse_precision convert
prompt-returns = kprintf-returns (codes "> ") [] refl

newline-returns : (v : Vga) → is_some (kprintf (codes "\n") [] v) ≡ true
unfolding accepts parse_precision convert
newline-returns = kprintf-returns (codes "\n") [] refl

-- A typed line of the shell is split into its words, which are executed; the keys behind the line
-- are left.
pub lsh_round-execute :
    (stack : ℕ → ℕ) (line rest : List ℕ) (s : Lsh)
    → is_typed line ≡ true
    → (v : Vga) × (lsh_round stack (line ++ 10 ∷ rest) s
        ≡ execute stack (words tok_delim line []) rest (set_vga v s))
unfolding lsh_round
lsh_round-execute stack line rest s typed =
    let (v1, prompt) = some_of_is_some _ (prompt-returns s.vga) in
    let v2 = put_string line v1 in
    let read = lsh_read_line-typed line rest v1 typed in
    let (v3, newline) = some_of_is_some _ (newline-returns v2) in
    (
      v3,
      rw (prompt, lsh_round)
          (rw (read, lsh_round)
            (rw (newline, lsh_round) (rw (lsh_split_line-words line, lsh_round) refl))),
    )

touch_is_word : is_word (codes "touch") ≡ true
unfolding strchr
touch_is_word = refl

execute-touch :
    (stack : ℕ → ℕ) (name : List ℕ) (rest : List ℕ) (s : Lsh)
    → execute stack (codes "touch" ∷ name ∷ []) rest s ≡ touch_command (name ∷ []) rest s
unfolding execute lsh_execute find_builtin run_builtin strcmp
execute-touch stack name rest s = refl

touch_command-returns :
    (name rest : List ℕ) (s : Lsh)
    → (v : Vga) × (touch_command (name ∷ []) rest s
        ≡ some (status 1, rest, record s { fs = (fs_create_file name s.fs).1; vga = v }))
unfolding touch_command prints
touch_command-returns name rest s =
    let (v, done) =
      some_of_is_some (kprintf_all (create_prints name s.fs) s.vga)
        (kprintf_all-returns (create_prints name s.fs) s.vga (create_prints-print name s.fs)) in
    (v, rw (done, prints) refl)

-- Typing "touch", a blank, a name without delimiters, and a newline makes `lsh_loop` create a file of
-- that name and go on with the keys behind the newline.
pub lsh_round-touch :
    (stack : ℕ → ℕ) (c : ℕ) (name rest : List ℕ) (s : Lsh)
    → is_typed (c ∷ name) ≡ true
    → is_word (c ∷ name) ≡ true
    → (s' : Lsh) × (lsh_round stack ((codes "touch" ++ (32 ∷ c ∷ name)) ++ 10 ∷ rest) s
        ≡ some (status 1, rest, s'))
      × (s'.fs ≡ (fs_create_file (c ∷ name) s.fs).1)
lsh_round-touch stack c name rest s typed word =
    let line = codes "touch" ++ (32 ∷ c ∷ name) in
    let (v1, round) = lsh_round-execute stack line rest s typed in
    let split = words-blank (codes "touch") (c ∷ name) [] touch_is_word word in
    let (v2, done) = touch_command-returns (c ∷ name) rest (set_vga v1 s) in
    (
      record s { fs = (fs_create_file (c ∷ name) s.fs).1; vga = v2 },
      round
          ∙ ap (λ args. execute stack args rest (set_vga v1 s)) split
          ∙ execute-touch stack (c ∷ name) rest (set_vga v1 s)
          ∙ done,
      refl,
    )
