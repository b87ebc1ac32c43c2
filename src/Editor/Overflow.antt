-- ===== src/Editor/Overflow.antt =====
-- fs/ed.c: commands typed on the command line.
use shed_kernel.Prelude.{
  ℕ, ◌+◌, ◌≤◌, ◌<◌, ◌≡◌, refl, ap, ◌∙◌, sym, Bool, true, false, ◌&&◌, ◌||◌, Option, none, some,
  List, [], ◌∷◌, ◌++◌, ltb, ◌==◌, length, arith, Bool-cases, inl, inr, ℤ, pos, negsuc, append_nil,
  append_assoc, length-append,
}
use shed_kernel.CString.{text, strcmp}
use shed_kernel.CString.Compare.{strcmp-eq_zero}
use shed_kernel.Fs.Disk.{Fs}
use shed_kernel.Fs.Dir.{is_zero}
use shed_kernel.Editor.{EditorConfig, command}
use shed_kernel.Editor.Command.{is_command}
use shed_kernel.Editor.Keys.{printable, editor_process_keypress, command_key}
use shed_kernel.Editor.Lines.{editor_exec_command-overflow}

-- The keys one after the other; none of them reads a second one.
unfoldable pub run_keys : (stack : ℕ → ℕ) → List ℕ → EditorConfig → Fs → Option (EditorConfig × Fs)
run_keys stack [] e fs = some (e, fs)
run_keys stack (c ∷ keys) e fs = elim (editor_process_keypress stack c 0 e fs) [
  | none ↦ none
  | some (e', fs') ↦ run_keys stack keys e' fs'
]

abbrev pub all_printable : List ℕ → Bool
all_printable [] = true
all_printable (c ∷ keys) = printable c && all_printable keys

abbrev on_command_line : List ℕ → EditorConfig → EditorConfig
on_command_line buf e = record e { mode = command; cmdbuf = buf }

command_key-typed :
    (stack : ℕ → ℕ) (c : ℕ) (buf : List ℕ) (e : EditorConfig) (fs : Fs)
    → printable c ≡ true
    → length buf < 78
    → command_key stack c (on_command_line buf e) fs ≡ some (on_command_line (buf ++ c ∷ []) e, fs)
unfolding command_key
command_key-typed stack c buf e fs p room =
    let escape : (c == 27) ≡ false = ground arith in
    let enter : (c == 10) ≡ false = ground arith in
    let back : ((c == 8) || (c == 127)) ≡ false = ground arith in
    let fits : ltb (length buf) 78 ≡ true = ground arith in
    rw (escape, enter, back, p, fits, command_key) refl

run_keys-typed :
    (stack : ℕ → ℕ) (keys rest buf : List ℕ) (e : EditorConfig) (fs : Fs)
    → all_printable keys ≡ true
    → length buf + length keys ≤ 78
    → run_keys stack (keys ++ rest) (on_command_line buf e) fs
      ≡ run_keys stack rest (on_command_line (buf ++ keys) e) fs
unfolding run_keys editor_process_keypress
run_keys-typed stack [] rest buf e fs p room =
    ap (λ k. run_keys stack rest (on_command_line k e) fs) (sym (append_nil buf))
run_keys-typed stack (c ∷ keys) rest buf e fs p room =
    rw (command_key-typed stack c buf e fs (ground arith) (omega arith), run_keys)
      (run_keys-typed stack keys rest (buf ++ c ∷ []) e fs (ground arith)
          (omega (arith, length-append buf (c ∷ [])))
        ∙ ap (λ k. run_keys stack rest (on_command_line k e) fs) (append_assoc buf (c ∷ []) keys))

text-printable : (keys : List ℕ) → all_printable keys ≡ true → text keys ≡ keys
text-printable [] p = refl
text-printable (c ∷ keys) p = ground (arith, text-printable keys)

is_zero-eq : (z : ℤ) → is_zero z ≡ true → z ≡ pos 0
is_zero-eq (pos n) h = ground arith
is_zero-eq (negsuc n) h = absurd (ground arith)

-- A long command is none of the short ones.
is_command-long :
    (keys name : List ℕ)
    → all_printable keys ≡ true
    → length (text name) < length keys
    → is_command keys name ≡ false
is_command-long keys name p long = elim (Bool-cases (is_command keys name)) [
  | inr h ↦ h
  | inl h ↦
      let same : keys ≡ text name =
        sym (text-printable keys p) ∙ strcmp-eq_zero keys name (is_zero-eq (strcmp keys name) h) in
      absurd (omega (arith, long, ap (λ (k : List ℕ). length k) same))
]

-- On an empty command line, 57 to 78 printable characters and a newline end in a write behind the
-- array for the message about an unknown command.
pub run_keys-overflow :
    (stack : ℕ → ℕ) (keys : List ℕ) (e : EditorConfig) (fs : Fs)
    → all_printable keys ≡ true
    → 57 ≤ length keys
    → length keys ≤ 78
    → run_keys stack (keys ++ 10 ∷ []) (record e { mode = command; cmdbuf = [] }) fs ≡ none
unfolding run_keys editor_process_keypress command_key
run_keys-overflow stack keys e fs p long short =
    let gone =
      editor_exec_command-overflow stack (on_command_line keys e) fs
        (is_command-long keys (113 ∷ []) p (omega arith))
        (is_command-long keys (113 ∷ 33 ∷ []) p (omega arith))
        (is_command-long keys (119 ∷ []) p (omega arith))
        (is_command-long keys (119 ∷ 113 ∷ []) p (omega arith)) (omega arith) in
    run_keys-typed stack keys (10 ∷ []) [] e fs p (omega (arith, short)) ∙ rw (gone, run_keys) refl
