-- ===== src/Editor/Run.antt =====
-- fs/ed.c: `editorRun`.
use shed_kernel.Prelude.{
  ℕ, Bool, false, ◌||◌, Option, none, some, List, [], ◌∷◌, ◌==◌, if◌then◌else◌, ℤ, pos, negsuc,
}
use shed_kernel.Console.{Vga, clear_screen}
use shed_kernel.Fs.Disk.{Fs}
use shed_kernel.Editor.{EditorConfig, normal, insert, command}
use shed_kernel.Editor.Keys.{editor_process_keypress, editor_start}
use shed_kernel.Editor.Draw.{editor_refresh_screen}

-- `E.dirty == -9999`
abbrev pub is_quit : ℤ → Bool
is_quit (pos n) = false
is_quit (negsuc n) = n == 9998

-- The keys 'd' and 'y' in normal mode read a second key.
abbrev pub takes_second : EditorConfig → ℕ → Bool
takes_second e c = elim e.mode [
  | normal ↦ (c == 100) || (c == 121)
  | insert ↦ false
  | command ↦ false
]

-- The editor, the disk, the screen, and the keys that are left.
abbrev pub Session : Type 0
Session = EditorConfig × Fs × Vga × List ℕ

-- The loop of `editorRun` behind the refresh; `pending` is a first key that waits for its second one.
unfoldable pub run_loop :
    (stack : ℕ → ℕ) (pending : Option ℕ) (keys : List ℕ) → EditorConfig → Fs → Vga → Option Session
run_loop stack pending [] e fs v = none
run_loop stack pending (c ∷ keys) e fs v =
    let first : ℕ = elim pending [ none ↦ c | some d ↦ d ] in
    let wait : Option Session = run_loop stack (some c) keys e fs v in
    let step : Option Session = elim (editor_process_keypress stack first c e fs) [
      | none ↦ none
      | some (e', fs') ↦
          if is_quit e'.dirty
          then some (e', fs', clear_screen v, keys)
          else elim (editor_refresh_screen e' v) [
            | none ↦ none
            | some (e'', v') ↦ run_loop stack none keys e'' fs' v'
          ]
    ] in
    elim pending [ none ↦ if takes_second e c then wait else step | some d ↦ step ]

unfoldable pub editor_run :
    (stack : ℕ → ℕ) (filename keys : List ℕ) → EditorConfig → Fs → Vga → Option Session
unfolding run_loop
editor_run stack filename keys e fs v = elim (editor_start stack filename e fs) [
  | none ↦ none
  | some e1 ↦ elim (editor_refresh_screen e1 v) [
    | none ↦ none
    | some (e2, v') ↦ run_loop stack none keys e2 fs v'
  ]
]
