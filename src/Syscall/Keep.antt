-- ===== src/Syscall/Keep.antt =====
-- kernel/kernel.c: the invariant of the kernel, and the system calls.
use shed_kernel.Prelude.{
  ℕ, ◌+◌, ◌<◌, ◌≡◌, refl, subst, true, Option, none, some, List, [], ◌∷◌, arith, ◌⊎◌, inl, inr,
  Option-cases, codes, Bool, false, ◌==◌, ◌&&◌, leb, ltb,
}
use shed_kernel.Console.{Vga}
use shed_kernel.Console.Format.{Arg, num, str, kprintf}
use shed_kernel.Console.Cursor.{
  IsCursor, kprintf-IsCursor, clear_screen-IsCursor, kvga_set_cursor-IsCursor,
  kvga_write_char-IsCursor, kvga_clear_to_eol-IsCursor,
}
use shed_kernel.Fs.Dir.{fs_create_file, fs_delete_file, fs_write_file, fs_read_file}
use shed_kernel.Fs.Messages.{
  Line, kprintf_all, list_prints, create_prints, delete_prints, write_prints,
}
use shed_kernel.Fs.Valid.{IsValid}
use shed_kernel.Fs.Keep.{fs_create_file-IsValid, fs_delete_file-IsValid}
use shed_kernel.Fs.Writes.{fs_write_file-IsValid}
use shed_kernel.Kbd.{kbd_getchar}
use shed_kernel.Kbd.Queue.{IsRing, kbd_getchar-IsRing}
use shed_kernel.Mm.{Mm, malloc, mem_free}
use shed_kernel.Mm.Chain.{Blocks, has}
use shed_kernel.Mm.Malloc.{IsHeap, alloc}
use shed_kernel.Mm.Client.{malloc-result}
use shed_kernel.Mm.Free.{release}
use shed_kernel.Mm.Release.{mem_free-release}
use shed_kernel.Paging.{user_sbrk}
use shed_kernel.Paging.Frames.{IsAligned, user_sbrk-IsAligned}
use shed_kernel.Syscall.{
  Kernel, Call, exit, print, getchar, malloc_call, free, list_files, create_file, delete_file,
  read_file, write_file, erase, clear, sbrk, editor, write_char, set_cursor, clear_to_eol, unknown,
  Result, on_screen, string_at, erase_cell, bytes_from, create_named, delete_named, read_named,
  write_named, with_string, run_call, guarded, is_own, is_inside, to_u32,
}

-- Every part is well formed: the file system, the key ring, the heap in `dynamic_mem_area` at
-- `area`, the cursor and the next page frame.
pub record IsKernel (area : ℕ) (k : Kernel) : Type 0 where
  pub files : IsValid k.fs
  pub keys : IsRing k.kbd
  pub blocks : Blocks
  pub heap : IsHeap area blocks k.mm
  pub cursor : IsCursor k.vga
  pub frames : IsAligned k.paging

-- What the caller has to keep to: sizes are 32-bit numbers, and what it frees is NULL or the payload
-- of a block of the heap.
abbrev pub IsFreeable : (area p : ℕ) → Mm → Type 0
IsFreeable area p m =
    (p ≡ 0) ⊎ ((b : ℕ) × (bs : Blocks) × (p ≡ b + 16) × IsHeap area bs m × (has b area bs ≡ true))

abbrev pub IsPolite : (area : ℕ) → Call → Kernel → Type 0
IsPolite area (malloc_call size) k = size < 4294967296
IsPolite area (free p) k = IsFreeable area p k.mm
IsPolite area call k = Unit

pub kprintf_all-IsCursor :
    (lines : List Line) (v v' : Vga) → IsCursor v → kprintf_all lines v ≡ some v' → IsCursor v'
unfolding kprintf_all
kprintf_all-IsCursor [] v v' h e = subst IsCursor (ground (arith, e)) h
kprintf_all-IsCursor ((format, args) ∷ lines) v v' h e =
    elim (Option-cases (kprintf format args v)) [
      | inl bad ↦ absurd (ground (arith, bad, e))
      | inr (v1, done) ↦
          kprintf_all-IsCursor lines v1 v' (kprintf-IsCursor format args h done)
            (ground (arith, done, e))
    ]

pub kept :
    {area : ℕ} {k : Kernel} (blocks : Blocks)
    → IsValid k.fs
    → IsRing k.kbd
    → IsHeap area blocks k.mm
    → IsCursor k.vga
    → IsAligned k.paging
    → IsKernel area k
kept blocks files keys heap cursor frames = record {
  files = files;
  keys = keys;
  blocks = blocks;
  heap = heap;
  cursor = cursor;
  frames = frames;
}

-- What a call that has returned leaves is well formed.
abbrev pub Keeps : (area : ℕ) → Result → Type 0
Keeps area none = Unit
Keeps area (some (r, k)) = IsKernel area k

mem_free-null : (m : Mm) → mem_free 0 m ≡ m
unfolding mem_free
mem_free-null m = refl

module _ {area : ℕ} {k : Kernel} (w : IsKernel area k) where
  on_screen-Keeps :
      (n : ℕ) (o : Option Vga)
      → ((v : Vga) → o ≡ some v → IsCursor v)
      → Keeps area (on_screen n o k)
  on_screen-Keeps n none h = tt
  on_screen-Keeps n (some v) h = kept w.blocks w.files w.keys w.heap (h v refl) w.frames

  print-Keeps :
      (n : ℕ) (format : List ℕ) (args : List Arg)
      → Keeps area (on_screen n (kprintf format args k.vga) k)
  print-Keeps n format args =
      on_screen-Keeps n (kprintf format args k.vga) (λ v. kprintf-IsCursor format args w.cursor)

  print_all-Keeps :
      (n : ℕ) (lines : List Line) → Keeps area (on_screen n (kprintf_all lines k.vga) k)
  print_all-Keeps n lines =
      on_screen-Keeps n (kprintf_all lines k.vga) (λ v. kprintf_all-IsCursor lines k.vga v w.cursor)

  erase_cell-IsCursor : IsCursor (erase_cell k.vga)
  unfolding erase_cell
  erase_cell-IsCursor = ground (arith, w.cursor.even, w.cursor.small)

  guarded-Keeps : (c : Bool) (r : Result) → Keeps area r → Keeps area (guarded c r)
  guarded-Keeps false r h = tt
  guarded-Keeps true r h = h

  read_named-Keeps : (name : List ℕ) (buf size : ℕ) → Keeps area (read_named name buf size k)
  unfolding read_named
  read_named-Keeps name buf size =
      elim (Option-cases (fs_read_file name (bytes_from buf k.memory) size k.fs)) [
        | inl e ↦ rw (e, read_named) tt
        | inr (x, e) ↦ rw (e, read_named) (kept w.blocks w.files w.keys w.heap w.cursor w.frames)
      ]

  malloc-Keeps :
      (fuel size : ℕ) → size < 4294967296 → Keeps area (run_call fuel (malloc_call size) k)
  unfolding run_call
  malloc-Keeps fuel size small = elim (Option-cases (malloc size k.mm)) [
    | inl e ↦ rw (e, run_call) tt
    | inr ((p, m'), e) ↦
        rw (e, run_call)
          (kept (alloc size area w.blocks).1 w.files w.keys
            (malloc-result w.heap size small p m' e).1 w.cursor w.frames)
  ]

  getchar-Keeps : (fuel : ℕ) → Keeps area (run_call fuel getchar k)
  unfolding run_call
  getchar-Keeps fuel = elim (Option-cases (kbd_getchar k.kbd)) [
    | inl e ↦ rw (e, run_call) tt
    | inr ((c, kbd'), e) ↦
        rw (e, run_call)
          (kept w.blocks w.files (kbd_getchar-IsRing k.kbd c kbd' w.keys e) w.heap w.cursor
            w.frames)
  ]

  sbrk-Keeps : (fuel n : ℕ) → Keeps area (run_call fuel (sbrk n) k)
  unfolding run_call
  sbrk-Keeps fuel n = elim (Option-cases (user_sbrk fuel k.user_heap_ptr n k.paging)) [
    | inl e ↦ rw (e, run_call) tt
    | inr ((old, ptr', p'), e) ↦
        rw (e, run_call)
          (kept w.blocks w.files w.keys w.heap w.cursor
            (user_sbrk-IsAligned fuel k.user_heap_ptr n k.paging old ptr' p' w.frames e))
  ]

  free-Keeps : (fuel p : ℕ) → IsFreeable area p k.mm → Keeps area (run_call fuel (free p) k)
  unfolding run_call
  free-Keeps fuel p (inl null) =
      let same : mem_free p k.mm ≡ k.mm = rw null (mem_free-null k.mm) in
      kept w.blocks w.files w.keys (rw same w.heap) w.cursor w.frames
  free-Keeps fuel p (inr (b, bs, at, heap, here)) =
      kept (release b area bs) w.files w.keys (rw at (mem_free-release area bs k.mm heap b here))
        w.cursor w.frames

  with_string-Keeps :
      (o : Option (List ℕ)) (call : List ℕ → Result)
      → ((s : List ℕ) → Keeps area (call s))
      → Keeps area (with_string o call)
  with_string-Keeps none call h = tt
  with_string-Keeps (some s) call h = h s

create_named-Keeps :
    {area : ℕ} {k : Kernel} → IsKernel area k → (name : List ℕ) → Keeps area (create_named name k)
unfolding create_named
create_named-Keeps {k = k} w name =
    on_screen-Keeps
      (kept {k = record k { fs = (fs_create_file name k.fs).1 }} w.blocks
        (fs_create_file-IsValid w.files name) w.keys w.heap w.cursor w.frames)
      0 (kprintf_all (create_prints name k.fs) k.vga)
      (λ v. kprintf_all-IsCursor (create_prints name k.fs) k.vga v w.cursor)

delete_named-Keeps :
    {area : ℕ} {k : Kernel} → IsKernel area k → (name : List ℕ) → Keeps area (delete_named name k)
unfolding delete_named
delete_named-Keeps {k = k} w name =
    on_screen-Keeps
      (kept {k = record k { fs = (fs_delete_file name k.fs).1 }} w.blocks
        (fs_delete_file-IsValid w.files name) w.keys w.heap w.cursor w.frames)
      0 (kprintf_all (delete_prints name k.fs) k.vga)
      (λ v. kprintf_all-IsCursor (delete_prints name k.fs) k.vga v w.cursor)

write_named-Keeps :
    {area : ℕ} {k : Kernel}
    → IsKernel area k
    → (name : List ℕ) (buf size : ℕ) → Keeps area (write_named name buf size k)
unfolding write_named
write_named-Keeps {k = k} w name buf size =
    elim (Option-cases (fs_write_file name (buf == 0) (bytes_from buf k.memory) size k.fs)) [
      | inl e ↦ rw (e, write_named) tt
      | inr ((n, fs'), e) ↦
          let files =
            fs_write_file-IsValid name (buf == 0) (bytes_from buf k.memory) size n fs' w.files e in
          rw (e, write_named)
            (on_screen-Keeps
              (kept {k = record k { fs = fs' }} w.blocks files w.keys w.heap w.cursor w.frames)
              (to_u32 n) (kprintf_all (write_prints name (buf == 0) size k.fs) k.vga)
              (λ v. kprintf_all-IsCursor (write_prints name (buf == 0) size k.fs) k.vga v w.cursor))
    ]

module _ {area : ℕ} {k : Kernel} (w : IsKernel area k) (fuel : ℕ) where
  screen-Keeps : (v : Vga) → IsCursor v → (n : ℕ) → Keeps area (some (n, record k { vga = v }))
  screen-Keeps v h n = kept w.blocks w.files w.keys w.heap h w.frames

  -- Every system call that has returned leaves the kernel well formed, if what it frees is NULL or
  -- the payload of a block of the heap and the size that it allocates is a 32-bit number.
  pub run_call-Keeps : (call : Call) → IsPolite area call k → Keeps area (run_call fuel call k)
  unfolding run_call
  run_call-Keeps exit polite = kept w.blocks w.files w.keys w.heap w.cursor w.frames
  run_call-Keeps (print p) polite =
      with_string-Keeps w (string_at fuel k.memory p) _
        (λ s. print-Keeps w 0 (codes "%s") (str s ∷ []))
  run_call-Keeps getchar polite = getchar-Keeps w fuel
  run_call-Keeps (malloc_call size) polite = malloc-Keeps w fuel size polite
  run_call-Keeps (free p) polite = free-Keeps w fuel p polite
  run_call-Keeps list_files polite = print_all-Keeps w 0 (list_prints k.fs)
  run_call-Keeps (create_file p) polite =
      with_string-Keeps w (string_at fuel k.memory p) _ (create_named-Keeps w)
  run_call-Keeps (delete_file p) polite =
      with_string-Keeps w (string_at fuel k.memory p) _ (delete_named-Keeps w)
  run_call-Keeps (read_file p buf size) polite =
      guarded-Keeps w (is_own buf size) _
        (with_string-Keeps w (string_at fuel k.memory p) _ (λ s. read_named-Keeps w s buf size))
  run_call-Keeps (write_file p buf size) polite =
      guarded-Keeps w (is_inside buf size) _
        (with_string-Keeps w (string_at fuel k.memory p) _ (λ s. write_named-Keeps w s buf size))
  run_call-Keeps erase polite = screen-Keeps _ (erase_cell-IsCursor w) 0
  run_call-Keeps clear polite = screen-Keeps _ (clear_screen-IsCursor k.vga) 0
  run_call-Keeps (sbrk n) polite = sbrk-Keeps w fuel n
  run_call-Keeps editor polite = kept w.blocks w.files w.keys w.heap w.cursor w.frames
  run_call-Keeps (write_char row col cell) polite =
      guarded-Keeps w (ltb row 25 && ltb col 80) _
        (screen-Keeps _ (kvga_write_char-IsCursor row col _ _ w.cursor) 0)
  run_call-Keeps (set_cursor row col) polite =
      screen-Keeps _ (kvga_set_cursor-IsCursor row col k.vga) 0
  run_call-Keeps (clear_to_eol row col) polite =
      guarded-Keeps w (ltb row 25 && leb col 80) _
        (screen-Keeps _ (kvga_clear_to_eol-IsCursor row col w.cursor) 0)
  run_call-Keeps (unknown n) polite =
      print-Keeps w 0xFFFFFFFF (codes "unknown syscall %d\n") (num n ∷ [])
