-- ===== src/Boot/Ready.antt =====
-- kernel/kernel.c: the kernel that `kernel_main` leaves to the shell.
use shed_kernel.Prelude.{
  ℕ, zero, suc, ◌+◌, ◌*◌, ◌%◌, ◌<◌, ◌≤◌, ◌≡◌, refl, true, Option, none, some, arith, inl, inr,
  Bool-cases, is_some, some_of_is_some, ltb, ◌==◌,
}
use shed_kernel.Console.{clear_screen}
use shed_kernel.Console.Format.{parse_precision, convert}
use shed_kernel.Console.Returns.{accepts, kprintf-returns}
use shed_kernel.Fs.Messages.{kprintf_all, init_prints}
use shed_kernel.Paging.{Paging, paging_alloc_init, init_paging}
use shed_kernel.Syscall.Keep.{IsKernel}
use shed_kernel.Syscall.Returns.{AllPrint, kprintf_all-returns}
use shed_kernel.Boot.{
  Env, Machine, Framebuffer, parse_framebuffer, fb_page, map_framebuffer, framebuffer_pages,
  kernel_main,
}

-- What `kernel_main` leaves, if it comes to its end.
abbrev Starts : (area : ℕ) → Option Machine → Type 0
Starts area none = Unit
Starts area (some m) = IsKernel area m.kernel

map_framebuffer-ends :
    (f off size addr : ℕ) (p : Paging)
    → off % 4096 ≡ 0
    → size ≤ 4294963200
    → size ≤ off + 4096 * f
    → off < 4294967296
    → is_some (map_framebuffer (suc f) off size addr p) ≡ true
unfolding map_framebuffer
map_framebuffer-ends zero off size addr p aligned low enough small = ground arith
map_framebuffer-ends (suc f) off size addr p aligned low enough small =
    elim (Bool-cases (ltb off size)) [
      | inl more ↦
          let wrap : (off + 4096) % 4294967296 ≡ off + 4096 = ground arith in
          rw (more, map_framebuffer)
            (rw wrap (
              map_framebuffer-ends f (off + 4096) size addr (fb_page ((addr + off) % 4294967296) p)
                (omega arith) low (omega arith) (ground arith)))
      | inr last ↦ rw (last, map_framebuffer) refl
    ]

init_prints-print : AllPrint init_prints
unfolding init_prints accepts parse_precision convert
init_prints-print = (kprintf-returns _ _ refl, tt)

framebuffer_pages-returns :
    (n : ℕ) (f : Framebuffer) (p : Paging)
    → f.fb_pitch * f.fb_height ≤ 4294963200
    → f.fb_pitch * f.fb_height ≤ 4096 * n
    → is_some (framebuffer_pages (suc n) f p) ≡ true
unfolding framebuffer_pages
framebuffer_pages-returns n f p low enough = elim (Bool-cases (f.fb_phys_addr == 0)) [
  | inl absent ↦ rw (absent, framebuffer_pages) refl
  | inr present ↦
      let wrap : f.fb_pitch * f.fb_height % 4294967296 ≡ f.fb_pitch * f.fb_height = omega arith in
      rw (present, framebuffer_pages)
        (rw wrap (
          map_framebuffer-ends n 0 (f.fb_pitch * f.fb_height) f.fb_phys_addr p refl low
            (omega arith) (omega arith)))
]

pub kernel_main-returns :
    (pages : ℕ) (env : Env)
    → (parse_framebuffer env.mb).fb_pitch * (parse_framebuffer env.mb).fb_height ≤ 4294963200
    → (parse_framebuffer env.mb).fb_pitch * (parse_framebuffer env.mb).fb_height ≤ 4096 * pages
    → is_some (kernel_main (suc pages) env) ≡ true
unfolding kernel_main
kernel_main-returns pages env low enough =
    let f = parse_framebuffer env.mb in
    let tables =
      init_paging
        (paging_alloc_init env.kernel_end (record { memory = env.words; next_free_page = 0 })) in
    let screen = clear_screen (record { vidptr = env.screen; current_loc = 0 }) in
    let (p, mapped) =
      some_of_is_some (framebuffer_pages (suc pages) f tables)
        (framebuffer_pages-returns pages f tables low enough) in
    let (v, printed) =
      some_of_is_some (kprintf_all init_prints screen)
        (kprintf_all-returns init_prints screen init_prints-print) in
    rw (mapped, kernel_main) (rw (printed, kernel_main) refl)
