-- ===== src/Paging/Sbrk.antt =====
-- kernel/kernel.c: the user heap of system call 12.
use shed_kernel.Prelude.{
  ℕ, ◌+◌, ◌/◌, ◌≢◌, ◌%◌, ◌≤◌, ◌<◌, ◌≡◌, refl, ap, ◌∙◌, true, false, ltb, some, arith, ◌⊎◌,
}
use shed_kernel.Paging.{
  Paging, frame_of, alloc_page_frame, map_user_page, table_of, sbrk_loop, user_sbrk,
}
use shed_kernel.Paging.Walk.{walk, walk-map_user_page}

frame-alloc :
    (p : Paging) → p.next_free_page < 134217728 → (alloc_page_frame p).0 ≡ p.next_free_page
unfolding alloc_page_frame
frame-alloc p h = ground arith

-- A request of system call 12 that is not empty and ends in the page where the heap ends already,
-- with the new end 0xFFFFF000 at most, maps this page to the next free frame. If the page was
-- mapped to an earlier frame, what was stored in it is not found there any more: the processor
-- finds each address of it at another place. There must be frames left, and the page table must lie
-- below 8 MB and not overlap the page directory.
pub user_sbrk-remaps :
    (ptr arg at old : ℕ) (p : Paging)
    → 0 < arg
    → ptr % 4096 + arg ≤ 4096
    → ptr + arg ≤ 4294963200
    → p.next_free_page % 4096 ≡ 0
    → p.next_free_page < 134217728
    → table_of (frame_of ptr) (alloc_page_frame p).1 < 0x800000
    → (table_of (frame_of ptr) (alloc_page_frame p).1 + 4096 ≤ 0x9C000)
      ⊎ (0x9D000 ≤ table_of (frame_of ptr) (alloc_page_frame p).1)
    → at / 4096 ≡ ptr / 4096
    → walk at p ≡ some old
    → old < p.next_free_page
    → (p' : Paging) × (user_sbrk 2 ptr arg p ≡ some (ptr, ptr + arg, p'))
      × (walk at p' ≡ some (p.next_free_page + at % 4096))
      × (old ≢ p.next_free_page + at % 4096)
unfolding user_sbrk sbrk_loop
user_sbrk-remaps ptr arg at old p some_bytes in_page small aligned free mapped apart same before
      earlier =
    let (frame, p1) = alloc_page_frame p in
    let first : frame ≡ p.next_free_page = frame-alloc p free in
    let wrap : (ptr + arg) % 4294967296 ≡ ptr + arg = omega arith in
    let round : ltb (frame_of ptr) (ptr + arg) ≡ true = ground arith in
    let writes : ltb (table_of (frame_of ptr) p1) 0x800000 ≡ true = ground (arith, mapped) in
    let last : ltb ((frame_of ptr + 4096) % 4294967296) (ptr + arg) ≡ false = ground arith in
    let found =
      walk-map_user_page (frame_of ptr) frame at p1 (omega arith) (rw first aligned)
        (omega (arith, same)) apart in
    (
      map_user_page (frame_of ptr) frame p1,
      rw (wrap, user_sbrk) (rw (round, writes, user_sbrk) (rw (last, user_sbrk) (rw wrap refl))),
      found ∙ ap (λ k. some (k + at % 4096)) first,
      λ e. omega (arith, e, earlier),
    )
