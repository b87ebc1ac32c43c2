-- ===== src/Paging/Frames.antt =====
-- kernel/kernel.c and kernel/mm.c: the page frames that the page tables and the user heap take.
use shed_kernel.Prelude.{ℕ, zero, suc, ◌+◌, ◌%◌, ◌≡◌, some, arith, inl, inr, Option-cases}
use shed_kernel.Paging.{
  Paging, frame_of, alloc_page_frame, ensure_table, map_user_page, sbrk_loop, user_sbrk,
}

-- The next frame starts on a page.
abbrev pub IsAligned : Paging → Type 0
IsAligned p = p.next_free_page % 4096 ≡ 0

pub alloc_page_frame-IsAligned : (p : Paging) → IsAligned p → IsAligned (alloc_page_frame p).1
unfolding alloc_page_frame
alloc_page_frame-IsAligned p h = ground arith

pub map_user_page-IsAligned :
    (virt phys : ℕ) (p : Paging) → IsAligned p → IsAligned (map_user_page virt phys p)
unfolding map_user_page ensure_table
map_user_page-IsAligned virt phys p h = ground (arith, alloc_page_frame-IsAligned p h)

sbrk_loop-IsAligned :
    (f addr new_ptr : ℕ) (p p' : Paging)
    → IsAligned p
    → sbrk_loop f addr new_ptr p ≡ some p'
    → IsAligned p'
unfolding sbrk_loop
sbrk_loop-IsAligned zero addr new_ptr p p' h e = absurd (ground (arith, e))
sbrk_loop-IsAligned (suc f) addr new_ptr p p' h e = ground (
  arith,
  sbrk_loop-IsAligned f ((addr + 4096) % 4294967296) new_ptr
      (map_user_page addr (alloc_page_frame p).0 (alloc_page_frame p).1) p'
      (map_user_page-IsAligned addr (alloc_page_frame p).0 (alloc_page_frame p).1
        (alloc_page_frame-IsAligned p h)),
)

pub user_sbrk-IsAligned :
    (f ptr arg : ℕ) (p : Paging) (old ptr' : ℕ) (p' : Paging)
    → IsAligned p
    → user_sbrk f ptr arg p ≡ some (old, ptr', p')
    → IsAligned p'
unfolding user_sbrk
user_sbrk-IsAligned f ptr arg p old ptr' p' h e =
    elim (Option-cases (sbrk_loop f (frame_of ptr) ((ptr + arg) % 4294967296) p)) [
      | inl bad ↦ absurd (ground (arith, bad, e))
      | inr (p1, done) ↦ ground (arith, done, e, sbrk_loop-IsAligned f _ _ p p1 h done)
    ]
