-- ===== src/Paging/Growth.antt =====
-- kernel/kernel.c: when the page loop of system call 12 ends.
use shed_kernel.Prelude.{
  ℕ, zero, suc, ◌+◌, ◌-◌, ◌*◌, ◌/◌, ◌%◌, ◌≤◌, ◌<◌, ◌≡◌, refl, ap, ◌∙◌, true, ltb, arith, subst, inl,
  inr, ◌⊎◌, Bool-cases, Option-cases, is_some,
}
use shed_kernel.Paging.{
  Paging, frame_of, alloc_page_frame, dir_slot, ensure_table, map_user_page, table_of, sbrk_loop,
  user_sbrk,
}
use shed_kernel.Paging.Walk.{ensure-present, slot_apart}

-- A table that the kernel can write to, and that is not the page directory.
abbrev IsApart : ℕ → Type 0
IsApart table = (table + 4096 ≤ 0x9C000) ⊎ (0x9D000 ≤ table)

-- The entry of the directory for the 4 MB from `4194304 * s` on refers to such a table.
record HasTable (s : ℕ) (p : Paging) : Type 0 where
  present : p.memory (0x9C000 + 4 * s) % 2 ≡ 1
  mapped : frame_of (p.memory (0x9C000 + 4 * s)) < 0x800000
  apart : IsApart (frame_of (p.memory (0x9C000 + 4 * s)))

memory-alloc : (p : Paging) → (alloc_page_frame p).1.memory ≡ p.memory
unfolding alloc_page_frame
memory-alloc p = ground arith

ensure_table-present :
    (virt : ℕ) (p : Paging) → p.memory (dir_slot virt) % 2 ≡ 1 → ensure_table virt p ≡ p
unfolding ensure_table
ensure_table-present virt p h = ground (arith, h)

-- Mapping a page leaves the entry of the directory as `ensure_table` made it.
entry-map_user_page :
    (virt phys : ℕ) (p : Paging)
    → virt < 4294967296
    → IsApart (table_of virt p)
    → (map_user_page virt phys p).memory (dir_slot virt)
      ≡ (ensure_table virt p).memory (dir_slot virt)
unfolding map_user_page
entry-map_user_page virt phys p small apart =
    rw (slot_apart virt (table_of virt p) small apart) refl

map_user_page-HasTable :
    (virt phys : ℕ) (p : Paging)
    → virt < 4294967296
    → table_of virt p < 0x800000
    → IsApart (table_of virt p)
    → HasTable (virt / 4194304) (map_user_page virt phys p)
map_user_page-HasTable virt phys p small mapped apart =
    let e = entry-map_user_page virt phys p small apart in
    record { present = rw e (ensure-present virt p); mapped = rw e mapped; apart = rw e apart }

HasTable-table :
    (virt : ℕ) (p : Paging)
    → HasTable (virt / 4194304) p
    → table_of virt (alloc_page_frame p).1 ≡ frame_of (p.memory (dir_slot virt))
HasTable-table virt p h =
    let q = (alloc_page_frame p).1 in
    let same = ensure_table-present virt q (rw (memory-alloc p) h.present) in
    ap (λ k. frame_of (k.memory (dir_slot virt))) same
    ∙ ap (λ m. frame_of (m (dir_slot virt))) (memory-alloc p)

sbrk_loop-ends :
    (f s addr new_ptr : ℕ) (p : Paging)
    → HasTable s p
    → 4194304 * s ≤ addr
    → new_ptr ≤ 4194304 * s + 4194304
    → addr % 4096 ≡ 0
    → new_ptr ≤ 4294963200
    → new_ptr ≤ addr + 4096 * f
    → addr < 4294967296
    → is_some (sbrk_loop (suc f) addr new_ptr p) ≡ true
unfolding sbrk_loop
sbrk_loop-ends zero s addr new_ptr p table above region aligned low enough small = ground arith
sbrk_loop-ends (suc f) s addr new_ptr p table above region aligned low enough small =
    elim (Bool-cases (ltb addr new_ptr)) [
      | inl more ↦
          let (frame, p1) = alloc_page_frame p in
          let here : addr / 4194304 ≡ s = ground (arith, more) in
          let at : HasTable (addr / 4194304) p = rw here table in
          let t = HasTable-table addr p at in
          let p2 = map_user_page addr frame p1 in
          let next : HasTable (addr / 4194304) p2 =
            map_user_page-HasTable addr frame p1 small (rw t at.mapped) (rw t at.apart) in
          let mapped : ltb (table_of addr p1) 0x800000 ≡ true = rw t (ground (arith, at.mapped)) in
          let wrap : (addr + 4096) % 4294967296 ≡ addr + 4096 = ground (arith, more) in
          rw (more, mapped, sbrk_loop)
            (rw wrap (
              sbrk_loop-ends f s (addr + 4096) new_ptr p2 (subst (λ k. HasTable k p2) here next)
                (omega arith) region (omega arith) low (omega arith) (ground (arith, more))))
      | inr last ↦ rw (last, sbrk_loop) refl
    ]

sbrk_loop-first :
    (f addr new_ptr : ℕ) (p : Paging)
    → addr < new_ptr
    → new_ptr ≤ 4194304 * (addr / 4194304) + 4194304
    → addr % 4096 ≡ 0
    → new_ptr ≤ 4294963200
    → new_ptr ≤ addr + 4096 * suc f
    → IsApart (table_of addr (alloc_page_frame p).1)
    → is_some (sbrk_loop (suc (suc f)) addr new_ptr p)
      ≡ ltb (table_of addr (alloc_page_frame p).1) 0x800000
unfolding sbrk_loop
sbrk_loop-first f addr new_ptr p more region aligned low enough apart =
    let (frame, p1) = alloc_page_frame p in
    let more_pages : ltb addr new_ptr ≡ true = ground (arith, more) in
    let wrap : (addr + 4096) % 4294967296 ≡ addr + 4096 = omega arith in
    elim (Bool-cases (ltb (table_of addr p1) 0x800000)) [
      | inl mapped ↦
          let table =
            map_user_page-HasTable addr frame p1 (omega arith) (ground (arith, mapped)) apart in
          rw (more_pages, mapped, sbrk_loop)
            (rw wrap (
              sbrk_loop-ends f (addr / 4194304) (addr + 4096) new_ptr (map_user_page addr frame p1)
                table (omega arith) region (omega arith) low (omega arith) (omega arith)))
      | inr fault ↦ rw (more_pages, fault, sbrk_loop) refl
    ]

is_some-sbrk :
    (fuel ptr arg : ℕ) (p : Paging)
    → ptr + arg < 4294967296
    → is_some (user_sbrk fuel ptr arg p) ≡ is_some (sbrk_loop fuel (frame_of ptr) (ptr + arg) p)
unfolding user_sbrk
is_some-sbrk fuel ptr arg p small =
    let wrap : (ptr + arg) % 4294967296 ≡ ptr + arg = omega arith in
    rw (wrap, user_sbrk)
      (elim (Option-cases (sbrk_loop fuel (frame_of ptr) (ptr + arg) p)) [
        | inl e ↦ rw e refl
        | inr (q, e) ↦ rw e refl
      ])

-- System call 12, for a request that is not empty and ends, at 0xFFFFF000 at most, in the 4 MB of the
-- address space in which the heap ends already, returns within `arg / 4096 + 3` rounds of its page loop
-- if and only if the page table for these 4 MB, which it takes from the next frame where there is none,
-- lies below 8 MB: only these are mapped. The table must not be the page directory.
pub user_sbrk-ends :
    (fuel ptr arg : ℕ) (p : Paging)
    → 0 < arg
    → ptr + arg ≤ 4194304 * (ptr / 4194304) + 4194304
    → ptr + arg ≤ 4294963200
    → arg / 4096 + 3 ≤ fuel
    → (table_of (frame_of ptr) (alloc_page_frame p).1 + 4096 ≤ 0x9C000)
      ⊎ (0x9D000 ≤ table_of (frame_of ptr) (alloc_page_frame p).1)
    → is_some (user_sbrk fuel ptr arg p)
      ≡ ltb (table_of (frame_of ptr) (alloc_page_frame p).1) 0x800000
user_sbrk-ends fuel ptr arg p some_bytes region low enough apart =
    is_some-sbrk fuel ptr arg p (omega arith)
    ∙ subst
        (λ f.
          is_some (sbrk_loop f (frame_of ptr) (ptr + arg) p)
          ≡ ltb (table_of (frame_of ptr) (alloc_page_frame p).1) 0x800000)
        (omega arith)
        (sbrk_loop-first (fuel - 2) (frame_of ptr) (ptr + arg) p (omega arith) (omega arith)
          (omega arith) low (omega arith) apart)
