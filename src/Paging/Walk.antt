-- ===== src/Paging/Walk.antt =====
-- `map_user_page` of kernel/kernel.c and what the processor finds in the page tables.
use shed_kernel.Prelude.{
  ℕ, ◌+◌, ◌*◌, ◌/◌, ◌%◌, ◌≤◌, ◌<◌, ◌≡◌, refl, ap, ◌∙◌, sym, ap₂, true, false, ◌==◌, if◌then◌else◌,
  Option, none, some, arith, ◌⊎◌,
}
use shed_kernel.Paging.{
  Paging, set_word, dir_slot, table_offset, frame_of, or_user, ensure_table, map_user_page,
  table_of,
}

-- The physical address of a virtual one, by the directory and the table.
unfoldable pub walk : ℕ → Paging → Option ℕ
walk virt p =
    let e = p.memory (dir_slot virt) in
    let t = p.memory (frame_of e + table_offset virt) in
    if e % 2 == 0 then none else if t % 2 == 0 then none else some (frame_of t + virt % 4096)

pub ensure-present : (virt : ℕ) (p : Paging) → (ensure_table virt p).memory (dir_slot virt) % 2 ≡ 1
unfolding ensure_table
ensure-present virt p = ground arith

flags : (x : ℕ) → x % 4096 ≡ 0 → (or_user x % 2 ≡ 1) × (frame_of (or_user x) ≡ x)
flags x h = (omega arith, omega arith)

walk-set_word :
    (at slot w : ℕ) (q : Paging)
    → slot ≡ frame_of (q.memory (dir_slot at)) + table_offset at
    → q.memory (dir_slot at) % 2 ≡ 1
    → (dir_slot at == slot) ≡ false
    → w % 2 ≡ 1
    → walk at (set_word slot w q) ≡ some (frame_of w + at % 4096)
unfolding walk
walk-set_word at slot w q e present clear odd =
    let entry : (q.memory (dir_slot at) % 2 == 0) ≡ false = rw present refl in
    let here : (frame_of (q.memory (dir_slot at)) + table_offset at == slot) ≡ true =
      ground (arith, e) in
    let page : (w % 2 == 0) ≡ false = rw odd refl in
    rw (clear, walk) (rw (entry, walk) (rw (here, walk) (rw (page, walk) refl)))

pub slot_apart :
    (virt table : ℕ)
    → virt < 4294967296
    → (table + 4096 ≤ 0x9C000) ⊎ (0x9D000 ≤ table)
    → (dir_slot virt == table + table_offset virt) ≡ false
slot_apart virt table small away = ground (arith, away)

-- After `map_user_page` of a virtual page to a frame at a multiple of 4096, the processor finds at
-- each address of the page the same place in the frame, whether the page had a table before or got a
-- new one, if this table does not overlap the page directory.
pub walk-map_user_page :
    (virt phys at : ℕ) (p : Paging)
    → virt < 4294967296
    → phys % 4096 ≡ 0
    → at / 4096 ≡ virt / 4096
    → (table_of virt p + 4096 ≤ 0x9C000) ⊎ (0x9D000 ≤ table_of virt p)
    → walk at (map_user_page virt phys p) ≡ some (phys + at % 4096)
unfolding map_user_page
walk-map_user_page virt phys at p small aligned same apart =
    let q = ensure_table virt p in
    let slot = frame_of (q.memory (dir_slot virt)) + table_offset virt in
    let dir : dir_slot at ≡ dir_slot virt = omega (arith, same) in
    let off : table_offset at ≡ table_offset virt = ap (λ k. 4 * (k % 1024)) same in
    let (odd, frame) = flags phys aligned in
    let clear : (dir_slot at == slot) ≡ false =
      rw dir (slot_apart virt (frame_of (q.memory (dir_slot virt))) small apart) in
    walk-set_word at slot (or_user phys) q
      (ap₂ (λ a b. frame_of (q.memory a) + b) (sym dir) (sym off))
      (ap (λ a. q.memory a % 2) dir ∙ ensure-present virt p) clear odd
    ∙ ap (λ k. some (k + at % 4096)) frame
