-- ===== src/Mm.antt =====
-- kernel/mm.c and kernel/mm.h: the dynamic heap.
--
-- Memory is a function from addresses. The headers and the payload are kept apart: `nodes` holds the
-- `dynamic_mem_node_t` that stands at an address, `bytes` the payload bytes; that no header overlaps
-- another header or a payload is what the chain of `Mm.Chain` says. The address of
-- `dynamic_mem_area` is a parameter. NULL is 0.
pub mod Chain
pub mod Best
pub mod Update
pub mod Malloc
pub mod Alloc
pub mod Client
pub mod Absorb
pub mod Free
pub mod Release
pub mod Resize
pub mod Apart
pub mod Coalesced
mod Tests
use shed_kernel.Prelude.{
  ℕ, zero, suc, ◌+◌, ◌-◌, ◌*◌, ◌%◌, Bool, true, false, not, ◌&&◌, ◌||◌, Option, none, some, ltb,
  leb, ◌==◌, if◌then◌else◌,
}

abbrev pub total_size : ℕ
total_size = 1048576

-- sizeof(dynamic_mem_node_t) on the 32-bit target
abbrev pub node_size : ℕ
node_size = 16

abbrev pub u32_mod : ℕ
u32_mod = 4294967296

abbrev pub null : ℕ
null = 0

pub record Node : Type 0 where
  pub size : ℕ
  pub used : ℕ
  pub next : ℕ
  pub prev : ℕ

pub record Mm : Type 0 where
  pub nodes : ℕ → Node
  pub bytes : ℕ → ℕ
  pub dynamic_mem_start : ℕ

-- A write to the header at `p`.
abbrev pub set_node : ℕ → Node → Mm → Mm
set_node p n m = record m { nodes = λ a. if a == p then n else m.nodes a }

unfoldable pub init_dynamic_mem : ℕ → Mm → Mm
init_dynamic_mem area m =
    record (set_node area
      (record { size = total_size - node_size; used = 0; next = null; prev = null }) m) {
        dynamic_mem_start = area;
      }

abbrev pub fits : ℕ → ℕ → Node → Bool
fits size best_size n = (n.used == 0) && leb size n.size && leb n.size best_size

-- The loop of `find_best_mem_block`; `none` when the fuel is used up.
unfoldable pub find_loop : (fuel size cur best best_size : ℕ) → Mm → Option ℕ
find_loop zero size cur best best_size m = none
find_loop (suc f) size cur best best_size m =
    let n = m.nodes cur in
    let better = fits size best_size n in
    let rest =
      find_loop f size n.next (if better then cur else best) (if better then n.size else best_size)
        m in
    if cur == null then some best else rest

-- A chain has at most 65536 nodes, each of at least 16 bytes.
abbrev pub chain_fuel : ℕ
chain_fuel = 65538

unfoldable pub find_best_mem_block : (fuel heap size : ℕ) → Mm → Option ℕ
unfolding find_loop
find_best_mem_block fuel heap size m = find_loop fuel size heap null (total_size + 1) m

-- `block->next->prev = p`, if there is a next block.
abbrev pub set_prev_of : (next p : ℕ) → Mm → Mm
set_prev_of next p m =
    if next == null then m else set_node next (record (m.nodes next) { prev = p }) m

-- The branch of `malloc` that carves a node out of the tail of the block.
unfoldable pub carve : (block size : ℕ) → Mm → ℕ × Mm
carve block size m =
    let new_node = block + node_size + (m.nodes block).size - size - node_size in
    let next = (m.nodes block).next in
    let m1 = set_node new_node (record { size = size; used = 1; next = next; prev = block }) m in
    let m2 = set_prev_of next new_node m1 in
    let b = m2.nodes block in
    let m3 =
      set_node block
        (record b {
          next = new_node;
          size = (b.size + u32_mod - (size + node_size) % u32_mod) % u32_mod;
        })
        m2 in
    (new_node + node_size, m3)

unfoldable pub malloc_in : (block size : ℕ) → Mm → ℕ × Mm
malloc_in block size m =
    if block == null
    then (null, m)
    else if leb ((size + node_size) % u32_mod) (m.nodes block).size
    then carve block size m
    else (block + node_size, set_node block (record (m.nodes block) { used = 1 }) m)

-- The pointer, NULL where no block is large enough.
unfoldable pub malloc_fuel : (fuel size : ℕ) → Mm → Option (ℕ × Mm)
malloc_fuel fuel size m = elim (find_best_mem_block fuel m.dynamic_mem_start size m) [
  | none ↦ none
  | some block ↦ some (malloc_in block size m)
]

-- `node` takes in the block `next` behind it: what both coalescing helpers do.
unfoldable pub absorb : (node next : ℕ) → Mm → Mm
absorb node next m =
    let n = m.nodes node in
    let x = m.nodes next in
    let m1 =
      set_node node (record n { size = (n.size + (x.size + node_size)) % u32_mod; next = x.next })
        m in
    set_prev_of x.next node m1

unfoldable pub merge_next_node_into_current : ℕ → Mm → Mm
merge_next_node_into_current node m =
    let next = (m.nodes node).next in
    if not (next == null) && ((m.nodes next).used == 0) then absorb node next m else m

unfoldable pub merge_current_node_into_previous : ℕ → Mm → Mm
merge_current_node_into_previous node m =
    let prev = (m.nodes node).prev in
    if not (prev == null) && ((m.nodes prev).used == 0) then absorb prev node m else m

unfoldable pub mem_free : ℕ → Mm → Mm
mem_free p m =
    let node = (p + u32_mod - node_size) % u32_mod in
    if p == null || (node == null)
    then m
    else let m1 = set_node node (record (m.nodes node) { used = 0 }) m in
      merge_current_node_into_previous node (merge_next_node_into_current node m1)

unfoldable pub malloc : ℕ → Mm → Option (ℕ × Mm)
malloc size m = malloc_fuel chain_fuel size m

-- The copy loop of `realloc`, with `n` rounds left at index `i`.
unfoldable pub copy_bytes : (n i src dst : ℕ) → (ℕ → ℕ) → ℕ → ℕ
copy_bytes zero i src dst bytes = bytes
copy_bytes (suc n) i src dst bytes =
    copy_bytes n (i + 1) src dst (λ a. if a == dst + i then bytes (src + i) else bytes a)

unfoldable pub realloc : (area p size : ℕ) → Mm → Option (ℕ × Mm)
realloc area p size m =
    if p == null
    then malloc size m
    else if size == 0
    then some (null, mem_free p m)
    else if ltb p area || leb (area + total_size) p
    then some (null, m)
    else if leb size (m.nodes (p - node_size)).size
    then some (p, m)
    else elim (malloc size m) [
      | none ↦ none
      | some (new_p, m') ↦
          if new_p == null
          then some (null, m')
          else some (
            new_p,
            mem_free p (record m' {
              bytes = copy_bytes (m'.nodes (p - node_size)).size 0 p new_p m'.bytes;
            }),
          )
    ]
