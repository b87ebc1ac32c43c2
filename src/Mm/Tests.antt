-- ===== src/Mm/Tests.antt =====
-- mm.c on a heap at address 4096.
use shed_kernel.Prelude.{ℕ, ◌+◌, ◌≡◌, ◌≢◌, ◌⊎◌, refl, true, some, [], ◌∷◌, arith}
use shed_kernel.Mm.{Mm, init_dynamic_mem, malloc, mem_free, realloc}
use shed_kernel.Mm.Chain.{block, Blocks, has}
use shed_kernel.Mm.Best.{block_at, best_of}
use shed_kernel.Mm.Update.{set_used_at, split_at, join_at}
use shed_kernel.Mm.Malloc.{IsHeap, init_dynamic_mem-IsHeap, alloc, malloc-alloc}
use shed_kernel.Mm.Client.{malloc-live}
use shed_kernel.Mm.Free.{release}
use shed_kernel.Mm.Release.{mem_free-release}
use shed_kernel.Mm.Apart.{is_coalesced}
use shed_kernel.Mm.Coalesced.{mem_free-malloc-is_coalesced}
use shed_kernel.Mm.Resize.{resize, realloc-resize}

abbrev no_memory : Mm
no_memory = record {
  nodes = λ a. record { size = 0; used = 0; next = 0; prev = 0 };
  bytes = λ a. 0;
  dynamic_mem_start = 0;
}

abbrev fresh : Mm
unfolding init_dynamic_mem
fresh = init_dynamic_mem 4096 no_memory

abbrev one_free : Blocks
one_free = block 1048560 0 ∷ []

abbrev one_used : Blocks
one_used = block 1048444 0 ∷ block 100 1 ∷ []

fresh-IsHeap : IsHeap 4096 one_free fresh
unfolding init_dynamic_mem
fresh-IsHeap = init_dynamic_mem-IsHeap 4096 no_memory (omega arith) (omega arith)

alloc_100 : alloc 100 4096 one_free ≡ (1052572, one_used)
unfolding alloc best_of split_at
alloc_100 = refl

malloc-alloc_example :
    (m' : Mm) × (malloc 100 fresh ≡ some ((alloc 100 4096 one_free).0, m'))
    × IsHeap 4096 (alloc 100 4096 one_free).1 m'
malloc-alloc_example = malloc-alloc 4096 one_free fresh fresh-IsHeap 100 (omega arith)

abbrev used_memory : Mm
unfolding alloc best_of split_at
used_memory = (malloc-alloc 4096 one_free fresh fresh-IsHeap 100 (omega arith)).0

used-IsHeap : IsHeap 4096 one_used used_memory
unfolding alloc best_of split_at
used-IsHeap = (malloc-alloc 4096 one_free fresh fresh-IsHeap 100 (omega arith)).2

malloc_100 : malloc 100 fresh ≡ some (1052572, used_memory)
unfolding alloc best_of split_at
malloc_100 = (malloc-alloc 4096 one_free fresh fresh-IsHeap 100 (omega arith)).1

-- A request that no block can serve.
abbrev full_memory : Mm
unfolding alloc best_of
full_memory = (malloc-alloc 4096 one_free fresh fresh-IsHeap 1048576 (omega arith)).0

malloc_too_much : malloc 1048576 fresh ≡ some (0, full_memory)
unfolding alloc best_of
malloc_too_much = (malloc-alloc 4096 one_free fresh fresh-IsHeap 1048576 (omega arith)).1

-- A second request beside the block that is in use.
abbrev two_used_memory : Mm
unfolding alloc best_of split_at
two_used_memory = (malloc-alloc 4096 one_used used_memory used-IsHeap 30 (omega arith)).0

malloc_30 : malloc 30 used_memory ≡ some (1052526, two_used_memory)
unfolding alloc best_of split_at
malloc_30 = (malloc-alloc 4096 one_used used_memory used-IsHeap 30 (omega arith)).1

malloc-live_example :
    (bs' : Blocks) × IsHeap 4096 bs' two_used_memory
    × (has 1052556 4096 bs' ≡ true)
    × (block_at 1052556 4096 bs' ≡ block_at 1052556 4096 one_used)
    × (1052556 + 16 ≢ 1052526)
malloc-live_example =
    malloc-live used-IsHeap 30 (omega arith) 1052526 two_used_memory malloc_30 1052556 refl
      (λ e. omega arith)

mem_free-release_example :
    IsHeap 4096 (release 1052556 4096 one_used) (mem_free 1052572 used_memory)
mem_free-release_example = mem_free-release 4096 one_used used_memory used-IsHeap 1052556 refl

release_100 : release 1052556 4096 one_used ≡ one_free
unfolding release set_used_at join_at
release_100 = refl

-- The 100 bytes grow to 200 in a new block, and stay where they are when they shrink.
resize_200 :
    resize 200 1052556 4096 one_used ≡ (1052356, block 1048228 0 ∷ block 200 1 ∷ block 100 0 ∷ [])
unfolding resize alloc best_of split_at release set_used_at join_at
resize_200 = refl

resize_40 : resize 40 1052556 4096 one_used ≡ (1052572, one_used)
unfolding resize
resize_40 = refl

realloc-resize_example :
    let (p, bs') = resize 200 1052556 4096 one_used in
    (m' : Mm) × (realloc 4096 1052572 200 used_memory ≡ some (p, m'))
    × IsHeap 4096 bs' m'
    × ((p ≡ 0) ⊎ (m'.bytes (p + 7) ≡ used_memory.bytes 1052579))
realloc-resize_example =
    realloc-resize used-IsHeap 1052556 200 refl (λ e. omega arith) (omega arith) (omega arith)
      (omega arith) 7 (omega arith)

mem_free-malloc-is_coalesced_example :
    ((p : ℕ) × (m' : Mm) × (bs' : Blocks) × (malloc 30 used_memory ≡ some (p, m'))
      × IsHeap 4096 bs' m'
      × (is_coalesced bs' ≡ true))
    × ((bs' : Blocks) × IsHeap 4096 bs' (mem_free 1052572 used_memory) × (is_coalesced bs' ≡ true))
mem_free-malloc-is_coalesced_example =
    mem_free-malloc-is_coalesced 30 1052556 used-IsHeap refl (omega arith) refl
