-- ===== src/Syscall/Tests.antt =====
-- kernel/kernel.c: system calls on a kernel with two files, an empty key ring and an unused heap.
use shed_kernel.Prelude.{
  ◌≡◌, refl, true, false, some, [], ◌∷◌, arith, replicate, ◌==◌, if◌then◌else◌,
}
use shed_kernel.Fs.Tests.{two_files, two_files-IsValid}
use shed_kernel.Kbd.{kbd_handler_main}
use shed_kernel.Kbd.Handler.{decode, layout}
use shed_kernel.Kbd.Map.{keyboard_map}
use shed_kernel.Mm.{Mm, init_dynamic_mem}
use shed_kernel.Mm.Chain.{block}
use shed_kernel.Mm.Malloc.{init_dynamic_mem-IsHeap}
use shed_kernel.Syscall.{Kernel, syscall_dispatch}
use shed_kernel.Syscall.Keep.{IsKernel, kept}
use shed_kernel.Syscall.Steps.{oldest, getchar-after_key}

abbrev no_memory : Mm
no_memory = record {
  nodes = λ a. record { size = 0; used = 0; next = 0; prev = 0 };
  bytes = λ a. 0;
  dynamic_mem_start = 0;
}

-- The name of the first file stands at address 100 of the program.
abbrev sample : Kernel
sample = record {
  fs = two_files;
  mm = init_dynamic_mem 4096 no_memory;
  kbd = record {
    kbd_buf = replicate 256 0;
    kbd_buf_read = 0;
    kbd_buf_write = 0;
    shift_held = false;
    initialized = true;
    enabled = true;
    ports = [];
  };
  vga = record { vidptr = λ a. 0; current_loc = 160 };
  paging = record { memory = λ a. 0; next_free_page = 2097152 };
  memory = λ a. if a == 100 then b'a' else 0;
  user_heap_ptr = 0xE0000000;
  exit_requested = 0;
  jiffies = 0;
  user_entry = 0;
}

sample-IsKernel : IsKernel 4096 sample
sample-IsKernel =
    kept (block 1048560 0 ∷ []) two_files-IsValid
      (record { buf_size = refl; read_in = omega arith; write_in = omega arith })
      (init_dynamic_mem-IsHeap 4096 no_memory (omega arith) (omega arith))
      (record { even = refl; small = omega arith }) refl

types_a : (decode false 30).1 ≡ 97
unfolding decode layout keyboard_map
types_a = refl

getchar-after_key_example :
    (k' : Kernel) × (syscall_dispatch 0 2 0 0 0
        (record sample { kbd = kbd_handler_main 1 30 sample.kbd })
      ≡ some (oldest (decode false 30).1 [], k'))
getchar-after_key_example =
    getchar-after_key 1 30 0 0 0 0 sample-IsKernel refl (omega arith) refl (omega arith)
      (λ e. omega (arith, e, types_a))
