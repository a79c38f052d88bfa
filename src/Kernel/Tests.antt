-- ===== src/Kernel/Tests.antt =====
-- The life of processes at a kernel with a shell, the idle process and a child of the shell.
use macac_os.Base.{
  ℕ, ◌+◌, ◌-◌, ◌*◌, ◌%◌, ◌<◌, ◌≤◌, ◌≡◌, ◌⊎◌, inr, refl, Bool, true, false, some, List, [], ◌∷◌,
  arith, returns, replicate, get_elem?,
}
use macac_os.Memory.{Memory, memory_init}
use macac_os.Memory.Chain.{Block, IsHeap}
use macac_os.Memory.Alloc.{memory_init-IsHeap}
use macac_os.Scheduler.{Process, dead, ready, max_processes, get_process_idx, get_process_idx_from}
use macac_os.Children.{ChildInfo}
use macac_os.Children.Wake.{parent_of}
use macac_os.Kernel.{Kernel, Created, create_process, build_stack, stack_size, put_word}
use macac_os.Kernel.Count.{IsCounted}
use macac_os.Kernel.Create.{Outcomes, create_process-Outcomes}
use macac_os.Kernel.Frame.{frame_word, build_stack-frame}
use macac_os.Kernel.Start.{main, blank_kernel, Begun, main-Begun}
use macac_os.Kernel.End.{destroy_process}
use macac_os.Kernel.Death.{IsParams, buried, marked, destroy_process-buried}

abbrev process : ℕ → ℕ → Bool → Process
process pid state lasts = record {
  pid = pid;
  priority = 1;
  params = 0x100;
  stack_start = 0xB00000;
  stack_end = 0;
  stack_pointer = 0xB00000;
  stack_segment = 0;
  state = state;
  assigned_ticks = 2;
  remaining_ticks = 1;
  immortal = lasts;
  input = 0;
  output = 1;
}

abbrev heap : Memory
heap = memory_init (record {
  header = λ a. record { size = 0; allocated = true };
  mem_info = record { allocated_bytes = 0; free_bytes = 0; allocated_blocks = 0 };
})

heap-IsHeap : IsHeap heap []
heap-IsHeap = memory_init-IsHeap _ refl refl

abbrev child : ChildInfo
child = record { parent_pid = 0; child_pid = 4; state = ready }

abbrev unused : ChildInfo
unused = record { parent_pid = 0; child_pid = 0; state = dead }

abbrev kernel : Kernel
kernel = record {
  family = record {
    children = child ∷ unused ∷ [];
    scheduler = record {
      process_list =
          process 0 ready true
          ∷ process 1 ready true
          ∷ process 4 ready false
          ∷ replicate 97 (process 0 dead false);
      pid_value = 5;
      dim = 3;
      current_process_idx = 0;
      idle_pid = 1;
    };
  };
  memory = heap;
  word = put_word 0x100 0xA00010 (λ a. 0);
}

kernel-IsCounted : IsCounted kernel.family.scheduler
kernel-IsCounted = record { slots = refl; counts = refl }

create_process-Outcomes_example :
    (r : Created) × (k' : Kernel) × (create_process 0x8000 0x100 2 0 1 false 0x400000 kernel
      ≡ returns r k')
    × Outcomes [] kernel k' r
    × IsCounted k'.family.scheduler
    × ((new : List Block) × IsHeap k'.memory new)
create_process-Outcomes_example =
    create_process-Outcomes 0x8000 0x100 2 0 1 false 0x400000 kernel kernel-IsCounted heap-IsHeap

build_stack-frame_example :
    (start : ℕ) × (w' : ℕ → ℕ) × (build_stack 0x8000 0x400000 0xA00010 0x100 kernel.word
      ≡ (start, w'))
    × (start ≤ 0xA00010 + stack_size)
    × (0xA00010 + stack_size < start + 8)
    × (start % 8 ≡ 0)
    × ((k : ℕ) → 1 ≤ k → k ≤ 20 → w' (start - 8 * k) ≡ frame_word 0x8000 0x400000 0x100 start k)
    × ((a : ℕ) → (a < 0xA00010 ⊎ 0xA00010 + stack_size ≤ a) → w' a ≡ kernel.word a)
build_stack-frame_example =
    build_stack-frame 0x8000 0x400000 0xA00010 0x100 kernel.word (omega arith)

args-IsParams : IsParams kernel.word 0x100 1
args-IsParams = record {
  pointers = λ j lt. let is : j ≡ 0 = omega arith in rw is (omega arith);
  end_null = refl;
  few = omega arith;
}

parent_lives :
    (father : ℕ)
    → parent_of 4 kernel.family.children ≡ some father
    → get_process_idx father (marked 2 (process 4 ready false) kernel.family.scheduler)
      < max_processes
unfolding get_process_idx get_process_idx_from
parent_lives father e = let is : father ≡ 0 = ground arith in rw is (omega arith)

destroy_process-buried_example :
    (k' : Kernel) × (destroy_process 2 kernel ≡ returns tt k')
    × (get_elem? k'.family.scheduler.process_list 2 ≡ some (buried (process 4 ready false)))
    × (k'.family.scheduler.dim + 1 ≡ 3)
    × (k'.family.scheduler.current_process_idx ≡ 0)
    × IsCounted k'.family.scheduler
destroy_process-buried_example =
    destroy_process-buried 2 1 kernel (process 4 ready false) kernel-IsCounted refl (omega arith)
      (inr args-IsParams) parent_lives

abbrev booted : Memory
booted = record {
  header = λ a. record { size = 0; allocated = true };
  mem_info = record { allocated_bytes = 0; free_bytes = 0; allocated_blocks = 0 };
}

main-Begun_example :
    (sp : ℕ) × (k : Kernel) × (main 0x1000 0x2000 0x400000 0x3000 0x4000
        (blank_kernel [] (λ a. 0) booted)
      ≡ returns sp k)
    × Begun sp k
main-Begun_example = main-Begun 0x1000 0x2000 0x400000 0x3000 0x4000 [] (λ a. 0) booted refl refl
