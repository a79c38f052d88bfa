-- ===== src/Kernel/Start.antt =====
-- `scheduler_init` of Kernel/scheduler.c, and `main` of Kernel/kernel.c from `memory_init` on.
use macac_os.Base.{
  ℕ, ◌+◌, ◌≡◌, refl, true, false, some, List, replicate, get_elem?, returns, Cmd, pure, modify,
  ◌>>=◌, ◌>>◌, arith,
}
use macac_os.Memory.{Memory, memory_init, memory_alloc, heap_start}
use macac_os.Memory.Chain.{Block, IsHeap}
use macac_os.Memory.Alloc.{memory_init-IsHeap, memory_alloc-blocks}
use macac_os.Scheduler.{
  Process, Scheduler, dead, ready, paused, max_processes, current_process, process_at,
  change_process_state, get_process_idx, get_process_idx_from,
}
use macac_os.Scheduler.Choose.{IsTable, with_state, change_process_state-found}
use macac_os.Children.{ChildInfo}
use macac_os.Kernel.{
  Kernel, created, code, stack_size, create_process, first_free, on_table, build_stack, new_process,
}
use macac_os.Kernel.Count.{IsCounted}
use macac_os.Kernel.Create.{filled, create_process-filled}
use macac_os.Kernel.Lift.{next-step, on_table-returns}

-- `STDIN`, `STDOUT` and `BACKGROUND`.
abbrev stdin : ℕ
stdin = 0

abbrev stdout : ℕ
stdout = 1

abbrev background : ℕ
background = 4

-- `idle_arg` and `idle_process` are the addresses of the array and the function. The result is the
-- stack pointer that `force_current_process` takes.
unfoldable pub scheduler_init : ℕ → ℕ → ℕ → Cmd Kernel ℕ
scheduler_init end_process idle_arg idle_process = do
  r ← create_process end_process idle_arg 1 stdin background true idle_process
  on_table (modify (λ s. record s { idle_pid = code r }))
  on_table (change_process_state (code r) paused)
  p ← on_table current_process
  pure p.stack_pointer

-- `main`, behind `load_idt`, for the addresses of `shell_args` and the module with the shell.
unfoldable pub main : ℕ → ℕ → ℕ → ℕ → ℕ → Cmd Kernel ℕ
unfolding scheduler_init
main end_process shell_args sample_code_module_address idle_arg idle_process = do
  modify (λ k. record k { memory = memory_init k.memory })
  create_process end_process shell_args 1 stdin stdout true sample_code_module_address
  scheduler_init end_process idle_arg idle_process

-- The static variables of scheduler.c before the kernel runs: all zero, but for `idle_pid`.
abbrev pub blank_process : Process
blank_process = record {
  pid = 0;
  priority = 0;
  params = 0;
  stack_start = 0;
  stack_end = 0;
  stack_pointer = 0;
  stack_segment = 0;
  state = dead;
  assigned_ticks = 0;
  remaining_ticks = 0;
  immortal = false;
  input = 0;
  output = 0;
}

abbrev pub blank_table : Scheduler
blank_table = record {
  process_list = replicate max_processes blank_process;
  pid_value = 0;
  dim = 0;
  current_process_idx = 0;
  idle_pid = 1;
}

blank_table-IsCounted : IsCounted blank_table
blank_table-IsCounted = record { slots = refl; counts = refl }

abbrev pub blank_kernel : List ChildInfo → (ℕ → ℕ) → Memory → Kernel
blank_kernel cs w m = record {
  family = record { children = cs; scheduler = blank_table };
  memory = m;
  word = w;
}

-- The state in which the shell begins to run.
pub record Begun (sp : ℕ) (k : Kernel) : Type 0 where
  pub table : IsTable k.family.scheduler
  pub counted : IsCounted k.family.scheduler
  pub blocks : List Block
  pub heap : IsHeap k.memory blocks
  pub two : k.family.scheduler.dim ≡ 2
  pub shell : Process
  pub in_first : get_elem? k.family.scheduler.process_list 0 ≡ some shell
  pub has_turn : k.family.scheduler.current_process_idx ≡ 0
  pub can_run : shell.state ≡ ready
  pub runs_at : sp ≡ shell.stack_pointer
  pub idle : Process
  pub in_second : get_elem? k.family.scheduler.process_list 1 ≡ some idle
  pub is_idle : idle.pid ≡ k.family.scheduler.idle_pid
  pub waits : idle.state ≡ paused

module _ (end_process shell_args shell_entry idle_arg idle_process : ℕ) (cs : List ChildInfo)
    (w : ℕ → ℕ) where
  abbrev shell_at : ℕ → Memory → Kernel
  shell_at stack_end m =
      filled end_process shell_args 1 stdin stdout true shell_entry 0 stack_end
        (blank_kernel cs w m)

  abbrev idle_at : ℕ → ℕ → Memory → Kernel
  idle_at stack_end idle_end m =
      filled end_process idle_arg 1 stdin background true idle_process 1 idle_end
        (record (shell_at stack_end m) { memory = m })

  abbrev shell_stack : ℕ
  shell_stack = heap_start + 16

  abbrev idle_stack : ℕ
  idle_stack = heap_start + 4128

  abbrev idle_process_in : Kernel → Process
  idle_process_in k =
      new_process 1 idle_arg 1 stdin background true
        (build_stack end_process idle_process idle_stack idle_arg k.word).0 idle_stack

  shell_created :
      (stack_end : ℕ) (m m' : Memory)
      → memory_alloc stack_size m ≡ returns (some stack_end) m'
      → create_process end_process shell_args 1 stdin stdout true shell_entry (blank_kernel cs w m)
        ≡ returns (created 0) (shell_at stack_end m')
  unfolding first_free
  shell_created stack_end m m' done =
      create_process-filled end_process shell_args 1 stdin stdout true shell_entry 0 stack_end
        (blank_kernel cs w m) m' blank_process refl refl refl done

  idle_created :
      (stack_end idle_end : ℕ) (m m' : Memory)
      → memory_alloc stack_size m ≡ returns (some idle_end) m'
      → create_process end_process idle_arg 1 stdin background true idle_process
          (shell_at stack_end m)
        ≡ returns (created 1) (idle_at stack_end idle_end m')
  unfolding first_free
  idle_created stack_end idle_end m m' done =
      create_process-filled end_process idle_arg 1 stdin background true idle_process 1 idle_end
        (shell_at stack_end m) m' blank_process refl refl refl done

  -- From the zeroed tables and counters, main from memory_init on returns from its calls: the
  -- process table and the heap are well formed, dim is 2 and counts the slots in use, the shell in
  -- slot 0 is ready and has the turn, with its stack pointer, and the idle process in slot 1 is
  -- paused.
  pub main-Begun :
      (m : Memory)
      → m.mem_info.allocated_bytes ≡ 0
      → m.mem_info.allocated_blocks ≡ 0
      → (sp : ℕ) × (k : Kernel) × (main end_process shell_args shell_entry idle_arg idle_process
            (blank_kernel cs w m)
          ≡ returns sp k)
        × Begun sp k
  unfolding main scheduler_init process_at get_process_idx get_process_idx_from current_process
      first_free
  main-Begun m none_held no_blocks =
      let (m₁, done₁, v₁) =
        memory_alloc-blocks stack_size (memory_init-IsHeap m none_held no_blocks) in
      let (m₂, done₂, v₂) = memory_alloc-blocks stack_size v₁ in
      let k₂ : Kernel = idle_at shell_stack idle_stack m₂ in
      let t₂ : Scheduler = record (k₂.family.scheduler) { idle_pid = 1 } in
      let k₃ : Kernel = record k₂ { family = record (k₂.family) { scheduler = t₂ } } in
      let idle : Process = idle_process_in (shell_at shell_stack m₂) in
      let t₃ : Scheduler = with_state 1 paused idle t₂ in
      (
        _,
        _,
        next-step _ (shell_created shell_stack (memory_init m) m₁ done₁) (
            next-step _ (idle_created shell_stack idle_stack m₁ m₂ done₂) (
              next-step _
                (on_table-returns (change_process_state 1 paused) k₃ tt t₃
                  (change_process_state-found 1 paused t₂ idle refl))
                refl)),
        record {
          table = record {
            slots = refl;
            some_process = omega arith;
            few = omega arith;
            current_in = omega arith;
            idle_lives = omega arith;
          };
          counted = record { slots = refl; counts = refl };
          blocks = _;
          heap = v₂;
          two = refl;
          shell = _;
          in_first = refl;
          has_turn = refl;
          can_run = refl;
          runs_at = refl;
          idle = _;
          in_second = refl;
          is_idle = refl;
          waits = refl;
        },
      )
