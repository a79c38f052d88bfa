-- ===== src/Kernel.antt =====
-- The life of processes: the part of Kernel/scheduler.c that works on the process table, the table
-- of children and the heap together, and `create_child_process` of Kernel/child_processes.c.
pub mod Count
pub mod Create
pub mod Lift
pub mod End
pub mod Death
pub mod Kill
mod Tests
pub mod Frame
pub mod Phantom
pub mod Listing
pub mod Start
use macac_os.Base.{
  ℕ, zero, suc, ◌+◌, ◌-◌, ◌*◌, ◌%◌, ◌^◌, Bool, true, false, not, ◌&&◌, ◌||◌, Option, none, some,
  List, [], ◌∷◌, Outcome, returns, fault, hang, Cmd, pure, fetch, get_state, modify, ◌>>=◌, ◌>>◌,
  ltb, ◌==◌, if◌then◌else◌, get_elem?, set,
}
use macac_os.Base.Int.{eq_ℤ, signed8, minus_one}
use macac_os.Memory.{Memory, memory_alloc, memory_free, sub64, u64}
use macac_os.Scheduler.{
  Process, Scheduler, max_processes, dead, ready, process_at, change_process, get_pid,
  get_process_idx, calculate_ticks, force_timer_tick,
}
use macac_os.Children.{Family, on_scheduler, set_dead_process, add_child}

abbrev pub stack_size : ℕ
stack_size = 4096

-- The tables, the heap, and the 64-bit words of the memory outside headers and tables.
pub record Kernel : Type 0 where
  pub family : Family
  pub memory : Memory
  pub word : ℕ → ℕ

abbrev pub on_family : {A : Type 0} → Cmd Family A → Cmd Kernel A
on_family m k = elim (m k.family) [
  | returns a f ↦ returns a (record k { family = f })
  | fault ↦ fault
  | hang ↦ hang
]

abbrev pub on_table : {A : Type 0} → Cmd Scheduler A → Cmd Kernel A
on_table m = on_family (on_scheduler m)

abbrev pub free : ℕ → Kernel → Kernel
free ptr k = record k { memory = memory_free ptr k.memory }

-- `*(STACK_POSITION(stack_start, pos)) = v`
abbrev pub put_word : ℕ → ℕ → (ℕ → ℕ) → ℕ → ℕ
put_word p v w a = if a == p then v else w a

-- The loop of `build_stack`, with the rounds that are left from `i` on.
unfoldable pub clear_registers : ℕ → ℕ → ℕ → (ℕ → ℕ) → ℕ → ℕ
clear_registers zero i stack_start w = w
clear_registers (suc left) i stack_start w =
    clear_registers left (i + 1) stack_start
      (if i == 12 then w else put_word (sub64 stack_start (i * 8)) 0 w)

-- The words that `build_stack` stores below the start of the stack.
unfoldable pub stack_words : ℕ → ℕ → ℕ → ℕ → (ℕ → ℕ) → ℕ → ℕ
stack_words start end_process entry_point params w = put_word (sub64 start 8) end_process (
    put_word (sub64 start (2 * 8)) 0 (
      put_word (sub64 start (3 * 8)) (sub64 start 8) (
        put_word (sub64 start (4 * 8)) 0x202 (
          put_word (sub64 start (5 * 8)) 8 (
            put_word (sub64 start (6 * 8)) entry_point
              (clear_registers 14 7 start (put_word (sub64 start (12 * 8)) params w)))))))

-- `build_stack` for the address of `end_process`: the start of the stack and the words.
unfoldable pub build_stack : ℕ → ℕ → ℕ → ℕ → (ℕ → ℕ) → ℕ × (ℕ → ℕ)
build_stack end_process entry_point stack_end params w =
    let top = u64 (stack_end + stack_size) in
    let start = top - top % 8 in (start, stack_words start end_process entry_point params w)

-- The result of `create_process`: a pid or one of two codes.
pub data Created : Type 0 where
  created : ℕ → Created
  no_space_for_process : Created
  processes_limit_reached : Created

-- The loop over the table for a slot that is dead; it has no bound.
unfoldable pub first_free : List Process → Option ℕ
first_free [] = none
first_free (p ∷ ps) =
    if p.state == dead then some 0 else elim (first_free ps) [ none ↦ none | some i ↦ some (suc i) ]

-- The contents of the slot of a new process.
abbrev pub new_process : ℕ → ℕ → ℕ → ℕ → ℕ → Bool → ℕ → ℕ → Process
new_process pid params priority input output immortal stack_start stack_end = record {
  pid = pid;
  priority = priority;
  params = params;
  stack_start = stack_start;
  stack_end = stack_end;
  stack_pointer = sub64 stack_start (21 * 8);
  stack_segment = 0;
  state = ready;
  assigned_ticks = calculate_ticks priority;
  remaining_ticks = calculate_ticks priority;
  immortal = immortal;
  input = input;
  output = output;
}

-- The part of `create_process` behind the allocation of the stack.
unfoldable pub fill_slot : ℕ → ℕ → ℕ → ℕ → ℕ → ℕ → Bool → ℕ → ℕ → Cmd Kernel Created
fill_slot end_process slot params priority input output immortal entry_point stack_end = do
  k ← get_state
  let stack = build_stack end_process entry_point stack_end params k.word
  modify (λ k. record k { word = stack.1 })
  let pid = k.family.scheduler.pid_value
  on_table (modify (λ s. record s { pid_value = (s.pid_value + 1) % 2 ^ 32 }))
  on_table (
      change_process slot
        (λ p. new_process pid params priority input output immortal stack.0 stack_end))
  on_table (modify (λ s. record s { dim = (s.dim + 1) % 2 ^ 8 }))
  pure (created pid)

unfoldable pub create_process : ℕ → ℕ → ℕ → ℕ → ℕ → Bool → ℕ → Cmd Kernel Created
create_process end_process params priority input output immortal entry_point k =
    if k.family.scheduler.dim == max_processes
    then returns processes_limit_reached k
    else elim (first_free k.family.scheduler.process_list) [
      | none ↦ fault
      | some slot ↦ elim (memory_alloc stack_size k.memory) [
        | returns none m ↦ returns no_space_for_process (record k { memory = m })
        | returns (some stack_end) m ↦
            fill_slot end_process slot params priority input output immortal entry_point stack_end
              (record k { memory = m })
        | fault ↦ fault
        | hang ↦ hang
      ]
    ]

-- The code as the `uint32_t` that `add_child` takes.
abbrev pub code : Created → ℕ
code (created pid) = pid
code no_space_for_process = 2 ^ 32 - 2
code processes_limit_reached = 2 ^ 32 - 3

unfoldable pub create_child_process : ℕ → ℕ → ℕ → ℕ → ℕ → ℕ → Cmd Kernel Created
create_child_process end_process params priority input output entry_point = do
  child ← create_process end_process params priority input output false entry_point
  pid ← on_table get_pid
  on_family (modify (λ f. record f { children = add_child pid (code child) f.children }))
  pure child
