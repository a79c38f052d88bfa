-- ===== src/Scheduler.antt =====
-- Kernel/scheduler.c: the process table and the choice of the next process.
pub mod Search
pub mod Choose
pub mod Missing
pub mod Priority
pub mod Switch
mod Tests
use macac_os.Base.{
  ℕ, zero, suc, ◌+◌, ◌-◌, ◌*◌, ◌%◌, ◌^◌, Bool, true, false, not, ◌&&◌, ◌||◌, Option, none, some,
  List, [], ◌∷◌, returns, fault, Cmd, pure, fetch, get_state, modify, ◌>>=◌, ◌>>◌, ltb, leb, ◌==◌,
  if◌then◌else◌, get_elem?, set, length,
}
use macac_os.Base.Int.{ℤ, pos, negsuc, eq_ℤ, minus_one}

abbrev pub max_processes : ℕ
max_processes = 100

-- The values of `state`.
abbrev pub dead : ℕ
dead = 0

abbrev pub block : ℕ
block = 1

abbrev pub ready : ℕ
ready = 2

abbrev pub paused : ℕ
paused = 4

abbrev pub paused_by_child : ℕ
paused_by_child = 5

abbrev pub paused_by_sem : ℕ
paused_by_sem = 6

-- Pointers are addresses, 0 for NULL.
pub record Process : Type 0 where
  pub pid : ℕ
  pub priority : ℕ
  pub params : ℕ
  pub stack_start : ℕ
  pub stack_end : ℕ
  pub stack_pointer : ℕ
  pub stack_segment : ℕ
  pub state : ℕ
  pub assigned_ticks : ℕ
  pub remaining_ticks : ℕ
  pub immortal : Bool
  pub input : ℕ
  pub output : ℕ

-- The static variables of scheduler.c.
pub record Scheduler : Type 0 where
  pub process_list : List Process
  pub pid_value : ℕ
  pub dim : ℕ
  pub current_process_idx : ℕ
  pub idle_pid : ℕ

-- `process_list[i]`, and a change of it.
unfoldable pub process_at : ℕ → Cmd Scheduler Process
process_at i s = fetch (get_elem? s.process_list i) s

unfoldable pub change_process : ℕ → (Process → Process) → Cmd Scheduler (Unit {0})
change_process i f s = elim (get_elem? s.process_list i) [
  | none ↦ fault
  | some p ↦ returns tt (record s { process_list = set s.process_list i (f p) })
]

-- `NO_PROCESS_FOUND` as a `uint8_t` holds it.
abbrev pub no_process_found : ℕ
no_process_found = 255

-- The loop of `get_process_idx` over the processes from index `i` on.
unfoldable pub get_process_idx_from : ℕ → ℕ → List Process → ℕ
get_process_idx_from pid i [] = no_process_found
get_process_idx_from pid i (p ∷ ps) =
    if p.pid == pid && not (p.state == dead) then i else get_process_idx_from pid (i + 1) ps

unfoldable pub get_process_idx : ℕ → Scheduler → ℕ
get_process_idx pid s = get_process_idx_from pid 0 s.process_list

-- The test `idx == NO_PROCESS_FOUND` for a `uint8_t idx`: it is promoted, and -1 is not.
abbrev pub is_no_process : ℕ → Bool
is_no_process idx = eq_ℤ (pos idx) minus_one

unfoldable pub change_process_state : ℕ → ℕ → Cmd Scheduler (Unit {0})
change_process_state pid new_state s =
    let idx = get_process_idx pid s in
    if is_no_process idx
    then returns tt s
    else change_process idx (λ p. record p { state = new_state }) s

-- The current process, for `get_pid`, `get_current_output`, `get_current_input` and `get_RSP`.
unfoldable pub current_process : Cmd Scheduler Process
unfolding process_at
current_process s = process_at s.current_process_idx s

unfoldable pub get_pid : Cmd Scheduler ℕ
unfolding current_process
get_pid = do p ← current_process; pure p.pid

-- The loop of `calculate_ticks`, in `uint32_t`.
double : ℕ → ℕ → ℕ
double zero ticks = ticks
double (suc n) ticks = double n (ticks * 2 % 2 ^ 32)

unfoldable pub calculate_ticks : ℕ → ℕ
unfolding double
calculate_ticks priority = double priority 1

abbrev pub clamp_priority : ℕ → ℕ
clamp_priority priority = if ltb 5 priority then 5 else if ltb priority 1 then 1 else priority

-- `none` is the code -1, `some` the code 1.
unfoldable pub change_priority : ℕ → ℕ → Cmd Scheduler (Option (Unit {0}))
change_priority pid priority s =
    let idx = get_process_idx pid s in
    if is_no_process idx
    then returns none s
    else (do
      change_process idx (λ p. record p {
        priority = clamp_priority priority;
        assigned_ticks = calculate_ticks (clamp_priority priority);
      })
      pure (some tt))
        s

unfoldable pub get_state_of : ℕ → Cmd Scheduler ℕ
unfolding process_at
get_state_of pid s =
    let idx = get_process_idx pid s in
    if is_no_process idx
    then returns no_process_found s
    else (do p ← process_at idx; pure p.state) s

unfoldable pub consume_tick : Cmd Scheduler Bool
unfolding process_at change_process
consume_tick = do
  s ← get_state
  p ← process_at s.current_process_idx
  if ltb 0 p.remaining_ticks && p.state == ready
      then (do
        change_process s.current_process_idx
            (λ p. record p { remaining_ticks = p.remaining_ticks - 1 })
        pure true)
      else pure false

-- The loop of `next_process`, with the rounds that `inactive_processes < dim` still allows: the
-- index where it stops, and whether it found a process that is ready.
unfoldable pub find_ready : ℕ → ℕ → ℕ → List Process → Option (ℕ × Bool)
find_ready dim zero idx ps = some (idx, false)
find_ready dim (suc left) idx ps =
    let next = (idx + 1) % dim in
    let rest = find_ready dim left next ps in
    elim (get_elem? ps next) [
      | none ↦ none
      | some p ↦ if p.state == ready then some (next, true) else rest
    ]

-- The search of `next_process`, and what it does to the idle process.
unfoldable pub choose_process : Cmd Scheduler (Unit {0})
choose_process = do
  s ← get_state
  (idx, found) ← fetch (find_ready s.dim s.dim s.current_process_idx s.process_list)
  modify (λ s. record s { current_process_idx = idx })
  if not found
      then (do
        modify (λ s. record s { current_process_idx = get_process_idx s.idle_pid s })
        change_process_state s.idle_pid ready)
      else (do
        p ← process_at idx
        if p.pid == s.idle_pid then pure tt else change_process_state s.idle_pid paused)

unfoldable pub next_process : ℕ → ℕ → Cmd Scheduler ℕ
next_process stack_pointer stack_segment = do
  s ← get_state
  change_process s.current_process_idx
      (λ p. record p { stack_pointer = stack_pointer; stack_segment = stack_segment })
  choose_process
  s ← get_state
  change_process s.current_process_idx (λ p. record p { remaining_ticks = p.assigned_ticks })
  p ← process_at s.current_process_idx
  pure p.stack_pointer

-- The handler of the timer interrupt with the scheduler running (Kernel/asm/interrupts.asm), for the
-- stack pointer and segment of the process that it interrupts: the new stack pointer.
unfoldable pub force_timer_tick : ℕ → ℕ → Cmd Scheduler ℕ
force_timer_tick rsp ss = do ticked ← consume_tick; if ticked then pure rsp else next_process rsp ss

unfoldable pub force_next_process : ℕ → ℕ → Cmd Scheduler ℕ
force_next_process rsp ss = do
  s ← get_state
  change_process s.current_process_idx (λ p. record p { remaining_ticks = 0 })
  force_timer_tick rsp ss

-- `none` is the code -1. The stack pointer is the one after the call.
unfoldable pub block_or_unblock : ℕ → ℕ → ℕ → Cmd Scheduler (Option ℕ)
block_or_unblock rsp ss pid s =
    let idx = get_process_idx pid s in
    if is_no_process idx
    then returns none s
    else (do
      change_process idx (λ p. record p { state = if p.state == block then ready else block })
      if idx == s.current_process_idx
          then (do rsp' ← force_timer_tick rsp ss; pure (some rsp'))
          else pure (some rsp))
        s
