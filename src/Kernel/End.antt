-- ===== src/Kernel/End.antt =====
-- How processes end, in Kernel/scheduler.c.
use macac_os.Base.{
  ℕ, zero, suc, ◌+◌, ◌-◌, ◌*◌, ◌%◌, ◌^◌, Bool, false, not, ◌&&◌, ◌||◌, returns, hang, Cmd, pure,
  get_state, modify, ◌>>=◌, ◌>>◌, ◌==◌, if◌then◌else◌,
}
use macac_os.Base.Int.{eq_ℤ, signed8, minus_one}
use macac_os.Memory.{u64, heap_size}
use macac_os.Scheduler.{
  Process, dead, max_processes, process_at, change_process, get_process_idx, force_timer_tick,
}
use macac_os.Children.{set_dead_process}
use macac_os.Kernel.{Kernel, on_family, on_table, free}

-- The loop of `free_params` from index `i` on. The array ends with NULL.
unfoldable pub free_params_from : ℕ → ℕ → ℕ → Cmd Kernel (Unit {0})
free_params_from zero params i k = hang
free_params_from (suc fuel) params i k =
    let param = k.word (u64 (params + 8 * i)) in
    let rest = free_params_from fuel params (i + 1) (free param k) in
    if param == 0 then returns tt k else rest

-- The array lies in the memory below 2 ^ 64, in at most as many rounds as the heap has bytes.
unfoldable pub free_params : ℕ → Cmd Kernel (Unit {0})
unfolding free_params_from
free_params params k =
    if params == 0
    then returns tt k
    else (do free_params_from heap_size params 0; modify (free params)) k

-- `process_list[idx]`
abbrev pub slot_of : ℕ → Cmd Kernel Process
slot_of idx = on_table (process_at idx)

unfoldable pub destroy_process : ℕ → Cmd Kernel (Unit {0})
destroy_process idx = do
  on_table (change_process idx (λ p. record p { state = dead; remaining_ticks = 0 }))
  p ← slot_of idx
  on_family (set_dead_process p.pid)
  p ← slot_of idx
  free_params p.params
  p ← slot_of idx
  modify (free p.stack_end)
  on_table (modify (λ s. record s { dim = (s.dim + 2 ^ 8 - 1) % 2 ^ 8 }))

-- `end_process`, for the stack pointer and segment at its end: the new stack pointer.
unfoldable pub end_process : ℕ → ℕ → Cmd Kernel ℕ
end_process rsp ss = do
  k ← get_state
  destroy_process k.family.scheduler.current_process_idx
  on_table (force_timer_tick rsp ss)

pub data Killed : Type 0 where
  killed : Killed
  cant_kill_immortal_process : Killed
  no_process : Killed

-- The result, and the stack pointer after the call. The index is an `int8_t` here.
unfoldable pub kill_process : ℕ → ℕ → ℕ → Cmd Kernel (Killed × ℕ)
kill_process rsp ss pid k =
    let idx = get_process_idx pid k.family.scheduler in
    if eq_ℤ (signed8 idx) minus_one
    then returns (no_process, rsp) k
    else (do
      p ← slot_of idx
      if p.immortal then pure (cant_kill_immortal_process, rsp) else (do
        destroy_process idx
        k ← get_state
        if k.family.scheduler.current_process_idx == idx
            then (do rsp' ← on_table (force_timer_tick rsp ss); pure (killed, rsp'))
            else pure (killed, rsp)))
        k

-- The loop of `kill_all_processes` with the rounds that are left from slot `i` on.
unfoldable pub kill_slots : ℕ → ℕ → Bool → Cmd Kernel Bool
kill_slots zero i current_process_killed = pure current_process_killed
kill_slots (suc left) i current_process_killed = do
  p ← slot_of i
  if not (p.state == dead) && not p.immortal
      then (do
        destroy_process i
        k ← get_state
        kill_slots left (i + 1)
            (current_process_killed || k.family.scheduler.current_process_idx == i))
      else kill_slots left (i + 1) current_process_killed

unfoldable pub kill_all_processes : ℕ → ℕ → Cmd Kernel ℕ
kill_all_processes rsp ss = do
  current_process_killed ← kill_slots max_processes 0 false
  if current_process_killed then on_table (force_timer_tick rsp ss) else pure rsp
