-- ===== src/Semaphore/Calls.antt =====
-- The functions of Kernel/utils/semaphore.c that take the id of a semaphore.
use macac_os.Base.{
  ℕ, zero, suc, ◌+◌, ◌-◌, ◌%◌, ◌^◌, true, false, List, [], ◌∷◌, returns, hang, Cmd, pure, get_state,
  modify, ◌>>=◌, ◌>>◌, ltb, leb, ◌==◌, if◌then◌else◌,
}
use macac_os.Queue.{
  Queue, enqueue, dequeue, get_queue_length, has_next, next, create_queue_iterator,
}
use macac_os.Scheduler.{
  ready, paused_by_sem, is_no_process, get_pid, change_process_state, force_next_process,
}
use macac_os.Kernel.{free}
use macac_os.Semaphore.{
  Sync, on_kernel, on_waiters, on_processes, sem_at, change_sem, lock, unlock, find_sem, empty_sem,
  success, err_invalid_sem_id, max_sem,
}

-- The body of the calls below for the semaphore in slot `pos`, behind the test on the slot.
unfoldable pub with_sem : {A : Type 0} → A → ℕ → (ℕ → Cmd Sync A) → Cmd Sync A
with_sem invalid sem_id body s =
    if sem_id == empty_sem
    then returns invalid s
    else let pos_found = find_sem sem_id s in
      if is_no_process pos_found then returns invalid s else body pos_found s

-- `destroy_queue` of queue.c, for the queue of waiters that all semaphores share.
abbrev destroy_queue : Cmd Sync (Unit {0})
destroy_queue = do s ← get_state; on_kernel (modify (free s.elements_at))

unfoldable pub close_at : ℕ → Cmd Sync ℕ
close_at pos = do
  lock pos
  change_sem pos (λ s. record s { sem_id = empty_sem })
  change_sem pos (λ s. record s { sem_val = 0 })
  modify (λ s. record s {
    current_sem_amount = if s.current_sem_amount == 0 then 0 else s.current_sem_amount - 1;
  })
  destroy_queue
  unlock pos
  pure success

unfoldable pub close_sem : ℕ → Cmd Sync ℕ
unfolding with_sem
close_sem sem_id = with_sem err_invalid_sem_id sem_id close_at

-- How `wait_sem` ends: it goes on with a code, or the process is switched away, for the process with
-- the given stack pointer. When it has the turn again, `wait_sem` returns `SUCCESS`.
pub data Waited : Type 0 where
  code : ℕ → Waited
  switched : ℕ → Waited

-- The branch of `wait_sem` for a semaphore at 0.
unfoldable pub block_on : ℕ → ℕ → ℕ → Cmd Sync Waited
block_on rsp ss pos = do
  current_pid ← on_processes get_pid
  on_processes (change_process_state current_pid paused_by_sem)
  on_waiters (enqueue current_pid)
  unlock pos
  rsp' ← on_processes (force_next_process rsp ss)
  pure (switched rsp')

unfoldable pub wait_at : ℕ → ℕ → ℕ → Cmd Sync Waited
wait_at rsp ss pos = do
  lock pos
  sem ← sem_at pos
  if ltb 0 sem.sem_val
      then (do
        change_sem pos (λ s. record s { sem_val = s.sem_val - 1 })
        unlock pos
        pure (code success))
      else block_on rsp ss pos

unfoldable pub wait_sem : ℕ → ℕ → ℕ → Cmd Sync Waited
wait_sem rsp ss sem_id = with_sem (code err_invalid_sem_id) sem_id (wait_at rsp ss)

unfoldable pub post_at : ℕ → Cmd Sync ℕ
post_at pos = do
  lock pos
  s ← get_state
  if ltb 0 (get_queue_length s.waiters)
      then (do pid ← on_waiters dequeue; on_processes (change_process_state (pid % 2 ^ 32) ready))
      else change_sem pos (λ s. record s { sem_val = (s.sem_val + 1) % 2 ^ 64 })
  unlock pos
  pure success

unfoldable pub post_sem : ℕ → Cmd Sync ℕ
post_sem sem_id = with_sem err_invalid_sem_id sem_id post_at

-- The loop of `get_blocked_process`: what it writes. `low_memory` is what `next` reads.
unfoldable pub blocked_from : (ℕ → ℕ) → ℕ → ℕ → Cmd Queue (List ℕ)
blocked_from low_memory zero iter q = hang
blocked_from low_memory (suc fuel) iter q = elim (has_next q iter) [
  | false ↦ returns [] q
  | true ↦
      (do
        (pid, iter') ← next low_memory iter
        rest ← blocked_from low_memory fuel iter'
        pure (pid % 2 ^ 32 ∷ rest))
        q
]

-- The queue has ten places, so a loop that moves on ends within eleven rounds.
unfoldable pub get_blocked_process : (ℕ → ℕ) → ℕ → Cmd Sync (List ℕ)
get_blocked_process low_memory i s =
    if leb max_sem i
    then returns [] s
    else if ltb 0 (get_queue_length s.waiters)
    then on_waiters (blocked_from low_memory 11 (create_queue_iterator s.waiters)) s
    else returns [] s

-- The test for -1 is one of the `int` that holds the `uint8_t`.
unfoldable pub get_blocked_by_sem_id : (ℕ → ℕ) → ℕ → Cmd Sync (List ℕ)
get_blocked_by_sem_id low_memory sem_id s = get_blocked_process low_memory (find_sem sem_id s) s
