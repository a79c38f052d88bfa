-- ===== src/Semaphore.antt =====
-- Kernel/utils/semaphore.c and lock.c. The `waiters` of a semaphore are a pointer that nothing sets:
-- all semaphores share the queue at address 0.
pub mod Calls
pub mod Slots
pub mod Table
pub mod Made
pub mod Wait
pub mod Block
pub mod Sleep
mod Tests
use macac_os.Base.{
  ℕ, zero, suc, ◌+◌, ◌-◌, ◌*◌, ◌%◌, ◌^◌, Bool, true, false, not, ◌&&◌, ◌||◌, Option, none, some,
  List, [], ◌∷◌, Outcome, returns, fault, hang, Cmd, pure, fetch, get_state, modify, zoom, ◌>>=◌,
  ◌>>◌, ltb, leb, ◌==◌, if◌then◌else◌, get_elem?, set,
}
use macac_os.Memory.{memory_alloc, memory_free, u64}
use macac_os.Queue.{
  Queue, create_queue, enqueue, dequeue, get_queue_length, has_next, next, create_queue_iterator,
  empty_queue_error, no_more_elems,
}
use macac_os.Scheduler.{
  Scheduler, ready, paused_by_sem, is_no_process, get_pid, change_process_state, force_next_process,
}
use macac_os.Kernel.{Kernel, on_table, free}

abbrev pub max_sem : ℕ
max_sem = 30

abbrev pub max_process_waiting : ℕ
max_process_waiting = 10

abbrev pub empty_sem : ℕ
empty_sem = 0

-- The codes, as a `uint8_t` holds them.
abbrev pub success : ℕ
success = 0

abbrev pub err_max_sem : ℕ
err_max_sem = 255

abbrev pub err_sem_exists : ℕ
err_sem_exists = 254

abbrev pub err_invalid_sem_id : ℕ
err_invalid_sem_id = 253

pub record Semaphore : Type 0 where
  pub sem_id : ℕ
  pub sem_val : ℕ
  pub is_locked : ℕ

-- The static variables, the queue at address 0 with the pointer that its `elements` is, and the rest
-- of the kernel.
pub record Sync : Type 0 where
  pub semaphores : List Semaphore
  pub current_sem_amount : ℕ
  pub waiters : Queue
  pub elements_at : ℕ
  pub kernel : Kernel

abbrev pub on_kernel : {A : Type 0} → Cmd Kernel A → Cmd Sync A
on_kernel = zoom (λ s. s.kernel) (λ k s. record s { kernel = k })

abbrev pub on_waiters : {A : Type 0} → Cmd Queue A → Cmd Sync A
on_waiters = zoom (λ s. s.waiters) (λ q s. record s { waiters = q })

abbrev pub on_processes : {A : Type 0} → Cmd Scheduler A → Cmd Sync A
on_processes m = on_kernel (on_table m)

-- `semaphores[pos]`, and a change of it.
unfoldable pub sem_at : ℕ → Cmd Sync Semaphore
sem_at pos s = fetch (get_elem? s.semaphores pos) s

unfoldable pub change_sem : ℕ → (Semaphore → Semaphore) → Cmd Sync (Unit {0})
change_sem pos f s = elim (get_elem? s.semaphores pos) [
  | none ↦ fault
  | some sem ↦ returns tt (record s { semaphores = set s.semaphores pos (f sem) })
]

-- The loop of `lock` never ends on a lock that is taken, as nothing else runs meanwhile.
unfoldable pub lock : ℕ → Cmd Sync (Unit {0})
unfolding sem_at change_sem
lock pos = do
  sem ← sem_at pos
  if sem.is_locked == 0 then change_sem pos (λ s. record s { is_locked = 1 }) else (λ s. hang)

unfoldable pub unlock : ℕ → Cmd Sync (Unit {0})
unfolding change_sem
unlock pos = change_sem pos (λ s. record s { is_locked = 0 })

unfoldable pub has_id : ℕ → List Semaphore → Bool
has_id sem_id [] = false
has_id sem_id (s ∷ ss) = if s.sem_id == sem_id then true else has_id sem_id ss

-- The loop of `find_free_sem` from `sem_id` on.
unfoldable pub free_id_from : ℕ → ℕ → List Semaphore → Option ℕ
free_id_from zero sem_id sems = none
free_id_from (suc fuel) sem_id sems =
    let rest = free_id_from fuel (sem_id + 1) sems in
    if has_id sem_id sems then rest else some sem_id

-- Each round that goes on passes the id of a semaphore, so one round more than there are is enough.
unfoldable pub find_free_sem : Cmd Sync ℕ
unfolding free_id_from
find_free_sem s =
    if s.current_sem_amount == max_sem
    then returns err_max_sem s
    else elim (free_id_from 31 10 s.semaphores) [
      | none ↦ hang
      | some sem_id ↦ returns (sem_id % 2 ^ 8) s
    ]

-- The loop of `find_sem` from index `i` on.
unfoldable pub find_sem_from : ℕ → ℕ → List Semaphore → ℕ
find_sem_from sem_id i [] = 255
find_sem_from sem_id i (s ∷ ss) = if s.sem_id == sem_id then i else find_sem_from sem_id (i + 1) ss

unfoldable pub find_sem : ℕ → Sync → ℕ
find_sem sem_id s = find_sem_from sem_id 0 s.semaphores

-- The words of a block.
unfoldable pub words_at : ℕ → ℕ → (ℕ → ℕ) → List ℕ
words_at zero p w = []
words_at (suc n) p w = w p ∷ words_at n (u64 (p + 8)) w

-- `create_queue(semaphores[pos].waiters, MAX_PROCESS_WAITING)`
unfoldable pub create_waiters : ℕ → Cmd Sync (Unit {0})
unfolding words_at sem_at
create_waiters pos = do
  sem_at pos
  block ← on_kernel (
      zoom (λ k. k.memory) (λ m k. record k { memory = m })
        (memory_alloc (max_process_waiting * 8)))
  elim block [
    | none ↦ (do
      modify (λ s. record s { elements_at = 0 })
      on_waiters (create_queue [] max_process_waiting))
    | some p ↦ (do
      modify (λ s. record s { elements_at = p })
      s ← get_state
      on_waiters (create_queue (words_at max_process_waiting p s.kernel.word) max_process_waiting))
  ]

-- What follows the choice of a slot in `create_sem`, `open_sem` and `create_sem_by_id`.
unfoldable pub fill_sem : ℕ → ℕ → ℕ → Cmd Sync (Unit {0})
unfolding create_waiters change_sem
fill_sem pos sem_id init_val = do
  create_waiters pos
  change_sem pos (λ s. record s { sem_id = sem_id })
  change_sem pos (λ s. record s { sem_val = init_val })
  modify (λ s. record s { current_sem_amount = (s.current_sem_amount + 1) % 2 ^ 8 })

unfoldable pub create_sem : ℕ → Cmd Sync ℕ
unfolding find_free_sem fill_sem
create_sem init_val = do
  pos_found ← find_free_sem
  if is_no_process pos_found
      then pure 255
      else (do fill_sem pos_found pos_found init_val; pure pos_found)

-- How the search of `open_sem` and `create_sem_by_id` ends.
pub data Slot : Type 0 where
  exists : Slot
  free_pos : ℕ → Slot
  no_slot : Slot

unfoldable pub find_slot : ℕ → ℕ → List Semaphore → Slot
find_slot sem_id i [] = no_slot
find_slot sem_id i (s ∷ ss) =
    if s.sem_id == sem_id
    then exists
    else if s.sem_id == empty_sem
    then free_pos i
    else find_slot sem_id (i + 1) ss

-- `open_sem` and `create_sem_by_id`, with the code for a semaphore that the search meets. The index
-- -1 of a table without an empty slot is outside the table.
unfoldable pub open_or_create : ℕ → ℕ → ℕ → Cmd Sync ℕ
unfolding find_slot fill_sem
open_or_create code sem_id init_val s =
    if sem_id == empty_sem
    then returns err_invalid_sem_id s
    else if s.current_sem_amount == max_sem
    then returns err_max_sem s
    else elim (find_slot sem_id 0 s.semaphores) [
      | exists ↦ returns code s
      | free_pos pos ↦ (do fill_sem pos sem_id init_val; pure success) s
      | no_slot ↦ fault
    ]

unfoldable pub open_sem : ℕ → ℕ → Cmd Sync ℕ
unfolding open_or_create
open_sem sem_id init_val = open_or_create success sem_id init_val

unfoldable pub create_sem_by_id : ℕ → ℕ → Cmd Sync ℕ
unfolding open_or_create
create_sem_by_id sem_id init_val = open_or_create err_sem_exists sem_id init_val
