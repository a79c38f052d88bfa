-- ===== src/Semaphore/Tests.antt =====
-- Runs of semaphore.c with a process that has the turn, one that waits for a semaphore, and the idle
-- process.
use macac_os.Base.{
  All, ◌≢◌, ℕ, ◌+◌, ◌*◌, ◌≡◌, ◌≤◌, refl, true, false, [], ◌∷◌, arith, returns, fault, replicate,
  set,
}
use macac_os.Queue.Refine.{IsValid, waiting}
use macac_os.Scheduler.{Process, ready, dead, paused_by_sem, get_process_idx, get_process_idx_from}
use macac_os.Scheduler.Choose.{IsTable, with_state}
use macac_os.Semaphore.{
  Semaphore, Sync, has_id, find_sem, find_sem_from, find_free_sem, free_id_from, open_sem,
  open_or_create, find_slot,
}
use macac_os.Semaphore.Calls.{switched, wait_sem, post_sem, close_sem}
use macac_os.Semaphore.Slots.{OpenAt, has_id-fault, find_free_sem-free}
use macac_os.Semaphore.Sleep.{table, Blocked, Caller, wait_sem-Blocked, post_sem-wakes}

abbrev process : ℕ → ℕ → Process
process pid state = record {
  pid = pid;
  priority = 1;
  params = 0;
  stack_start = 0;
  stack_end = 0;
  stack_pointer = 0xB00000 + pid * 0x1000;
  stack_segment = 0;
  state = state;
  assigned_ticks = 2;
  remaining_ticks = 1;
  immortal = false;
  input = 0;
  output = 1;
}

abbrev sleeper : Process
sleeper = process 2 paused_by_sem

abbrev sem : ℕ → ℕ → Semaphore
sem id value = record { sem_id = id; sem_val = value; is_locked = 0 }

abbrev sync : Sync
sync = record {
  semaphores = sem 7 0 ∷ sem 10 3 ∷ replicate 28 (sem 0 0);
  current_sem_amount = 2;
  waiters = record {
    elements = 2 ∷ replicate 9 0;
    read_pos = 0;
    write_pos = 1;
    length = 1;
    size = 10;
  };
  elements_at = 0xA00010;
  kernel = record {
    family = record {
      children = [];
      scheduler = record {
        process_list = process 0 ready ∷ process 1 ready ∷ sleeper ∷ replicate 97 (process 0 dead);
        pid_value = 3;
        dim = 3;
        current_process_idx = 0;
        idle_pid = 1;
      };
    };
    memory = record {
      header = λ a. record { size = 0; allocated = true };
      mem_info = record { allocated_bytes = 0; free_bytes = 0; allocated_blocks = 0 };
    };
    word = λ a. 0;
  };
}

sync-IsTable : IsTable (table sync)
unfolding get_process_idx get_process_idx_from
sync-IsTable = record {
  slots = refl;
  some_process = omega arith;
  few = omega arith;
  current_in = omega arith;
  idle_lives = omega arith;
}

waiters-IsValid : IsValid sync.waiters
waiters-IsValid = record {
  storage = omega arith;
  bounded = omega arith;
  read_in = omega arith;
  length_in = omega arith;
  write_behind = refl;
}

at_zero : OpenAt 7 0 (sem 7 0) sync
unfolding find_sem find_sem_from
at_zero = record {
  nonempty = omega arith;
  found = refl;
  in_slot = refl;
  in_table = omega arith;
  unlocked = refl;
}

at_three : OpenAt 10 1 (sem 10 3) sync
unfolding find_sem find_sem_from
at_three = record {
  nonempty = omega arith;
  found = refl;
  in_slot = refl;
  in_table = omega arith;
  unlocked = refl;
}

caller : Caller (process 0 ready) (table sync)
unfolding get_process_idx get_process_idx_from
caller = record { has_turn = refl; own_slot = refl; not_idle = omega arith }

free_id : find_free_sem sync ≡ returns 11 sync
unfolding find_free_sem free_id_from has_id
free_id = refl

exists_already : open_sem 10 5 sync ≡ returns 0 sync
unfolding open_sem open_or_create find_slot
exists_already = refl

wait_sem-Blocked_example :
    (s' : Sync) × (rsp' : ℕ) × (wait_sem 64 8 7 sync ≡ returns (switched rsp') s')
    × Blocked 64 8 0 (sem 7 0) (process 0 ready) sync s' rsp'
wait_sem-Blocked_example =
    wait_sem-Blocked 64 8 7 0 (sem 7 0) (process 0 ready) sync at_zero refl sync-IsTable
      waiters-IsValid caller

post_sem-wakes_example :
    (s' : Sync) × (post_sem 10 sync ≡ returns 0 s')
    × (s'.semaphores ≡ set sync.semaphores 1 (sem 10 3))
    × (waiting s'.waiters ≡ [])
    × IsValid s'.waiters
    × (table s' ≡ with_state 2 ready sleeper (table sync))
unfolding get_process_idx get_process_idx_from
post_sem-wakes_example =
    post_sem-wakes 10 1 2 [] (sem 10 3) sleeper sync at_three waiters-IsValid refl (omega arith)
      refl

unknown : has_id 8 sync.semaphores ≡ false
unfolding has_id
unknown = refl

has_id-fault_example :
    (wait_sem 64 8 8 sync ≡ fault) × (post_sem 8 sync ≡ fault) × (close_sem 8 sync ≡ fault)
has_id-fault_example = has_id-fault 8 64 8 sync refl (omega arith) unknown

find_free_sem-free_example :
    (i : ℕ) × (find_free_sem sync ≡ returns i sync)
    × All (λ (sem : Semaphore). sem.sem_id ≢ i) sync.semaphores
    × (10 ≤ i)
    × (i ≤ 40)
find_free_sem-free_example = find_free_sem-free sync refl (omega arith)
