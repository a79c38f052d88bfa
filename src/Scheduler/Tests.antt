-- ===== src/Scheduler/Tests.antt =====
-- Runs of scheduler.c, and its theorems at a table with a ready, a paused and an idle process.
use macac_os.Base.{
  ℕ, ◌+◌, ◌*◌, ◌≡◌, ◌≢◌, refl, true, false, some, ◌∷◌, arith, returns, fault, replicate, get_elem?,
}
use macac_os.Scheduler.{
  Process, Scheduler, dead, ready, paused, get_process_idx, get_process_idx_from,
  change_process_state, change_priority, get_state_of, block_or_unblock, choose_process,
  next_process, find_ready,
}
use macac_os.Scheduler.Choose.{IsTable, Chosen, choose_process-Chosen}
use macac_os.Scheduler.Switch.{Switched, next_process-Switched}
use macac_os.Scheduler.Missing.{Missing, unknown-Missing, Missing-fault, stranded}

abbrev process : ℕ → ℕ → Process
process pid state = record {
  pid = pid;
  priority = 1;
  params = 0;
  stack_start = 0;
  stack_end = 0;
  stack_pointer = 0xB00000 + pid * 0x1000;
  stack_segment = 0;
  state = state;
  assigned_ticks = 2;
  remaining_ticks = 1;
  immortal = false;
  input = 0;
  output = 1;
}

abbrev table : Scheduler
table = record {
  process_list =
      process 0 ready
      ∷ process 1 ready
      ∷ process 2 paused
      ∷ process 3 ready
      ∷ replicate 96 (process 0 dead);
  pid_value = 4;
  dim = 3;
  current_process_idx = 0;
  idle_pid = 1;
}

table-IsTable : IsTable table
unfolding get_process_idx get_process_idx_from
table-IsTable = record {
  slots = refl;
  some_process = omega arith;
  few = omega arith;
  current_in = omega arith;
  idle_lives = omega arith;
}

ready_next : find_ready 3 3 0 table.process_list ≡ some (1, true)
unfolding find_ready
ready_next = refl

choose_process-Chosen_example :
    (s' : Scheduler) × (choose_process table ≡ returns tt s') × Chosen table s'
choose_process-Chosen_example = choose_process-Chosen table table-IsTable

next_process-Switched_example :
    (p : Process) × (get_elem? table.process_list 0 ≡ some p)
    × ((s' : Scheduler) × (sp' : ℕ) × (next_process 64 8 table ≡ returns sp' s')
        × Switched 64 8 p table s' sp')
next_process-Switched_example = next_process-Switched 64 8 table table-IsTable

-- Slot 3 holds a process that is ready.
stranded_example :
    (s' : Scheduler) × (choose_process table ≡ returns tt s') × (s'.current_process_idx ≢ 3)
unfolding get_process_idx get_process_idx_from
stranded_example = stranded table 3 table-IsTable (omega arith) (omega arith)

nobody : Missing 9 table
unfolding get_process_idx get_process_idx_from
nobody = unknown-Missing 9 table refl refl

Missing-fault_example :
    ((st : ℕ) → change_process_state 9 st table ≡ fault)
    × ((priority : ℕ) → change_priority 9 priority table ≡ fault)
    × (get_state_of 9 table ≡ fault)
    × ((rsp ss : ℕ) → block_or_unblock rsp ss 9 table ≡ fault)
Missing-fault_example = Missing-fault 9 table refl nobody
