-- ===== src/Children/Tests.antt =====
-- Runs of child_processes.c, and its theorems at a table with two children of one process.
use macac_os.Base.{arith, ℕ, ◌≡◌, refl, true, false, [], ◌∷◌, returns, replicate}
use macac_os.Scheduler.{
  Process, get_process_idx, get_process_idx_from, dead, ready, paused_by_child,
}
use macac_os.Children.{ChildInfo, Family, delete_children, set_dead_process, has_children}
use macac_os.Children.Last.{Died, set_dead_process-last}

abbrev child : ℕ → ℕ → ℕ → ChildInfo
child parent pid state = record { parent_pid = parent; child_pid = pid; state = state }

abbrev process : ℕ → ℕ → Process
process pid state = record {
  pid = pid;
  priority = 1;
  params = 0;
  stack_start = 0;
  stack_end = 0;
  stack_pointer = 0;
  stack_segment = 0;
  state = state;
  assigned_ticks = 2;
  remaining_ticks = 2;
  immortal = false;
  input = 0;
  output = 1;
}

abbrev family : Family
family = record {
  children = child 4 5 ready ∷ child 4 6 dead ∷ child 0 0 dead ∷ [];
  scheduler = record {
    process_list =
        process 0 ready
        ∷ process 4 paused_by_child
        ∷ process 5 ready
        ∷ replicate 97 (process 0 dead);
    pid_value = 6;
    dim = 3;
    current_process_idx = 2;
    idle_pid = 0;
  };
}

set_dead_process-last_example :
    (f' : Family) × (set_dead_process 5 family ≡ returns tt f') × Died 5 4 family f'
unfolding get_process_idx get_process_idx_from
set_dead_process-last_example = set_dead_process-last 5 4 family refl (omega arith)

-- The shell, with pid 0, counts as a parent although it has no child.
shell_has_children : has_children 0 (child 0 0 dead ∷ []) ≡ true
unfolding has_children
shell_has_children = refl

entries_cleared : delete_children 4 family.children ≡ replicate 3 (child 0 0 dead)
unfolding delete_children
entries_cleared = refl
