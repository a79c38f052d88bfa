-- ===== src/SystemCalls/Turn.antt =====
-- The process that makes a system call.
use macac_os.Base.{◌≡◌, ap, some, returns, fetch, get_elem?}
use macac_os.Scheduler.{Process, Scheduler, process_at, current_process}
use macac_os.SystemCalls.{System, on_processes}

abbrev pub table_of : System → Scheduler
table_of s = s.pipes.sync.kernel.family.scheduler

-- The process has the turn in a table.
abbrev pub HasTurn : Process → Scheduler → Type 0
HasTurn p t = get_elem? t.process_list t.current_process_idx ≡ some p

pub current_process-returns :
    (s : System) (p : Process)
    → HasTurn p (table_of s)
    → on_processes current_process s ≡ returns p s
unfolding current_process process_at
current_process-returns s p e = ap (λ o. on_processes (λ (t : Scheduler). fetch o t) s) e
