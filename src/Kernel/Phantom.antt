-- ===== src/Kernel/Phantom.antt =====
-- `create_child_process` on a full table.
use macac_os.Base.{
  ℕ, suc, ◌≡◌, Bool, ◌>>=◌, refl, ap, ◌∙◌, true, false, some, get_elem?, arith, returns, ◌==◌,
  and_then, modify, ◌>>◌, pure, ◌^◌, ◌-◌,
}
use macac_os.Scheduler.{Process, Scheduler, max_processes, get_pid, current_process, process_at}
use macac_os.Children.{add_child}
use macac_os.Children.Wake.{running, has_free, add_child-running}
use macac_os.Kernel.{
  Kernel, processes_limit_reached, create_process, create_child_process, on_table, on_family, code,
}
use macac_os.Kernel.Lift.{on_table-returns}

create_process-full :
    (end_process params priority input output : ℕ) (b : Bool) (entry_point : ℕ) (k : Kernel)
    → k.family.scheduler.dim ≡ max_processes
    → create_process end_process params priority input output b entry_point k
      ≡ returns processes_limit_reached k
unfolding create_process
create_process-full end_process params priority input output b entry_point k full =
    let is : (k.family.scheduler.dim == max_processes) ≡ true = ground arith in rw is refl

get_pid-current :
    (s : Scheduler) (p : Process)
    → get_elem? s.process_list s.current_process_idx ≡ some p
    → get_pid s ≡ returns p.pid s
unfolding get_pid current_process process_at
get_pid-current s p e = rw e

-- Where the table is full create_child_process reports so, but counts a running child more for the
-- calling process if the table of children has an entry left. The process table does not change.
pub create_child_process-full :
    (end_process params priority input output entry_point : ℕ) (k : Kernel) (p : Process)
    → k.family.scheduler.dim ≡ max_processes
    → get_elem? k.family.scheduler.process_list k.family.scheduler.current_process_idx ≡ some p
    → has_free k.family.children ≡ true
    → (k' : Kernel) × (create_child_process end_process params priority input output entry_point k
        ≡ returns processes_limit_reached k')
      × (running p.pid k'.family.children ≡ suc (running p.pid k.family.children))
      × (k'.family.scheduler ≡ k.family.scheduler)
unfolding create_child_process
create_child_process-full end_process params priority input output entry_point k p full e room = (
  record k {
    family = record (k.family) { children = add_child p.pid (2 ^ 32 - 3) k.family.children };
  },
  ap
        (λ o. and_then o (λ child. on_table get_pid >>= λ pid.
          on_family (modify (λ f. record f { children = add_child pid (code child) f.children }))
          >> pure child))
        (create_process-full end_process params priority input output false entry_point k full)
      ∙ ap
          (λ o. and_then o (λ pid.
            on_family (modify (λ f. record f { children = add_child pid (2 ^ 32 - 3) f.children }))
            >> pure processes_limit_reached))
          (on_table-returns get_pid k p.pid k.family.scheduler
            (get_pid-current k.family.scheduler p e)),
  ground (arith, add_child-running p.pid (2 ^ 32 - 3) k.family.children p.pid),
  refl,
)
