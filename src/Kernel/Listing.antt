-- ===== src/Kernel/Listing.antt =====
-- `get_all_processes` of Kernel/scheduler.c.
use macac_os.Base.{
  ℕ, ◌≡◌, refl, sym, ◌∙◌, Option, none, some, List, [], ◌∷◌, ◌==◌, if◌then◌else◌, length, arith,
}
use macac_os.Scheduler.{Process, dead}
use macac_os.Kernel.{Kernel}
use macac_os.Kernel.Count.{live_slots, IsCounted}

-- `name` is `none` where it is not written.
pub record ProcessInfo : Type 0 where
  pub name : Option ℕ
  pub pid : ℕ
  pub priority : ℕ
  pub state : ℕ
  pub stack_start : ℕ
  pub stack_end : ℕ
  pub stack_pointer : ℕ
  pub output : ℕ
  pub assigned_ticks : ℕ

-- `params[0]` is a word of the memory.
unfoldable pub process_info : (ℕ → ℕ) → Process → ProcessInfo
process_info word p = record {
  name = if p.params == 0 then none else some (word p.params);
  pid = p.pid;
  priority = p.priority;
  state = p.state;
  stack_start = p.stack_start;
  stack_end = p.stack_end;
  stack_pointer = p.stack_pointer;
  output = p.output;
  assigned_ticks = p.assigned_ticks;
}

-- The loop over the table.
unfoldable pub list_from : (ℕ → ℕ) → List Process → List ProcessInfo
unfolding process_info
list_from word [] = []
list_from word (p ∷ ps) =
    let rest = list_from word ps in if p.state == dead then rest else process_info word p ∷ rest

-- What is written to the array from its start on.
unfoldable pub get_all_processes : Kernel → List ProcessInfo
unfolding list_from
get_all_processes k = list_from k.word k.family.scheduler.process_list

length-list_from : (word : ℕ → ℕ) (ps : List Process) → length (list_from word ps) ≡ live_slots ps
unfolding list_from
length-list_from word [] = refl
length-list_from word (p ∷ ps) = ground (arith, length-list_from word ps)

-- As many processes are listed as `dim` says.
pub length-get_all_processes :
    (k : Kernel)
    → IsCounted k.family.scheduler
    → length (get_all_processes k) ≡ k.family.scheduler.dim
unfolding get_all_processes
length-get_all_processes k c =
    length-list_from k.word k.family.scheduler.process_list ∙ sym c.counts
