-- ===== src/Children.antt =====
-- Kernel/child_processes.c: which process waits for which children. The table of children stands
-- beside the process table.
pub mod Wake
pub mod Last
mod Tests
use macac_os.Base.{
  ℕ, zero, suc, ◌+◌, ◌-◌, Bool, true, false, not, ◌&&◌, ◌||◌, Option, none, some, List, [], ◌∷◌,
  Outcome, returns, fault, hang, Cmd, pure, fetch, get_state, modify, ◌>>=◌, ◌>>◌, ltb, leb, ◌==◌,
  if◌then◌else◌, get_elem?, set, length,
}
use macac_os.Scheduler.{
  Scheduler, ready, dead, paused_by_child, change_process_state, get_pid, force_timer_tick,
}

abbrev pub max_children_processes : ℕ
max_children_processes = 50

pub record ChildInfo : Type 0 where
  pub parent_pid : ℕ
  pub child_pid : ℕ
  pub state : ℕ

-- `children_processes` and the process table.
pub record Family : Type 0 where
  pub children : List ChildInfo
  pub scheduler : Scheduler

-- A function of scheduler.c, called from here.
abbrev pub on_scheduler : {A : Type 0} → Cmd Scheduler A → Cmd Family A
on_scheduler m f = elim (m f.scheduler) [
  | returns a s ↦ returns a (record f { scheduler = s })
  | fault ↦ fault
  | hang ↦ hang
]

unfoldable pub all_children_finished : ℕ → List ChildInfo → Bool
all_children_finished parent_pid [] = true
all_children_finished parent_pid (c ∷ cs) =
    if c.state == ready && c.parent_pid == parent_pid
    then false
    else all_children_finished parent_pid cs

unfoldable pub delete_children : ℕ → List ChildInfo → List ChildInfo
delete_children parent_pid [] = []
delete_children parent_pid (c ∷ cs) =
    (if c.parent_pid == parent_pid
      then record { parent_pid = 0; child_pid = 0; state = dead }
      else c)
    ∷ delete_children parent_pid cs

-- The search of `set_dead_process`: the children with the first running entry of `pid` marked dead,
-- and its parent.
unfoldable pub mark_dead : ℕ → List ChildInfo → Option (List ChildInfo × ℕ)
mark_dead pid [] = none
mark_dead pid (c ∷ cs) =
    if c.state == ready && c.child_pid == pid
    then some (record c { state = dead } ∷ cs, c.parent_pid)
    else elim (mark_dead pid cs) [ none ↦ none | some (ds, father) ↦ some (c ∷ ds, father) ]

-- What happens once the entry is marked: the last child wakes its parent up.
unfoldable pub wake_parent : ℕ → Cmd Family (Unit {0})
wake_parent father f =
    if all_children_finished father f.children
    then on_scheduler (change_process_state father ready)
        (record f { children = delete_children father f.children })
    else returns tt f

unfoldable pub set_dead_process : ℕ → Cmd Family (Unit {0})
set_dead_process pid f = elim (mark_dead pid f.children) [
  | none ↦ returns tt f
  | some (cs, father) ↦ wake_parent father (record f { children = cs })
]

-- The child goes to the first entry that is not running; without one it is not recorded.
unfoldable pub add_child : ℕ → ℕ → List ChildInfo → List ChildInfo
add_child parent_pid child_pid [] = []
add_child parent_pid child_pid (c ∷ cs) =
    if c.state == dead
    then record { parent_pid = parent_pid; child_pid = child_pid; state = ready } ∷ cs
    else c ∷ add_child parent_pid child_pid cs

unfoldable pub has_children : ℕ → List ChildInfo → Bool
has_children pid [] = false
has_children pid (c ∷ cs) = if c.parent_pid == pid then true else has_children pid cs

-- The result is the stack pointer behind the call.
unfoldable pub wait_for_children : ℕ → ℕ → Cmd Family ℕ
wait_for_children rsp ss = do
  pid ← on_scheduler get_pid
  f ← get_state
  if has_children pid f.children
      then (do
        on_scheduler (change_process_state pid paused_by_child)
        on_scheduler (force_timer_tick rsp ss))
      else pure rsp
