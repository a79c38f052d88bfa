-- ===== src/Scheduler/Missing.antt =====
-- Calls with a pid that no live process has, and slots that the scheduler never reaches.
use macac_os.Base.{
  ℕ, ◌≤◌, ◌≡◌, ◌≢◌, sym, ◌∙◌, inl, inr, none, some, get_elem?, get_elem?-ge, length, arith, returns,
  fault,
}
use macac_os.Scheduler.{
  Process, Scheduler, dead, get_process_idx, max_processes, no_process_found, change_process,
  process_at, change_process_state, change_priority, get_state_of, block_or_unblock, choose_process,
}
use macac_os.Scheduler.Search.{LookedUp, at, nowhere, get_process_idx-LookedUp}
use macac_os.Scheduler.Choose.{IsTable, choose_process-Chosen}

-- No live process has the pid.
abbrev pub Missing : ℕ → Scheduler → Type 0
Missing pid s =
    (j : ℕ) (p : Process) → get_elem? s.process_list j ≡ some p → p.pid ≡ pid → p.state ≡ dead

pub get_process_idx-Missing :
    (pid : ℕ) (s : Scheduler) → Missing pid s → get_process_idx pid s ≡ no_process_found
get_process_idx-Missing pid s m = go (get_process_idx-LookedUp pid s)
  where
    go :
        LookedUp pid 0 s.process_list (get_process_idx pid s)
        → get_process_idx pid s ≡ no_process_found
    go (at j p e same alive is) = absurd (alive (m j p e same))
    go (nowhere none_there is) = is

-- A table in which `get_process_idx` finds no slot has no live process with the pid.
pub unknown-Missing :
    (pid : ℕ) (s : Scheduler)
    → length s.process_list ≡ max_processes
    → get_process_idx pid s ≡ no_process_found
    → Missing pid s
unknown-Missing pid s t e j p here same = go (get_process_idx-LookedUp pid s)
  where
    go : LookedUp pid 0 s.process_list (get_process_idx pid s) → p.state ≡ dead
    go (at i q there same' alive is) =
        let out : get_elem? s.process_list i ≡ none = get_elem?-ge s.process_list i (omega arith) in
        absurd (ground arith)
    go (nowhere none_there is) = none_there j p here same

no_slot :
    (pid : ℕ) (s : Scheduler)
    → Missing pid s
    → length s.process_list ≡ max_processes
    → get_elem? s.process_list (get_process_idx pid s) ≡ none
no_slot pid s m e =
    rw (get_process_idx-Missing pid s m) (get_elem?-ge s.process_list 255 (omega arith))

change_process-fault :
    (i : ℕ) (f : Process → Process) (s : Scheduler)
    → get_elem? s.process_list i ≡ none
    → change_process i f s ≡ fault
unfolding change_process
change_process-fault i f s e = rw (e, change_process)

-- With a pid that no live process has, change_process_state, change_priority, get_state and
-- block_or_unblock all access process_list outside its bounds: their test for NO_PROCESS_FOUND
-- never holds of a uint8_t.
pub Missing-fault :
    (pid : ℕ) (s : Scheduler)
    → length s.process_list ≡ max_processes
    → Missing pid s
    → ((st : ℕ) → change_process_state pid st s ≡ fault)
      × ((priority : ℕ) → change_priority pid priority s ≡ fault)
      × (get_state_of pid s ≡ fault)
      × ((rsp ss : ℕ) → block_or_unblock rsp ss pid s ≡ fault)
unfolding change_process_state change_priority get_state_of block_or_unblock process_at
Missing-fault pid s e m =
    let out = no_slot pid s m e in
    let gone = λ (f : Process → Process). change_process-fault (get_process_idx pid s) f s out in
    (λ st. gone _, λ priority. rw (gone _), rw out, λ rsp ss. rw (gone _))

-- On a well-formed table a slot at or behind dim that is not the slot of the idle process is not
-- chosen by next_process, ready or not.
pub stranded :
    (s : Scheduler) (j : ℕ)
    → IsTable s
    → s.dim ≤ j
    → j ≢ get_process_idx s.idle_pid s
    → (s' : Scheduler) × (choose_process s ≡ returns tt s') × (s'.current_process_idx ≢ j)
stranded s j v le ne =
    let (s', done, is) = choose_process-Chosen s v in
    (
      s',
      done,
      elim is.turn [
        | inl (k, lt, before, here, turn) ↦ λ e. absurd (omega (arith, v.some_process))
        | inr (none_ready, turn) ↦ λ e. ne (sym e ∙ turn)
      ],
    )
