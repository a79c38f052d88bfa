-- ===== src/Semaphore/Block.antt =====
-- A process that `wait_sem` blocks, and its waking by `post_sem`.
use macac_os.Base.{
  ℕ, zero, suc, subst, some_inj, ◌+◌, ◌≡◌, ◌≢◌, refl, sym, ap, ◌∙◌, some, false, List, [], ◌∷◌,
  returns, get_elem?, get_elem?-set_self, set, set-set, length-set, arith, inl, inr,
}
use macac_os.Scheduler.{
  Process, Scheduler, dead, get_process_idx_from, paused_by_sem, ready, get_process_idx, process_at,
  get_pid, current_process, consume_tick, force_timer_tick, force_next_process, next_process,
}
use macac_os.Scheduler.Choose.{IsTable, change_process-at, with_state}
use macac_os.Scheduler.Switch.{Switched, lookup-saved, saved, next_process-Switched, in_range}
use macac_os.Kernel.Lift.{next-step}

-- The current process with no ticks left.
abbrev drained : Process → Process
drained p = record p { remaining_ticks = 0 }

abbrev pub with_current : Process → Scheduler → Scheduler
with_current p s = record s { process_list = set s.process_list s.current_process_idx p }

module _ (s : Scheduler) (p : Process)
    (e : get_elem? s.process_list s.current_process_idx ≡ some p) where
  pub get_pid-current : get_pid s ≡ returns p.pid s
  unfolding get_pid current_process process_at
  get_pid-current = rw e refl

  with_current-slot :
      (q : Process) → get_elem? (with_current q s).process_list s.current_process_idx ≡ some q
  with_current-slot q =
      get_elem?-set_self s.process_list s.current_process_idx q
        (in_range s.process_list s.current_process_idx p e)

  consume_tick-drained : p.remaining_ticks ≡ 0 → consume_tick s ≡ returns false s
  unfolding consume_tick process_at
  consume_tick-drained none_left = rw e (rw none_left refl)

pub force_next_process-next_process :
    (sp ss : ℕ) (s : Scheduler) (p : Process)
    → get_elem? s.process_list s.current_process_idx ≡ some p
    → force_next_process sp ss s ≡ next_process sp ss (with_current (drained p) s)
unfolding force_next_process force_timer_tick
force_next_process-next_process sp ss s p e =
    next-step _ (change_process-at s.current_process_idx drained s p e) (
      next-step _
        (consume_tick-drained (with_current (drained p) s) (drained p)
          (with_current-slot s p e (drained p)) refl)
        refl)

-- The process as `wait_sem` leaves it, and the table with it in the current slot.
abbrev pub blocked : Process → Process
blocked p = record p { state = paused_by_sem; remaining_ticks = 0 }

-- A change between two live states keeps what the lookups find.
lookup-alive :
    (pid i k : ℕ) (p q : Process) (ps : List Process)
    → get_elem? ps k ≡ some p
    → q.pid ≡ p.pid
    → p.state ≢ dead
    → q.state ≢ dead
    → get_process_idx_from pid i (set ps k q) ≡ get_process_idx_from pid i ps
unfolding get_process_idx_from
lookup-alive pid i k p q [] e a b c = refl
lookup-alive pid i zero p q (x ∷ ps) e a b c = ground arith
lookup-alive pid i (suc k) p q (x ∷ ps) e a b c =
    ground (arith, lookup-alive pid (i + 1) k p q ps e a b c)

blocked-IsTable :
    (s : Scheduler) (p : Process)
    → IsTable s
    → get_elem? s.process_list s.current_process_idx ≡ some p
    → p.state ≢ dead
    → IsTable (with_current (blocked p) s)
unfolding get_process_idx
blocked-IsTable s p v e alive = record {
  slots = length-set s.process_list s.current_process_idx (blocked p) ∙ v.slots;
  some_process = v.some_process;
  few = v.few;
  current_in = v.current_in;
  idle_lives =
      rw
        (lookup-alive s.idle_pid 0 s.current_process_idx p (blocked p) s.process_list e refl alive
          (omega arith))
        v.idle_lives;
}

-- A context switch away from a process that is not ready, and not the idle process, runs another.
Switched-turn :
    (sp ss sp' : ℕ) (s s' : Scheduler) (p : Process)
    → get_elem? s.process_list s.current_process_idx ≡ some p
    → p.state ≢ ready
    → s.current_process_idx ≢ get_process_idx s.idle_pid s
    → Switched sp ss p s s' sp'
    → s'.current_process_idx ≢ s.current_process_idx
unfolding get_process_idx
Switched-turn sp ss sp' s s' p e not_ready not_idle w = elim w.is_chosen.turn [
  | inl (k, lt, before, (q, here, is_ready), turn) ↦ λ same.
      let q_is : some q ≡ some (record p { stack_pointer = sp; stack_segment = ss }) =
        sym here
        ∙ ap (get_elem? (saved sp ss p s).process_list) (sym turn ∙ sym w.same_turn ∙ same)
        ∙ get_elem?-set_self s.process_list s.current_process_idx _
            (in_range s.process_list s.current_process_idx p e) in
      not_ready (ap (λ (x : Process). x.state) (sym (some_inj q _ q_is)) ∙ is_ready)
  | inr (none_ready, turn) ↦ λ same. not_idle (
      sym same
      ∙ w.same_turn
      ∙ turn
      ∙ lookup-saved s.idle_pid 0 s.current_process_idx p _ s.process_list e refl refl)
]

-- The switch away from the process that `wait_sem` blocks.
pub blocked-Switched :
    (sp ss : ℕ) (s : Scheduler) (p : Process)
    → IsTable s
    → get_elem? s.process_list s.current_process_idx ≡ some p
    → p.state ≢ dead
    → s.current_process_idx ≢ get_process_idx s.idle_pid s
    → (s' : Scheduler) × (sp' : ℕ) × (force_next_process sp ss
          (with_state s.current_process_idx paused_by_sem p s)
        ≡ returns sp' s')
      × Switched sp ss (blocked p) (with_current (blocked p) s) s' sp'
      × (s'.current_process_idx ≢ s.current_process_idx)
unfolding get_process_idx
blocked-Switched sp ss s p v e alive not_idle =
    let i = s.current_process_idx in
    let paused : Process = record p { state = paused_by_sem } in
    let t = with_current (blocked p) s in
    let at : get_elem? t.process_list i ≡ some (blocked p) = with_current-slot s p e (blocked p) in
    let (q, slot, (s', sp', done, w)) =
      next_process-Switched sp ss t (blocked-IsTable s p v e alive) in
    let q_is : q ≡ blocked p = some_inj q (blocked p) (sym slot ∙ at) in
    let w' : Switched sp ss (blocked p) t s' sp' =
      subst (λ (x : Process). Switched sp ss x t s' sp') q_is w in
    (
      s',
      sp',
      force_next_process-next_process sp ss (with_current paused s) paused
            (with_current-slot s p e paused)
          ∙ ap (λ l. next_process sp ss (record s { process_list = l }))
              (set-set s.process_list i paused (blocked p))
          ∙ done,
      w',
      Switched-turn sp ss sp' t s' (blocked p) at (omega arith)
          (λ same. not_idle (
            same
            ∙ lookup-alive s.idle_pid 0 i p (blocked p) s.process_list e refl alive (omega arith)))
          w',
    )
