-- ===== src/Scheduler/Switch.antt =====
-- `next_process` as a whole: a context switch.
use macac_os.Base.{
  ℕ, zero, suc, ◌+◌, ◌<◌, ◌≡◌, ◌≢◌, refl, sym, ◌∙◌, some, List, [], ◌∷◌, ltb, ltb→lt, ltb→ge,
  get_elem?, get_elem?-lt, get_elem?-ge, get_elem?-set_self, get_elem?-set_ne, set, length,
  length-set, arith, inl, inr, Bool-cases, returns,
}
use macac_os.Scheduler.{
  Process, Scheduler, ready, get_process_idx, get_process_idx_from, process_at, next_process,
}
use macac_os.Scheduler.Choose.{IsTable, Chosen, choose_process-Chosen, change_process-at}

-- The table with the stack pointer and segment of the interrupted process stored.
abbrev pub saved : ℕ → ℕ → Process → Scheduler → Scheduler
saved sp ss p s = record s {
  process_list =
      set s.process_list s.current_process_idx
        (record p { stack_pointer = sp; stack_segment = ss });
}

-- Changes that keep the pid and the state of a slot keep what the lookups find.
pub lookup-saved :
    (pid i k : ℕ) (p q : Process) (ps : List Process)
    → get_elem? ps k ≡ some p
    → q.pid ≡ p.pid
    → q.state ≡ p.state
    → get_process_idx_from pid i (set ps k q) ≡ get_process_idx_from pid i ps
unfolding get_process_idx_from
lookup-saved pid i k p q [] e a b = refl
lookup-saved pid i zero p q (x ∷ ps) e a b = ground arith
lookup-saved pid i (suc k) p q (x ∷ ps) e a b =
    ground (arith, lookup-saved pid (i + 1) k p q ps e a b)

saved-IsTable :
    (sp ss : ℕ) (p : Process) (s : Scheduler)
    → IsTable s
    → get_elem? s.process_list s.current_process_idx ≡ some p
    → IsTable (saved sp ss p s)
unfolding get_process_idx
saved-IsTable sp ss p s v e =
    let q : Process = record p { stack_pointer = sp; stack_segment = ss } in
    record {
      slots = length-set s.process_list s.current_process_idx q ∙ v.slots;
      some_process = v.some_process;
      few = v.few;
      current_in = v.current_in;
      idle_lives =
          rw (lookup-saved s.idle_pid 0 s.current_process_idx p q s.process_list e refl refl)
            v.idle_lives;
    }

pub in_range : (ps : List Process) (i : ℕ) (p : Process) → get_elem? ps i ≡ some p → i < length ps
in_range ps i p e = elim (Bool-cases (ltb i (length ps))) [
  | inl y ↦ ltb→lt i (length ps) y
  | inr z ↦ let gone = get_elem?-ge ps i (ltb→ge i (length ps) z) in absurd (ground arith)
]

-- What a context switch that interrupts `p` leaves behind.
pub record Switched (sp ss : ℕ) (p : Process) (s s' : Scheduler) (sp' : ℕ) : Type 0 where
  pub chosen : Scheduler
  pub is_chosen : Chosen (saved sp ss p s) chosen
  pub same_turn : s'.current_process_idx ≡ chosen.current_process_idx
  -- The slot with the turn is the one that was chosen, but for its ticks.
  pub runs :
      (q : Process) × (get_elem? chosen.process_list chosen.current_process_idx ≡ some q)
      × (q.state ≡ ready)
      × (get_elem? s'.process_list s'.current_process_idx
          ≡ some (record q { remaining_ticks = q.assigned_ticks }))
      × (sp' ≡ q.stack_pointer)
  pub others :
      (i : ℕ)
      → i ≢ s'.current_process_idx
      → get_elem? s'.process_list i ≡ get_elem? chosen.process_list i

-- On a well-formed table next_process always returns. It stores the stack pointer and segment of
-- the process that it interrupts, gives the turn to the process that choose_process picks, and
-- returns the stack pointer stored for it; the slot of that process is as it was chosen, but that
-- its remaining ticks are its assigned ones.
pub next_process-Switched :
    (sp ss : ℕ) (s : Scheduler)
    → IsTable s
    → (p : Process) × (get_elem? s.process_list s.current_process_idx ≡ some p)
      × ((s' : Scheduler) × (sp' : ℕ) × (next_process sp ss s ≡ returns sp' s')
          × Switched sp ss p s s' sp')
unfolding next_process process_at
next_process-Switched sp ss s v =
    let (p, e) =
      get_elem?-lt s.process_list s.current_process_idx (omega (arith, v.slots, v.current_in)) in
    let (c, done, is) = choose_process-Chosen (saved sp ss p s) (saved-IsTable sp ss p s v e) in
    let (q, slot, is_ready) = is.runs in
    let i = c.current_process_idx in
    let refill : Process = record q { remaining_ticks = q.assigned_ticks } in
    let s' : Scheduler = record c { process_list = set c.process_list i refill } in
    let slot' : get_elem? s'.process_list i ≡ some refill =
      get_elem?-set_self c.process_list i refill (in_range c.process_list i q slot) in
    (
      p,
      e,
      (
        s',
        q.stack_pointer,
        rw
            (change_process-at s.current_process_idx
              (λ p. record p { stack_pointer = sp; stack_segment = ss }) s p e)
            (rw done (
              rw
                (change_process-at i (λ p. record p { remaining_ticks = p.assigned_ticks }) c q
                  slot)
                (rw slot'))),
        record {
          chosen = c;
          is_chosen = is;
          same_turn = refl;
          runs = (q, slot, is_ready, slot', refl);
          others = λ j ne. get_elem?-set_ne c.process_list i j refill (λ eq. ne (sym eq));
        },
      ),
    )
