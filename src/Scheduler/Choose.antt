-- ===== src/Scheduler/Choose.antt =====
-- `next_process`: which process runs next, and what the switch saves and restores.
use macac_os.Base.{
  lt_of_get_elem?, Option, none, ℕ, suc, ◌+◌, ◌%◌, ◌≤◌, ◌<◌, ◌≡◌, ◌≢◌, refl, sym, ap, ◌∙◌, ◌⊎◌,
  Bool, true, false, some, List, ◌==◌, get_elem?, get_elem?-set_self, get_elem?-set_ne, set, length,
  length-set, arith, inl, inr, Bool-cases, returns, ne_of_==,
}
use macac_os.Scheduler.{
  Process, Scheduler, find_ready, ready, dead, paused, get_process_idx, max_processes, process_at,
  change_process, change_process_state, choose_process,
}
use macac_os.Scheduler.Search.{
  IsReadyAt, NotReadyAt, Found, hit, miss, find_ready-Found, LookedUp, at, nowhere,
  get_process_idx-LookedUp,
}

-- The shape of the table that the switch relies on.
pub record IsTable (s : Scheduler) : Type 0 where
  pub slots : length s.process_list ≡ max_processes
  pub some_process : 0 < s.dim
  pub few : s.dim ≤ max_processes
  pub current_in : s.current_process_idx < max_processes
  pub idle_lives : get_process_idx s.idle_pid s < max_processes

pub change_process-at :
    (i : ℕ) (f : Process → Process) (s : Scheduler) (p : Process)
    → get_elem? s.process_list i ≡ some p
    → change_process i f s ≡ returns tt (record s { process_list = set s.process_list i (f p) })
unfolding change_process
change_process-at i f s p e = rw (e, change_process)

-- The slot that `get_process_idx` found.
pub found_slot :
    (pid : ℕ) (s : Scheduler)
    → get_process_idx pid s < max_processes
    → (p : Process) × (get_elem? s.process_list (get_process_idx pid s) ≡ some p)
      × (p.pid ≡ pid)
      × (p.state ≢ dead)
found_slot pid s lt = slot (get_process_idx-LookedUp pid s)
  where
    slot :
        LookedUp pid 0 s.process_list (get_process_idx pid s)
        → (p : Process) × (get_elem? s.process_list (get_process_idx pid s) ≡ some p)
          × (p.pid ≡ pid)
          × (p.state ≢ dead)
    slot (at j p e same alive is) =
        let here : get_process_idx pid s ≡ j = omega arith in (p, rw here e, same, alive)
    slot (nowhere none_there is) = absurd (omega arith)

-- The table with the state of one slot changed.
abbrev pub with_state : ℕ → ℕ → Process → Scheduler → Scheduler
with_state i st p s = record s { process_list = set s.process_list i (record p { state = st }) }

pub change_process_state-found :
    (pid st : ℕ) (s : Scheduler) (p : Process)
    → get_elem? s.process_list (get_process_idx pid s) ≡ some p
    → change_process_state pid st s ≡ returns tt (with_state (get_process_idx pid s) st p s)
unfolding change_process_state
change_process_state-found pid st s p e =
    change_process-at (get_process_idx pid s) (λ p. record p { state = st }) s p e

-- What `choose_process` leaves behind: round robin over the first `dim` slots, and the idle process
-- where none of them is ready. Only the slot of the idle process may change.
pub record Chosen (s s' : Scheduler) : Type 0 where
  pub turn :
      ((k : ℕ) × (k < s.dim)
        × ((j : ℕ) → j < k → NotReadyAt s.process_list ((s.current_process_idx + suc j) % s.dim))
        × IsReadyAt s.process_list ((s.current_process_idx + suc k) % s.dim)
        × (s'.current_process_idx ≡ (s.current_process_idx + suc k) % s.dim))
      ⊎ (((j : ℕ) → j < s.dim → NotReadyAt s.process_list ((s.current_process_idx + suc j) % s.dim))
          × (s'.current_process_idx ≡ get_process_idx s.idle_pid s))
  pub runs : IsReadyAt s'.process_list s'.current_process_idx
  pub others :
      (i : ℕ)
      → i ≢ get_process_idx s.idle_pid s
      → get_elem? s'.process_list i ≡ get_elem? s.process_list i
  -- The slot of the idle process changes in its state alone.
  pub idle_kept :
      (q : Process)
      → get_elem? s.process_list (get_process_idx s.idle_pid s) ≡ some q
      → (st : ℕ) × (get_elem? s'.process_list (get_process_idx s.idle_pid s)
          ≡ some (record q { state = st }))
  pub same_slots : length s'.process_list ≡ length s.process_list

-- A change of the state of the idle process's slot, for the last three parts of `Chosen`.
with_state-others :
    (s : Scheduler) (i st : ℕ) (p : Process) (j : ℕ)
    → j ≢ i
    → get_elem? (set s.process_list i (record p { state = st })) j ≡ get_elem? s.process_list j
with_state-others s i st p j ne =
    get_elem?-set_ne s.process_list i j (record p { state = st }) (λ e. ne (sym e))

with_state_self :
    (s : Scheduler) (i st : ℕ) (p q : Process)
    → get_elem? s.process_list i ≡ some p
    → get_elem? s.process_list i ≡ some q
    → get_elem? (set s.process_list i (record p { state = st })) i ≡ some (record q { state = st })
with_state_self s i st p q a b =
    get_elem?-set_self s.process_list i (record p { state = st })
      (lt_of_get_elem? s.process_list i p a)
    ∙ ap (λ (o : Option Process). elim o [ none ↦ none | some x ↦ some (record x { state = st }) ])
        (sym a ∙ b)

choose_process-idle :
    (s : Scheduler) (r : ℕ × Bool)
    → IsTable s
    → find_ready s.dim s.dim s.current_process_idx s.process_list ≡ some r
    → ((j : ℕ) → j < s.dim → NotReadyAt s.process_list ((s.current_process_idx + suc j) % s.dim))
    → r.1 ≡ false
    → (s' : Scheduler) × (choose_process s ≡ returns tt s') × Chosen s s'
unfolding choose_process get_process_idx
choose_process-idle s (idx, b) v e none_ready is =
    let i = get_process_idx s.idle_pid s in
    let (p, slot, same, alive) = found_slot s.idle_pid s v.idle_lives in
    let s₁ : Scheduler = record s { current_process_idx = i } in
    (
      with_state i ready p s₁,
      rw (e, is) (change_process_state-found s.idle_pid ready s₁ p slot),
      record {
        turn = inr (none_ready, refl);
        runs = (
          record p { state = ready },
          get_elem?-set_self s.process_list i (record p { state = ready })
              (omega (arith, v.slots, v.idle_lives)),
          refl,
        );
        others = λ j ne. with_state-others s i ready p j ne;
        idle_kept = λ q e'. (ready, with_state_self s i ready p q slot e');
        same_slots = length-set s.process_list i (record p { state = ready });
      },
    )

same_slot :
    (ps : List Process) (i j : ℕ) (p q : Process)
    → get_elem? ps i ≡ some p
    → get_elem? ps j ≡ some q
    → i ≡ j
    → p.pid ≡ q.pid
same_slot ps i j p q a b e = let eq : some p ≡ some q = sym a ∙ ap (get_elem? ps) e ∙ b in cc

choose_process-ready :
    (s : Scheduler) (r : ℕ × Bool)
    → IsTable s
    → find_ready s.dim s.dim s.current_process_idx s.process_list ≡ some r
    → (k : ℕ) → k < s.dim
    → ((j : ℕ) → j < k → NotReadyAt s.process_list ((s.current_process_idx + suc j) % s.dim))
    → IsReadyAt s.process_list ((s.current_process_idx + suc k) % s.dim)
    → r ≡ ((s.current_process_idx + suc k) % s.dim, true)
    → (s' : Scheduler) × (choose_process s ≡ returns tt s') × Chosen s s'
unfolding choose_process get_process_idx process_at
choose_process-ready s r v e k lt before (p, here, is_ready) is =
    let i = (s.current_process_idx + suc k) % s.dim in
    let s₁ : Scheduler = record s { current_process_idx = i } in
    let (q, slot, same, alive) = found_slot s.idle_pid s v.idle_lives in
    let turned = inl (k, lt, before, (p, here, is_ready), refl) in
    elim (Bool-cases (p.pid == s.idle_pid)) [
      | inl y ↦ (
        s₁,
        rw (e ∙ ap some is) (rw (here) (rw y)),
        record {
          turn = turned;
          runs = (p, here, is_ready);
          others = λ j ne. refl;
          idle_kept = λ q e'. (q.state, e');
          same_slots = refl;
        },
      )
      | inr z ↦
          let other : i ≢ get_process_idx s.idle_pid s = λ eq.
            ne_of_== p.pid s.idle_pid z (same_slot s.process_list i _ p q here slot eq ∙ same) in
          (
            with_state (get_process_idx s.idle_pid s) paused q s₁,
            rw (e ∙ ap some is)
                (rw here (rw z (change_process_state-found s.idle_pid paused s₁ q slot))),
            record {
              turn = turned;
              runs = (p, with_state-others s _ paused q i other ∙ here, is_ready);
              others = λ j ne. with_state-others s _ paused q j ne;
              idle_kept = λ q' e'. (paused, with_state_self s _ paused q q' slot e');
              same_slots = length-set s.process_list _ (record q { state = paused });
            },
          )
    ]

-- On a well-formed table the search of next_process always returns, and chooses round robin among
-- the first dim slots, the idle process where none of them is ready; what it chooses is ready then,
-- and only the slot of the idle process may change, in its state alone.
pub choose_process-Chosen :
    (s : Scheduler)
    → IsTable s
    → (s' : Scheduler) × (choose_process s ≡ returns tt s') × Chosen s s'
choose_process-Chosen s v =
    let (r, e, f) =
      find_ready-Found s.dim s.dim s.current_process_idx s.process_list v.some_process
        (omega (arith, v.slots, v.few)) in
    chosen r e f
  where
    chosen :
        (r : ℕ × Bool)
        → find_ready s.dim s.dim s.current_process_idx s.process_list ≡ some r
        → Found s.dim s.dim s.current_process_idx s.process_list r
        → (s' : Scheduler) × (choose_process s ≡ returns tt s') × Chosen s s'
    chosen r e (hit k lt before here is) = choose_process-ready s r v e k lt before here is
    chosen r e (miss none_ready is) = choose_process-idle s r v e none_ready is
