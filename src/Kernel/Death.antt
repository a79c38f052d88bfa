-- ===== src/Kernel/Death.antt =====
-- `destroy_process`: what the end of one process leaves behind.
use macac_os.Base.{
  ℕ, zero, suc, ◌+◌, ◌-◌, ◌*◌, ◌%◌, ◌^◌, ◌<◌, ◌≤◌, ◌≡◌, ◌≢◌, ◌⊎◌, refl, sym, ap, ◌∙◌, Option, none,
  some, ◌==◌, get_elem?, get_elem?-set_self, get_elem?-set_ne, set, length, length-set, arith, inl,
  inr, Bool-cases, Option-cases, returns, fetch, modify, if-true, if-false, ne_of_==,
}
use macac_os.Memory.{Memory, u64, heap_size, memory_free}
use macac_os.Scheduler.{
  Process, Scheduler, dead, ready, max_processes, get_process_idx, change_process_state,
  change_process, process_at,
}
use macac_os.Scheduler.Choose.{
  with_state, found_slot, change_process_state-found, change_process-at,
}
use macac_os.Scheduler.Switch.{in_range}
use macac_os.Children.{Family, on_scheduler, set_dead_process, delete_children}
use macac_os.Children.Wake.{parent_of, running, set_dead_process-branch, set_dead_process-orphan}
use macac_os.Kernel.{Kernel, free}
use macac_os.Kernel.Lift.{next-step, on_scheduler-returns, on_family-returns, on_table-returns}
use macac_os.Kernel.Count.{live_slots, IsCounted, live_slots-set, live_slots-le}
use macac_os.Kernel.End.{free_params_from, free_params, slot_of, destroy_process}

-- Table `t` has the slots of `s` in use and the same contents in the dead ones.
pub record Undisturbed (s t : Scheduler) : Type 0 where
  pub same_dim : t.dim ≡ s.dim
  pub same_turn : t.current_process_idx ≡ s.current_process_idx
  pub same_slots : length t.process_list ≡ length s.process_list
  pub same_live : live_slots t.process_list ≡ live_slots s.process_list
  pub same_dead :
      (j : ℕ) (p : Process)
      → get_elem? s.process_list j ≡ some p
      → p.state ≡ dead
      → get_elem? t.process_list j ≡ some p

with_state-Undisturbed :
    (s : Scheduler) (i : ℕ) (q : Process)
    → get_elem? s.process_list i ≡ some q
    → q.state ≢ dead
    → Undisturbed s (with_state i ready q s)
with_state-Undisturbed s i q e ne = record {
  same_dim = refl;
  same_turn = refl;
  same_slots = length-set s.process_list i _;
  same_live = ground (arith, live_slots-set s.process_list i q (record q { state = ready }) e);
  same_dead = λ j p here is.
      let other : i ≢ j = λ eq.
        let same : some q ≡ some p = sym e ∙ ap (get_elem? s.process_list) eq ∙ here in
        ne (ap (λ (o : Option Process). elim o [ none ↦ 0 | some x ↦ x.state ]) same ∙ is) in
      get_elem?-set_ne s.process_list i j _ other ∙ here;
}

wake-Undisturbed :
    (father : ℕ) (f : Family)
    → get_process_idx father f.scheduler < max_processes
    → (f' : Family) × (on_scheduler (change_process_state father ready) f ≡ returns tt f')
      × Undisturbed f.scheduler f'.scheduler
wake-Undisturbed father f lives =
    let (q, here, same, ne) = found_slot father f.scheduler lives in
    (
      record f { scheduler = with_state (get_process_idx father f.scheduler) ready q f.scheduler },
      on_scheduler-returns (change_process_state father ready) f tt _
          (change_process_state-found father ready f.scheduler q here),
      with_state-Undisturbed f.scheduler _ q here ne,
    )

same-Undisturbed : (s : Scheduler) → Undisturbed s s
same-Undisturbed s = record {
  same_dim = refl;
  same_turn = refl;
  same_slots = refl;
  same_live = refl;
  same_dead = λ j p e is. e;
}

-- If the parent of the process lives, `set_dead_process` returns and wakes at most the parent.
set_dead_process-Undisturbed :
    (pid : ℕ) (f : Family)
    → ((father : ℕ)
        → parent_of pid f.children ≡ some father
        → get_process_idx father f.scheduler < max_processes)
    → (f' : Family) × (set_dead_process pid f ≡ returns tt f')
      × Undisturbed f.scheduler f'.scheduler
set_dead_process-Undisturbed pid f lives = elim (Option-cases (parent_of pid f.children)) [
  | inl orphan ↦ (f, set_dead_process-orphan pid f orphan, same-Undisturbed f.scheduler)
  | inr (father, e) ↦
      let (ds, less, _, done) = set_dead_process-branch pid father f e in
      elim (Bool-cases (running father f.children == 1)) [
        | inl y ↦
            let (f', woken, kept) =
              wake-Undisturbed father (record f { children = delete_children father ds })
                (lives father e) in
            (f', done ∙ rw y woken, kept)
        | inr z ↦ (record f { children = ds }, done ∙ rw z refl, same-Undisturbed f.scheduler)
      ]
]

-- The array of parameters at an address: `n` pointers, then NULL.
pub record IsParams (word : ℕ → ℕ) (params n : ℕ) : Type 0 where
  pub pointers : (j : ℕ) → j < n → word (u64 (params + 8 * j)) ≢ 0
  pub end_null : word (u64 (params + 8 * n)) ≡ 0
  pub few : n < heap_size

free_params_from-returns :
    (fuel params i n : ℕ) (k : Kernel)
    → ((j : ℕ) → j < n → k.word (u64 (params + 8 * j)) ≢ 0)
    → k.word (u64 (params + 8 * n)) ≡ 0
    → i ≤ n
    → n < i + fuel
    → (m : Memory) × (free_params_from fuel params i k ≡ returns tt (record k { memory = m }))
unfolding free_params_from
free_params_from-returns zero params i n k p e a b = absurd (omega arith)
free_params_from-returns (suc fuel) params i n k p e a b =
    elim (Bool-cases (k.word (u64 (params + 8 * i)) == 0)) [
      | inl y ↦ (k.memory, rw y refl)
      | inr z ↦
          let less : i ≢ n = λ eq. ne_of_== _ 0 z (rw eq e) in
          let (m, done) =
            free_params_from-returns fuel params (i + 1) n (free (k.word (u64 (params + 8 * i))) k)
              p e (omega arith) (omega arith) in
          (m, rw z done)
    ]

free_params-returns :
    (params n : ℕ) (k : Kernel)
    → (params ≡ 0 ⊎ IsParams k.word params n)
    → (m : Memory) × (free_params params k ≡ returns tt (record k { memory = m }))
unfolding free_params
free_params-returns params n k p = elim (Bool-cases (params == 0)) [
  | inl y ↦ (k.memory, if-true (params == 0) _ _ y)
  | inr z ↦ elim p [
    | inl null ↦ absurd (ne_of_== params 0 z null)
    | inr is ↦
        let (m, done) =
          free_params_from-returns heap_size params 0 n k is.pointers is.end_null (omega arith)
            (omega (arith, is.few)) in
        (
          memory_free params m,
          if-false (params == 0) _ _ z ∙ next-step (λ _. modify (free params)) done refl,
        )
  ]
]

pub slot_of-returns :
    (idx : ℕ) (k : Kernel) (p : Process)
    → get_elem? k.family.scheduler.process_list idx ≡ some p
    → slot_of idx k ≡ returns p k
unfolding process_at
slot_of-returns idx k p e =
    on_table-returns (process_at idx) k p k.family.scheduler
      (ap (λ o. fetch o k.family.scheduler) e)

-- The process as `destroy_process` leaves it.
abbrev pub buried : Process → Process
buried p = record p { state = dead; remaining_ticks = 0 }

-- The table right after the first two lines of `destroy_process`.
abbrev pub marked : ℕ → Process → Scheduler → Scheduler
marked idx p s = record s { process_list = set s.process_list idx (buried p) }

marked-live :
    (idx : ℕ) (p : Process) (s : Scheduler)
    → get_elem? s.process_list idx ≡ some p
    → p.state ≢ dead
    → live_slots (marked idx p s).process_list + 1 ≡ live_slots s.process_list
marked-live idx p s e ne = ground (arith, live_slots-set s.process_list idx p (buried p) e)

-- If dim counts the slots in use and a slot holds a live process whose parameters are a well-formed
-- array, and its parent (if it is a running child) lives, destroy_process returns. The slot is dead
-- then, dim goes down by one and still counts the slots in use, and the process that has the turn
-- keeps it.
pub destroy_process-buried :
    (idx n : ℕ) (k : Kernel) (p : Process)
    → IsCounted k.family.scheduler
    → get_elem? k.family.scheduler.process_list idx ≡ some p
    → p.state ≢ dead
    → (p.params ≡ 0 ⊎ IsParams k.word p.params n)
    → ((father : ℕ)
        → parent_of p.pid k.family.children ≡ some father
        → get_process_idx father (marked idx p k.family.scheduler) < max_processes)
    → (k' : Kernel) × (destroy_process idx k ≡ returns tt k')
      × (get_elem? k'.family.scheduler.process_list idx ≡ some (buried p))
      × (k'.family.scheduler.dim + 1 ≡ k.family.scheduler.dim)
      × (k'.family.scheduler.current_process_idx ≡ k.family.scheduler.current_process_idx)
      × IsCounted k'.family.scheduler
unfolding destroy_process
destroy_process-buried idx n k p c e ne params lives =
    let s = k.family.scheduler in
    let k₁ : Kernel = record k { family = record (k.family) { scheduler = marked idx p s } } in
    let (f, died, kept) = set_dead_process-Undisturbed p.pid k₁.family lives in
    let k₂ : Kernel = record k₁ { family = f } in
    let here = get_elem?-set_self s.process_list idx (buried p) (in_range s.process_list idx p e) in
    let in_slot = kept.same_dead idx (buried p) here refl in
    let (m, freed) = free_params-returns p.params n k₂ params in
    let k₃ : Kernel = record k₂ { memory = memory_free p.stack_end m } in
    let one_less = marked-live idx p s e ne in
    let below = live_slots-le s.process_list in
    let s' = record (f.scheduler) { dim = (f.scheduler.dim + 2 ^ 8 - 1) % 2 ^ 8 } in
    (
      record k₃ { family = record f { scheduler = s' } },
      next-step _
          (on_table-returns (change_process idx buried) k tt (marked idx p s)
            (change_process-at idx buried s p e))
          (next-step _ (slot_of-returns idx k₁ (buried p) here) (
            next-step _ (on_family-returns (set_dead_process p.pid) k₁ tt f died) (
              next-step _ (slot_of-returns idx k₂ (buried p) in_slot) (
                next-step _ freed (
                  next-step _ (slot_of-returns idx (record k₂ { memory = m }) (buried p) in_slot)
                    refl))))),
      in_slot,
      omega (arith, kept.same_dim, one_less, below, c.counts, c.slots),
      kept.same_turn,
      record {
        slots = kept.same_slots ∙ length-set s.process_list idx (buried p) ∙ c.slots;
        counts = omega (arith, kept.same_dim, kept.same_live, one_less, below, c.counts, c.slots);
      },
    )
