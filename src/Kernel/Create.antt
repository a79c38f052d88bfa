-- ===== src/Kernel/Create.antt =====
-- `create_process`: each of its outcomes, and the count of the slots in use.
use macac_os.Base.{
  ℕ, ◌+◌, ◌<◌, ◌≡◌, ◌≢◌, refl, sym, ap, ◌∙◌, Bool, false, Option, none, some, List, ◌==◌, get_elem?,
  get_elem?-set_self, get_elem?-set_ne, set, length, length-set, arith, inl, inr, Bool-cases,
  Option-cases, eq_of_==, ne_of_==, returns, modify, ◌>>◌, and_then, pure, Cmd, ◌%◌, ◌^◌,
}
use macac_os.Memory.{Memory, memory_alloc}
use macac_os.Memory.Chain.{Block, IsHeap}
use macac_os.Memory.Alloc.{alloc_blocks, memory_alloc-blocks}
use macac_os.Scheduler.{Process, Scheduler, dead, ready, max_processes, change_process}
use macac_os.Scheduler.Choose.{change_process-at}
use macac_os.Kernel.{
  Kernel, Created, created, no_space_for_process, processes_limit_reached, stack_size, first_free,
  fill_slot, create_process, build_stack, new_process, on_table,
}
use macac_os.Kernel.Lift.{on_table-returns}
use macac_os.Kernel.Count.{IsCounted, live_slots-set, live_slots-le, first_free-dead}

-- A process that was put into a slot which was dead.
pub record Started (slot stack_end : ℕ) (k k' : Kernel) : Type 0 where
  pub was_dead :
      (p : Process) × (get_elem? k.family.scheduler.process_list slot ≡ some p) × (p.state ≡ dead)
  pub process : Process
  pub in_slot : get_elem? k'.family.scheduler.process_list slot ≡ some process
  pub has_pid : process.pid ≡ k.family.scheduler.pid_value
  pub is_ready : process.state ≡ ready
  pub has_stack : process.stack_end ≡ stack_end
  pub has_ticks : process.remaining_ticks ≡ process.assigned_ticks
  pub others :
      (i : ℕ)
      → i ≢ slot
      → get_elem? k'.family.scheduler.process_list i ≡ get_elem? k.family.scheduler.process_list i
  pub next_pid : k'.family.scheduler.pid_value ≡ (k.family.scheduler.pid_value + 1) % 2 ^ 32
  pub same_children : k'.family.children ≡ k.family.children

-- The outcomes of `create_process` on a heap of the given blocks.
pub data Outcomes (bs : List Block) (k k' : Kernel) (r : Created) : Type 0 where
  limit :
      k.family.scheduler.dim ≡ max_processes
      → r ≡ processes_limit_reached
      → k' ≡ k
      → Outcomes bs k k' r
  no_space :
      (alloc_blocks stack_size bs).0 ≡ none
      → r ≡ no_space_for_process
      → k'.family ≡ k.family
      → Outcomes bs k k' r
  started :
      (slot stack_end : ℕ)
      → (alloc_blocks stack_size bs).0 ≡ some stack_end
      → r ≡ created k.family.scheduler.pid_value
      → Started slot stack_end k k'
      → Outcomes bs k k' r

module _ (end_process params priority input output : ℕ) (immortal : Bool) (entry_point : ℕ) where
  abbrev pub filled_table : ℕ → ℕ → Kernel → Scheduler
  filled_table slot stack_end k =
      let s = k.family.scheduler in
      let start = (build_stack end_process entry_point stack_end params k.word).0 in
      record s {
        process_list =
            set s.process_list slot
              (new_process s.pid_value params priority input output immortal start stack_end);
        pid_value = (s.pid_value + 1) % 2 ^ 32;
        dim = (s.dim + 1) % 2 ^ 8;
      }

  -- What `fill_slot` leaves behind.
  abbrev pub filled : ℕ → ℕ → Kernel → Kernel
  filled slot stack_end k = record k {
    family = record (k.family) { scheduler = filled_table slot stack_end k };
    word = (build_stack end_process entry_point stack_end params k.word).1;
  }

  fill_slot-filled :
      (slot stack_end : ℕ) (k : Kernel) (p : Process)
      → get_elem? k.family.scheduler.process_list slot ≡ some p
      → fill_slot end_process slot params priority input output immortal entry_point stack_end k
        ≡ returns (created k.family.scheduler.pid_value) (filled slot stack_end k)
  unfolding fill_slot
  fill_slot-filled slot stack_end k p e =
      let s = record (k.family.scheduler) {
        pid_value = (k.family.scheduler.pid_value + 1) % 2 ^ 32;
      } in
      let start = (build_stack end_process entry_point stack_end params k.word).0 in
      let new =
        new_process k.family.scheduler.pid_value params priority input output immortal start
          stack_end in
      ap
        (λ o. and_then o (λ _.
          on_table (modify (λ s'. record s' { dim = (s'.dim + 1) % 2 ^ 8 }))
          >> pure (created k.family.scheduler.pid_value)))
        (on_table-returns (change_process slot (λ p. new))
          (record k {
            family = record (k.family) { scheduler = s };
            word = (build_stack end_process entry_point stack_end params k.word).1;
          })
          tt _ (change_process-at slot (λ p. new) s p e))

  -- The part of `create_process` behind the checks.
  abbrev placed_in : ℕ → Option ℕ → Cmd Kernel Created
  placed_in slot none k = returns no_space_for_process k
  placed_in slot (some stack_end) k =
      fill_slot end_process slot params priority input output immortal entry_point stack_end k

  create_process-placed_in :
      (slot : ℕ) (k : Kernel) (r : Option ℕ) (m : Memory)
      → (k.family.scheduler.dim == max_processes) ≡ false
      → first_free k.family.scheduler.process_list ≡ some slot
      → memory_alloc stack_size k.memory ≡ returns r m
      → create_process end_process params priority input output immortal entry_point k
        ≡ placed_in slot r (record k { memory = m })
  unfolding create_process
  create_process-placed_in slot k none m room e done =
      rw room (rw (e, create_process) (rw (done, create_process) refl))
  create_process-placed_in slot k (some stack_end) m room e done =
      rw room (rw (e, create_process) (rw (done, create_process) refl))

  -- `create_process` where there is room.
  pub create_process-filled :
      (slot stack_end : ℕ) (k : Kernel) (m : Memory) (p : Process)
      → (k.family.scheduler.dim == max_processes) ≡ false
      → first_free k.family.scheduler.process_list ≡ some slot
      → get_elem? k.family.scheduler.process_list slot ≡ some p
      → memory_alloc stack_size k.memory ≡ returns (some stack_end) m
      → create_process end_process params priority input output immortal entry_point k
        ≡ returns
            (created k.family.scheduler.pid_value)
            (filled slot stack_end (record k { memory = m }))
  create_process-filled slot stack_end k m p room e here done =
      create_process-placed_in slot k (some stack_end) m room e done
      ∙ fill_slot-filled slot stack_end (record k { memory = m }) p here

  filled-Started :
      (slot stack_end : ℕ) (k : Kernel) (m : Memory) (p : Process)
      → get_elem? k.family.scheduler.process_list slot ≡ some p
      → p.state ≡ dead
      → slot < length k.family.scheduler.process_list
      → Started slot stack_end k (filled slot stack_end (record k { memory = m }))
  filled-Started slot stack_end k m p e is lt = record {
    was_dead = (p, e, is);
    process = _;
    in_slot = get_elem?-set_self k.family.scheduler.process_list slot _ lt;
    has_pid = refl;
    is_ready = refl;
    has_stack = refl;
    has_ticks = refl;
    others = λ i ne. get_elem?-set_ne k.family.scheduler.process_list slot i _ (λ eq. ne (sym eq));
    next_pid = refl;
    same_children = refl;
  }

  pub filled-IsCounted :
      (slot stack_end : ℕ) (k : Kernel) (p : Process)
      → IsCounted k.family.scheduler
      → get_elem? k.family.scheduler.process_list slot ≡ some p
      → p.state ≡ dead
      → (k.family.scheduler.dim == max_processes) ≡ false
      → IsCounted (filled_table slot stack_end k)
  filled-IsCounted slot stack_end k p c e is room =
      let ps = k.family.scheduler.process_list in
      let start = (build_stack end_process entry_point stack_end params k.word).0 in
      let new =
        new_process k.family.scheduler.pid_value params priority input output immortal start
          stack_end in
      let one = live_slots-set ps slot p new e in
      let below = live_slots-le ps in
      let full = ne_of_== k.family.scheduler.dim max_processes room in
      record {
        slots = length-set ps slot new ∙ c.slots;
        counts = ground (arith, c.counts, c.slots, one, below, full);
      }

  -- On a table that dim counts and a well-formed heap create_process always returns; its search
  -- stays inside the table. It reports a full table or a full heap, or puts a ready process with
  -- the next pid and a stack from the heap into a slot that was dead. The other slots stay as they
  -- are, dim still counts the slots in use, and the heap stays well formed.
  pub create_process-Outcomes :
      (k : Kernel) {bs : List Block}
      → IsCounted k.family.scheduler
      → IsHeap k.memory bs
      → (r : Created) × (k' : Kernel) × (create_process end_process params priority input output
            immortal entry_point k
          ≡ returns r k')
        × Outcomes bs k k' r
        × IsCounted k'.family.scheduler
        × ((new : List Block) × IsHeap k'.memory new)
  unfolding create_process
  create_process-Outcomes k {bs} c v = elim (Bool-cases (k.family.scheduler.dim == max_processes)) [
    | inl full ↦ (
      processes_limit_reached,
      k,
      rw full refl,
      limit (eq_of_== k.family.scheduler.dim max_processes full) refl refl,
      c,
      (bs, v),
    )
    | inr room ↦
        let ps = k.family.scheduler.process_list in
        let full = ne_of_== k.family.scheduler.dim max_processes room in
        let (slot, e, lt, p, here, is) =
          first_free-dead ps (omega (arith, c.counts, c.slots, live_slots-le ps, full)) in
        let (m, done, v') = memory_alloc-blocks stack_size v in
        let k₁ = record k { memory = m } in
        elim (Option-cases (alloc_blocks stack_size bs).0) [
          | inl gone ↦ (
            no_space_for_process,
            k₁,
            create_process-placed_in slot k none m room e (done ∙ ap (λ r. returns r m) gone),
            no_space gone refl refl,
            c,
            (_, v'),
          )
          | inr (stack_end, got) ↦ (
            created k.family.scheduler.pid_value,
            filled slot stack_end k₁,
            create_process-placed_in slot k (some stack_end) m room e
                  (done ∙ ap (λ r. returns r m) got)
                ∙ fill_slot-filled slot stack_end k₁ p here,
            started slot stack_end got refl (filled-Started slot stack_end k m p here is lt),
            filled-IsCounted slot stack_end k₁ p c here is room,
            (_, v'),
          )
        ]
  ]
