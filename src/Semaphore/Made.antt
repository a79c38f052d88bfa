-- ===== src/Semaphore/Made.antt =====
-- How create_sem makes a semaphore, where the heap serves the block of the queue of waiters.
use macac_os.Base.{
  ℕ, ◌+◌, ◌*◌, ◌%◌, ◌^◌, ◌<◌, ◌≡◌, ◌≢◌, refl, ap, ◌∙◌, ◌==◌, if-false, ==_of_ne, Option, none, some,
  set, get_elem?, returns, hang, zoom, arith,
}
use macac_os.Memory.{Memory, memory_alloc}
use macac_os.Queue.{create_queue}
use macac_os.Kernel.{Kernel}
use macac_os.Kernel.Lift.{next-step, zoom-returns}
use macac_os.Semaphore.{
  Semaphore, Sync, max_sem, max_process_waiting, on_kernel, words_at, create_waiters, fill_sem,
  create_sem, free_id_from, find_free_sem,
}
use macac_os.Semaphore.Table.{
  put_sem, sem_at-returns, change_sem-put, put_sem-put_sem, put_sem-slot,
}

abbrev pub with_memory : Memory → Sync → Sync
with_memory m s = record s { kernel = record (s.kernel) { memory = m } }

-- `memory_alloc`, called for a semaphore.
pub on_kernel-alloc :
    (size : ℕ) (s : Sync) {r : Option ℕ} {m : Memory}
    → memory_alloc size s.kernel.memory ≡ returns r m
    → on_kernel (zoom (λ k. k.memory) (λ m k. record k { memory = m }) (memory_alloc size)) s
      ≡ returns r (with_memory m s)
on_kernel-alloc size s e =
    zoom-returns (λ (s : Sync). s.kernel) (λ (k : Kernel) s. record s { kernel = k })
      (zoom (λ (k : Kernel). k.memory) (λ (m : Memory) k. record k { memory = m })
        (memory_alloc size))
      s
      (zoom-returns (λ (k : Kernel). k.memory) (λ (m : Memory) k. record k { memory = m })
        (memory_alloc size) s.kernel e)

-- The state with the new queue of waiters.
abbrev with_waiters : ℕ → Memory → Sync → Sync
with_waiters a m s = record s {
  kernel = record (s.kernel) { memory = m };
  elements_at = a;
  waiters = record {
    elements = words_at max_process_waiting a s.kernel.word;
    read_pos = 0;
    write_pos = 0;
    length = 0;
    size = max_process_waiting;
  };
}

module _ (pos : ℕ) (s : Sync) (sem : Semaphore) (here : get_elem? s.semaphores pos ≡ some sem)
    (a : ℕ) (m : Memory)
    (served : memory_alloc (max_process_waiting * 8) s.kernel.memory ≡ returns (some a) m) where
  create_waiters-made : create_waiters pos s ≡ returns tt (with_waiters a m s)
  unfolding create_waiters create_queue
  create_waiters-made =
      next-step _ (sem_at-returns pos s sem here)
        (next-step _ (on_kernel-alloc (max_process_waiting * 8) s served) refl)

  -- A slot with the id and the value, and one semaphore more.
  abbrev pub made : ℕ → ℕ → Sync
  made sem_id init_val = record (with_waiters a m s) {
    semaphores = set s.semaphores pos (record sem { sem_id = sem_id; sem_val = init_val });
    current_sem_amount = (s.current_sem_amount + 1) % 2 ^ 8;
  }

  fill_sem-made :
      (sem_id init_val : ℕ) → fill_sem pos sem_id init_val s ≡ returns tt (made sem_id init_val)
  unfolding fill_sem
  fill_sem-made sem_id init_val =
      let w = with_waiters a m s in
      let named : Semaphore = record sem { sem_id = sem_id } in
      next-step _ create_waiters-made (
        next-step _ (change_sem-put pos w sem here (λ s. record s { sem_id = sem_id })) (
          next-step _
            (change_sem-put pos (put_sem pos named w) named (put_sem-slot pos w sem here named)
              (λ s. record s { sem_val = init_val }))
            (ap
              (λ (t : Sync).
                returns tt (record t { current_sem_amount = (t.current_sem_amount + 1) % 2 ^ 8 }))
              (put_sem-put_sem pos named (record named { sem_val = init_val }) w))))

  find_free_sem-found :
      s.current_sem_amount ≢ max_sem
      → free_id_from 31 10 s.semaphores ≡ some pos
      → pos < 255
      → find_free_sem s ≡ returns pos s
  unfolding find_free_sem
  find_free_sem-found room free small =
      if-false (s.current_sem_amount == max_sem) _ _ (==_of_ne s.current_sem_amount max_sem room)
      ∙ ap (λ (o : Option ℕ). elim o [ none ↦ hang | some sem_id ↦ returns (sem_id % 2 ^ 8) s ])
          free
      ∙ ap (λ n. returns n s) (omega arith)

  pub create_sem-made :
      (init_val : ℕ)
      → s.current_sem_amount ≢ max_sem
      → free_id_from 31 10 s.semaphores ≡ some pos
      → pos < 255
      → create_sem init_val s ≡ returns pos (made pos init_val)
  unfolding create_sem
  create_sem-made init_val room free small =
      next-step _ (find_free_sem-found room free small)
        (next-step _ (fill_sem-made pos init_val) refl)
