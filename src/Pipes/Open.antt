-- ===== src/Pipes/Open.antt =====
-- How a pipe comes into being: the first one, before there are other pipes or semaphores.
use macac_os.Base.{
  ℕ, zero, suc, ◌+◌, ◌*◌, ◌≡◌, refl, ap, ◌∙◌, some, List, [], length, replicate, returns, zoom,
  arith,
}
use macac_os.Memory.{Memory, memory_alloc}
use macac_os.Memory.Chain.{Block, IsHeap}
use macac_os.Memory.Alloc.{alloc_blocks, memory_alloc-blocks}
use macac_os.Queue.{Queue}
use macac_os.Kernel.{Kernel}
use macac_os.Kernel.Lift.{next-step}
use macac_os.Semaphore.{
  Semaphore, Sync, max_sem, max_process_waiting, on_kernel, create_sem, free_id_from, has_id,
  find_sem, find_sem_from,
}
use macac_os.Pipes.{
  Pipe, Pipes, pipe_size, on_sync, bytes_at, alloc_buffer, fill_pipe, create_pipe,
  create_pipe_available, find_pipe_avaiable, has_pipe_id, find_place, find_pipe, find_pipe_from,
  id_of,
}
use macac_os.Pipes.Refine.{IsPipe, on_sync-returns}
use macac_os.Semaphore.Made.{on_kernel-alloc, made, create_sem-made}

-- The tables before the first pipe, with the rest of the kernel as it is.
abbrev pub no_sem : Semaphore
no_sem = record { sem_id = 0; sem_val = 0; is_locked = 0 }

abbrev pub no_pipe : Pipe
no_pipe = record {
  pipe_id = 0;
  read_sem_id = 0;
  write_sem_id = 0;
  pipe_read_id = 0;
  pipe_write_id = 0;
  buffer_at = 0;
  pipe_buffer = [];
  current_pipe_size = 0;
  eof = 0;
}

abbrev pub no_pipes : Queue → ℕ → Kernel → Pipes
no_pipes q e k = record {
  pipes = replicate 20 no_pipe;
  pipes_count = 0;
  sync = record {
    semaphores = replicate max_sem no_sem;
    current_sem_amount = 0;
    waiters = q;
    elements_at = e;
    kernel = k;
  };
}

length-bytes_at : (n i p : ℕ) (w : ℕ → ℕ) → length (bytes_at n i p w) ≡ n
unfolding bytes_at
length-bytes_at zero i p w = refl
length-bytes_at (suc n) i p w = ap suc (length-bytes_at n (i + 1) p w)

-- Before there are other pipes and semaphores, and on a well-formed heap that serves the two queues
-- of waiters and the buffer, create_pipe_available returns the id 10; the pipe is open and empty,
-- its two semaphores count its places and its bytes, and no process waits.
pub create_pipe_available-IsPipe :
    (q : Queue) (e a₁ a₂ a₃ : ℕ) (k : Kernel) {bs : List Block}
    → IsHeap k.memory bs
    → (alloc_blocks (max_process_waiting * 8) bs).0 ≡ some a₁
    → (alloc_blocks (max_process_waiting * 8) (alloc_blocks (max_process_waiting * 8) bs).1).0
      ≡ some a₂
    → (alloc_blocks pipe_size
        (alloc_blocks (max_process_waiting * 8) (alloc_blocks (max_process_waiting * 8) bs).1).1).0
      ≡ some a₃
    → (s' : Pipes) × (p : Pipe) × (create_pipe_available (no_pipes q e k) ≡ returns (id_of 10) s')
      × IsPipe 10 0 p s'
      × (p.current_pipe_size ≡ 0)
unfolding create_pipe_available find_pipe_avaiable has_pipe_id create_pipe find_place fill_pipe
    alloc_buffer free_id_from has_id find_pipe find_pipe_from find_sem find_sem_from
create_pipe_available-IsPipe q e a₁ a₂ a₃ k {bs} v h₁ h₂ h₃ =
    let (m₁, done₁, v₁) = memory_alloc-blocks (max_process_waiting * 8) v in
    let (m₂, done₂, v₂) = memory_alloc-blocks (max_process_waiting * 8) v₁ in
    let (m₃, done₃, v₃) = memory_alloc-blocks pipe_size v₂ in
    let s₀ : Pipes = no_pipes q e k in
    let t₁ : Sync = made 10 s₀.sync no_sem refl a₁ m₁ (done₁ ∙ ap (λ r. returns r m₁) h₁) 10 0 in
    let t₂ : Sync = made 11 t₁ no_sem refl a₂ m₂ (done₂ ∙ ap (λ r. returns r m₂) h₂) 11 pipe_size in
    let one : on_sync (create_sem 0) s₀ ≡ returns 10 (record s₀ { sync = t₁ }) =
      on_sync-returns (create_sem 0) s₀ (
        create_sem-made 10 s₀.sync no_sem refl a₁ m₁ (done₁ ∙ ap (λ r. returns r m₁) h₁) 0
          (omega arith) refl (omega arith)) in
    let two : on_sync (create_sem pipe_size) (record s₀ { sync = t₁ })
        ≡ returns 11 (record s₀ { sync = t₂ }) =
      on_sync-returns (create_sem pipe_size) (record s₀ { sync = t₁ })
        (create_sem-made 11 t₁ no_sem refl a₂ m₂ (done₂ ∙ ap (λ r. returns r m₂) h₂) pipe_size
          (omega arith) refl (omega arith)) in
    let block =
      on_sync-returns
        (on_kernel (
          zoom (λ (k : Kernel). k.memory) (λ (m : Memory) k. record k { memory = m })
            (memory_alloc pipe_size)))
        (record s₀ { sync = t₂ })
        (on_kernel-alloc pipe_size t₂ (done₃ ∙ ap (λ r. returns r m₃) h₃)) in
    (
      _,
      _,
      next-step _ (next-step _ one (next-step _ two (next-step _ (next-step _ block refl) refl)))
          refl,
      record {
        found = refl;
        in_slot = refl;
        storage = length-bytes_at pipe_size 0 a₃ k.word;
        read_in = omega arith;
        held = omega arith;
        write_behind = refl;
        counted = record {
          slot = 11;
          slot' = 10;
          sem = _;
          sem' = _;
          opened = record {
            nonempty = omega arith;
            found = refl;
            in_slot = refl;
            in_table = omega arith;
            unlocked = refl;
          };
          opened' = record {
            nonempty = omega arith;
            found = refl;
            in_slot = refl;
            in_table = omega arith;
            unlocked = refl;
          };
          counts = refl;
          counts' = refl;
          apart = omega arith;
          nobody = refl;
        };
      },
      refl,
    )
