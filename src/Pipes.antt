-- ===== src/Pipes.antt =====
-- Kernel/utils/pipes.c: the table of pipes, on the semaphores and the heap.
pub mod Transfer
pub mod Counts
pub mod Refine
pub mod Take
pub mod RoundTrip
pub mod Available
pub mod Open
pub mod Samples
mod Tests
use macac_os.Base.{
  ℕ, zero, suc, ◌+◌, ◌*◌, ◌/◌, ◌%◌, ◌^◌, Bool, true, false, ◌||◌, Option, none, some, List, [], ◌∷◌,
  Outcome, returns, fault, hang, Cmd, pure, fetch, get_state, modify, zoom, ◌>>=◌, ◌>>◌, leb, ◌==◌,
  if◌then◌else◌, get_elem?, set,
}
use macac_os.Memory.{memory_alloc, u64}
use macac_os.Scheduler.{is_no_process}
use macac_os.Kernel.{Kernel, free}
use macac_os.Semaphore.{Sync, create_sem, on_kernel}
use macac_os.Semaphore.Calls.{close_sem}

abbrev pub max_pipes : ℕ
max_pipes = 20

abbrev pub pipe_size : ℕ
pipe_size = 1024

-- `pipe_buffer` is the block that the pointer `buffer_at` points to, `[]` for NULL.
pub record Pipe : Type 0 where
  pub pipe_id : ℕ
  pub read_sem_id : ℕ
  pub write_sem_id : ℕ
  pub pipe_read_id : ℕ
  pub pipe_write_id : ℕ
  pub buffer_at : ℕ
  pub pipe_buffer : List ℕ
  pub current_pipe_size : ℕ
  pub eof : ℕ

-- The static variables, and the rest of the kernel.
pub record Pipes : Type 0 where
  pub pipes : List Pipe
  pub pipes_count : ℕ
  pub sync : Sync

abbrev pub on_sync : {A : Type 0} → Cmd Sync A → Cmd Pipes A
on_sync = zoom (λ s. s.sync) (λ t s. record s { sync = t })

-- The codes of the calls.
pub data PipeCode : Type 0 where
  success : PipeCode
  invalid_pipe_id : PipeCode
  max_pipes_reached : PipeCode
  no_space_for_pipe : PipeCode

-- `pipes[slot]`, and a change of it.
unfoldable pub pipe_at : ℕ → Cmd Pipes Pipe
pipe_at slot s = fetch (get_elem? s.pipes slot) s

unfoldable pub change_pipe : ℕ → (Pipe → Pipe) → Cmd Pipes (Unit {0})
change_pipe slot f s = elim (get_elem? s.pipes slot) [
  | none ↦ fault
  | some p ↦ returns tt (record s { pipes = set s.pipes slot (f p) })
]

-- Some pipe has the id.
unfoldable pub has_pipe_id : ℕ → List Pipe → Bool
has_pipe_id id [] = false
has_pipe_id id (p ∷ ps) = if p.pipe_id == id then true else has_pipe_id id ps

-- The loop stops at a pipe with the id 10, and does not go through the table again for 11. `none` is
-- `MAX_PIPES_REACHED`.
unfoldable pub find_pipe_avaiable : Pipes → Option ℕ
find_pipe_avaiable s =
    if leb max_pipes s.pipes_count then none else some (if has_pipe_id 10 s.pipes then 11 else 10)

-- How the search of `create_pipe` ends. An empty slot ends it behind the comparison of ids, which
-- the slot itself does not pass, as the id is not 0.
pub data Place : Type 0 where
  taken : Place
  free_pos : ℕ → Place
  no_place : Place

unfoldable pub find_place : ℕ → ℕ → List Pipe → Place
find_place id i [] = no_place
find_place id i (p ∷ ps) =
    if p.pipe_id == id
    then taken
    else if p.pipe_id == 0
    then free_pos i
    else find_place id (i + 1) ps

-- The bytes of a block whose words the memory holds.
unfoldable pub bytes_at : ℕ → ℕ → ℕ → (ℕ → ℕ) → List ℕ
bytes_at zero i p w = []
bytes_at (suc n) i p w = w (u64 (p + 8 * (i / 8))) / 256 ^ (i % 8) % 256 ∷ bytes_at n (i + 1) p w

-- `pipes[free_pos].pipe_buffer = memory_alloc(PIPE_SIZE)`; the result says whether it is not NULL.
unfoldable pub alloc_buffer : ℕ → Cmd Pipes Bool
unfolding bytes_at change_pipe
alloc_buffer slot = do
  block ←
      on_sync
        (on_kernel (zoom (λ k. k.memory) (λ m k. record k { memory = m }) (memory_alloc pipe_size)))
  elim block [
    | none ↦ (do change_pipe slot (λ p. record p { buffer_at = 0; pipe_buffer = [] }); pure false)
    | some a ↦ (do
      s ← get_state
      change_pipe slot
          (λ p. record p { buffer_at = a; pipe_buffer = bytes_at pipe_size 0 a s.sync.kernel.word })
      pure true)
  ]

-- The part of `create_pipe` behind the search: the tests of the ids of the semaphores for -1 are
-- those of an `int` that holds a `uint8_t`.
unfoldable pub fill_pipe : ℕ → ℕ → Cmd Pipes PipeCode
unfolding alloc_buffer change_pipe
fill_pipe slot id = do
  reading_sem_id ← on_sync (create_sem 0)
  writing_sem_id ← on_sync (create_sem pipe_size)
  if is_no_process reading_sem_id || is_no_process writing_sem_id
      then (do
        on_sync (close_sem reading_sem_id)
        on_sync (close_sem writing_sem_id)
        pure no_space_for_pipe)
      else (do
        allocated ← alloc_buffer slot
        if allocated
            then (do
              change_pipe slot (λ p. record p {
                pipe_id = id;
                pipe_read_id = 0;
                pipe_write_id = 0;
                current_pipe_size = 0;
                eof = 0;
                read_sem_id = reading_sem_id;
                write_sem_id = writing_sem_id;
              })
              modify (λ s. record s { pipes_count = (s.pipes_count + 1) % 2 ^ 32 })
              pure success)
            else pure no_space_for_pipe)

-- Without an empty slot, the index is -1.
unfoldable pub create_pipe : ℕ → Cmd Pipes PipeCode
unfolding find_place fill_pipe
create_pipe id s =
    if id == 0
    then returns invalid_pipe_id s
    else if leb max_pipes s.pipes_count
    then returns max_pipes_reached s
    else elim (find_place id 0 s.pipes) [
      | taken ↦ returns invalid_pipe_id s
      | free_pos slot ↦ fill_pipe slot id s
      | no_place ↦ (do on_sync (create_sem 0); on_sync (create_sem pipe_size); λ s. fault) s
    ]

-- The id of the pipe, or one of the two codes that `create_pipe_available` passes on.
pub data NewPipe : Type 0 where
  id_of : ℕ → NewPipe
  refused : PipeCode → NewPipe

unfoldable pub create_pipe_available : Cmd Pipes NewPipe
unfolding find_pipe_avaiable create_pipe
create_pipe_available s = elim (find_pipe_avaiable s) [
  | none ↦ returns (refused max_pipes_reached) s
  | some id ↦
      (do
        r ← create_pipe id
        elim r [
          | success ↦ pure (id_of id)
          | invalid_pipe_id ↦ pure (id_of id)
          | max_pipes_reached ↦ pure (id_of id)
          | no_space_for_pipe ↦ pure (refused no_space_for_pipe)
        ])
        s
]

-- `none` is `INVALID_PIPE_ID`.
unfoldable pub find_pipe_from : ℕ → ℕ → List Pipe → Option ℕ
find_pipe_from id i [] = none
find_pipe_from id i (p ∷ ps) = if p.pipe_id == id then some i else find_pipe_from id (i + 1) ps

unfoldable pub find_pipe : ℕ → Pipes → Option ℕ
find_pipe id s = find_pipe_from id 0 s.pipes

-- The part of `delete_pipe` behind the search.
unfoldable pub clear_pipe : ℕ → Cmd Pipes PipeCode
unfolding pipe_at change_pipe
clear_pipe slot = do
  p ← pipe_at slot
  on_sync (close_sem p.read_sem_id)
  on_sync (close_sem p.write_sem_id)
  on_sync (on_kernel (modify (free p.buffer_at)))
  change_pipe slot (λ p. record p {
    pipe_id = 0;
    pipe_read_id = 0;
    pipe_write_id = 0;
    current_pipe_size = 0;
    eof = 0;
    read_sem_id = 0;
    write_sem_id = 0;
  })
  pure invalid_pipe_id

unfoldable pub delete_pipe : ℕ → Cmd Pipes PipeCode
unfolding find_pipe clear_pipe
delete_pipe id s =
    if id == 0
    then returns invalid_pipe_id s
    else elim (find_pipe id s) [ none ↦ returns invalid_pipe_id s | some slot ↦ clear_pipe slot s ]

unfoldable pub set_eof : ℕ → Cmd Pipes (Unit {0})
unfolding find_pipe change_pipe
set_eof id s = elim (find_pipe id s) [
  | none ↦ returns tt s
  | some slot ↦ change_pipe slot (λ p. record p { eof = 1 }) s
]
