-- ===== src/Pipes/Tests.antt =====
-- Runs of pipes.c at a pipe with two bytes in it that goes round the end of its buffer.
use macac_os.Base.{◌≡◌, refl, some, [], ◌∷◌, arith, returns, replicate}
use macac_os.Memory.{memory_init}
use macac_os.Memory.Alloc.{memory_init-IsHeap}
use macac_os.Kernel.{Kernel}
use macac_os.Pipes.{Pipe, Pipes, create_pipe_available, id_of}
use macac_os.Pipes.Open.{no_pipes, create_pipe_available-IsPipe}
use macac_os.Pipes.Transfer.{finished, write_pipe, read_pipe}
use macac_os.Pipes.Refine.{content, IsPipe, write_pipe-append}
use macac_os.Pipes.Take.{read_pipe-take}
use macac_os.Pipes.Samples.{pipe, pipes, unused, pipe-IsPipe}

held : content pipe ≡ 7 ∷ 8 ∷ []
held = refl

write_pipe-append_example :
    (s' : Pipes) × (p' : Pipe) × (write_pipe 64 8 10 (5 ∷ 6 ∷ []) pipes
      ≡ returns (some (finished 2)) s')
    × IsPipe 10 0 p' s'
    × (content p' ≡ 7 ∷ 8 ∷ 5 ∷ 6 ∷ [])
write_pipe-append_example =
    write_pipe-append 64 8 10 0 (5 ∷ 6 ∷ []) pipe pipes pipe-IsPipe (omega arith)

read_pipe-take_example :
    (s' : Pipes) × (p' : Pipe) × (read_pipe 64 8 10 5 pipes
      ≡ returns (some (7 ∷ 8 ∷ [], finished 2)) s')
    × IsPipe 10 0 p' s'
    × (content p' ≡ [])
read_pipe-take_example = read_pipe-take 64 8 10 0 5 pipe pipes pipe-IsPipe

abbrev two_pipes : Pipes
two_pipes = record pipes {
  pipes = pipe ∷ record pipe { pipe_id = 11 } ∷ replicate 18 unused;
  pipes_count = 2;
}

abbrev fresh : Kernel
fresh = record (pipes.sync.kernel) { memory = memory_init pipes.sync.kernel.memory }

create_pipe_available-IsPipe_example :
    (s' : Pipes) × (p : Pipe) × (create_pipe_available (no_pipes pipes.sync.waiters 0 fresh)
      ≡ returns (id_of 10) s')
    × IsPipe 10 0 p s'
    × (p.current_pipe_size ≡ 0)
create_pipe_available-IsPipe_example =
    create_pipe_available-IsPipe pipes.sync.waiters 0 0xA00010 0xA00070 0xA000D0 fresh
      (memory_init-IsHeap pipes.sync.kernel.memory refl refl) refl refl refl
