-- ===== src/Pipes/Samples.antt =====
-- A pipe with two bytes in it that goes round the end of its buffer, and the same pipe when they are
-- read.
use macac_os.Base.{ℕ, refl, true, [], ◌∷◌, arith, replicate, set}
use macac_os.Semaphore.{Semaphore, Sync, find_sem, find_sem_from}
use macac_os.Pipes.{Pipe, Pipes, find_pipe, find_pipe_from}
use macac_os.Pipes.Counts.{Counts}
use macac_os.Pipes.Refine.{IsPipe}

abbrev pub sem : ℕ → ℕ → Semaphore
sem id value = record { sem_id = id; sem_val = value; is_locked = 0 }

abbrev pub sync : Sync
sync = record {
  semaphores = sem 10 2 ∷ sem 11 1022 ∷ replicate 28 (sem 0 0);
  current_sem_amount = 2;
  waiters = record {
    elements = replicate 10 0;
    read_pos = 0;
    write_pos = 0;
    length = 0;
    size = 10;
  };
  elements_at = 0xA00010;
  kernel = record {
    family = record {
      children = [];
      scheduler = record {
        process_list = [];
        pid_value = 0;
        dim = 0;
        current_process_idx = 0;
        idle_pid = 0;
      };
    };
    memory = record {
      header = λ a. record { size = 0; allocated = true };
      mem_info = record { allocated_bytes = 0; free_bytes = 0; allocated_blocks = 0 };
    };
    word = λ a. 0;
  };
}

abbrev pub pipe : Pipe
pipe = record {
  pipe_id = 10;
  read_sem_id = 10;
  write_sem_id = 11;
  pipe_read_id = 1023;
  pipe_write_id = 1;
  buffer_at = 0xA01010;
  pipe_buffer = set (replicate 1024 7) 0 8;
  current_pipe_size = 2;
  eof = 0;
}

abbrev pub unused : Pipe
unused = record pipe { pipe_id = 0; buffer_at = 0; pipe_buffer = []; current_pipe_size = 0 }

abbrev pub pipes : Pipes
pipes = record { pipes = pipe ∷ replicate 19 unused; pipes_count = 1; sync = sync }

counts : Counts 11 10 1022 2 sync
unfolding find_sem find_sem_from
counts = record {
  slot = 1;
  slot' = 0;
  sem = sem 11 1022;
  sem' = sem 10 2;
  opened = record {
    nonempty = omega arith;
    found = refl;
    in_slot = refl;
    in_table = omega arith;
    unlocked = refl;
  };
  opened' = record {
    nonempty = omega arith;
    found = refl;
    in_slot = refl;
    in_table = omega arith;
    unlocked = refl;
  };
  counts = refl;
  counts' = refl;
  apart = omega arith;
  nobody = refl;
}

pub pipe-IsPipe : IsPipe 10 0 pipe pipes
unfolding find_pipe find_pipe_from
pipe-IsPipe = record {
  found = refl;
  in_slot = refl;
  storage = refl;
  read_in = omega arith;
  held = omega arith;
  write_behind = refl;
  counted = counts;
}

-- The pipe behind the two bytes that were in it.
abbrev pub drained : Pipe
drained = record pipe { pipe_read_id = 1; current_pipe_size = 0 }

abbrev pub drained_pipes : Pipes
drained_pipes = record pipes {
  pipes = drained ∷ replicate 19 unused;
  sync = record sync { semaphores = sem 10 0 ∷ sem 11 1024 ∷ replicate 28 (sem 0 0) };
}

pub drained-IsPipe : IsPipe 10 0 drained drained_pipes
unfolding find_pipe find_pipe_from find_sem find_sem_from
drained-IsPipe = record {
  found = refl;
  in_slot = refl;
  storage = refl;
  read_in = omega arith;
  held = omega arith;
  write_behind = refl;
  counted = record {
    slot = 1;
    slot' = 0;
    sem = sem 11 1024;
    sem' = sem 10 0;
    opened = record {
      nonempty = omega arith;
      found = refl;
      in_slot = refl;
      in_table = omega arith;
      unlocked = refl;
    };
    opened' = record {
      nonempty = omega arith;
      found = refl;
      in_slot = refl;
      in_table = omega arith;
      unlocked = refl;
    };
    counts = refl;
    counts' = refl;
    apart = omega arith;
    nobody = refl;
  };
}
