-- ===== src/Queue/Tests.antt =====
-- Runs of queue.c, and its theorems at a queue that wraps around.
use macac_os.Base.{◌≡◌, refl, List, [], ◌∷◌, arith, returns}
use macac_os.Queue.{Queue, dequeue}
use macac_os.Queue.Refine.{IsValid, waiting}
use macac_os.Queue.Trace.{Call, put, take, run, fifo_run, run-fifo}

abbrev wrapped : Queue
wrapped = record { elements = 8 ∷ 3 ∷ 7 ∷ []; read_pos = 2; write_pos = 1; length = 2; size = 3 }

wrapped-IsValid : IsValid wrapped
wrapped-IsValid = record {
  storage = omega arith;
  bounded = omega arith;
  read_in = omega arith;
  length_in = omega arith;
  write_behind = refl;
}

enqueue_wraps : dequeue wrapped ≡ returns 7 (record wrapped { read_pos = 0; length = 1 })
unfolding dequeue
enqueue_wraps = refl

calls_run : fifo_run 3 (put 9 ∷ put 5 ∷ take ∷ take ∷ take ∷ []) (7 ∷ 8 ∷ []) ≡ 7 ∷ 8 ∷ 9 ∷ []
unfolding fifo_run
calls_run = refl

abbrev calls : List Call
calls = put 9 ∷ put 5 ∷ take ∷ take ∷ []

run-fifo_example :
    (q' : Queue) × (run calls wrapped ≡ returns (fifo_run 3 calls (waiting wrapped)) q')
    × IsValid q'
run-fifo_example = run-fifo calls wrapped-IsValid
