-- ===== src/Pipes/Available.antt =====
-- The search of `create_pipe_available` for an id.
use macac_os.Base.{
  ℕ, ◌<◌, ◌≡◌, refl, ap, ◌∙◌, true, some, returns, if-true, if-false, leb, ◌==◌, arith,
}
use macac_os.Kernel.Lift.{next-step}
use macac_os.Pipes.{
  Pipes, max_pipes, has_pipe_id, find_pipe_avaiable, taken, find_place, create_pipe, id_of,
  create_pipe_available, invalid_pipe_id,
}

pub create_pipe-taken :
    (id : ℕ) (s : Pipes)
    → 0 < id
    → s.pipes_count < max_pipes
    → find_place id 0 s.pipes ≡ taken
    → create_pipe id s ≡ returns invalid_pipe_id s
unfolding create_pipe
create_pipe-taken id s nonzero room e =
    if-false (id == 0) _ _ (ground arith)
    ∙ if-false (leb max_pipes s.pipes_count) _ _ (ground arith)
    ∙ rw e refl

-- With a pipe 10 in the table and a pipe 11 in front of the first empty slot, create_pipe_available
-- returns the id 11 of the pipe that is there, and creates nothing.
pub create_pipe_available-repeats :
    (s : Pipes)
    → s.pipes_count < max_pipes
    → has_pipe_id 10 s.pipes ≡ true
    → find_place 11 0 s.pipes ≡ taken
    → create_pipe_available s ≡ returns (id_of 11) s
unfolding create_pipe_available find_pipe_avaiable
create_pipe_available-repeats s room ten eleven =
    let id_found : find_pipe_avaiable s ≡ some 11 =
      if-false (leb max_pipes s.pipes_count) _ _ (ground arith) ∙ ap some (if-true _ _ _ ten) in
    rw (id_found, create_pipe_available)
      (next-step _ (create_pipe-taken 11 s (omega arith) room eleven) refl)
