-- ===== src/Pipes/RoundTrip.antt =====
-- What was written into an empty pipe is read back.
use macac_os.Base.{ℕ, ◌≤◌, ◌≡◌, refl, ap, ◌∙◌, some, List, [], ◌∷◌, ◌++◌, returns, length, arith}
use macac_os.Pipes.{Pipe, Pipes, pipe_size}
use macac_os.Pipes.Transfer.{finished, write_pipe, read_pipe}
use macac_os.Pipes.Refine.{content, IsPipe, write_pipe-append}
use macac_os.Pipes.Take.{take, drop, content-none, read_pipe-take}

pub take_all : (xs : List ℕ) → take (length xs) xs ≡ xs
take_all [] = refl
take_all (x ∷ xs) = ap (λ l. x ∷ l) (take_all xs)

pub drop_all : (xs : List ℕ) → drop (length xs) xs ≡ []
drop_all [] = refl
drop_all (x ∷ xs) = drop_all xs

-- Of bytes that fit, written by write_pipe into an open and empty pipe while no process waits for a
-- semaphore, read_pipe of as many returns the same bytes, and leaves the pipe open and empty.
pub read_pipe-write_pipe :
    (rsp ss id slot : ℕ) (bytes : List ℕ) (p : Pipe) (s : Pipes)
    → IsPipe id slot p s
    → p.current_pipe_size ≡ 0
    → length bytes ≤ pipe_size
    → (s' : Pipes) × (s'' : Pipes) × (p'' : Pipe) × (write_pipe rsp ss id bytes s
        ≡ returns (some (finished (length bytes))) s')
      × (read_pipe rsp ss id (length bytes) s'
          ≡ returns (some (bytes, finished (length bytes))) s'')
      × IsPipe id slot p'' s''
      × (content p'' ≡ [])
read_pipe-write_pipe rsp ss id slot bytes p s v none_held fits =
    let (s', p', written, v', holds) = write_pipe-append rsp ss id slot bytes p s v (omega arith) in
    let held : content p' ≡ bytes = holds ∙ ap (λ l. l ++ bytes) (content-none p none_held) in
    let all : take (length bytes) (content p') ≡ bytes =
      ap (take (length bytes)) held ∙ take_all bytes in
    let (s'', p'', read, v'', rest) = read_pipe-take rsp ss id slot (length bytes) p' s' v' in
    (
      s',
      s'',
      p'',
      written,
      read ∙ ap (λ l. returns (some (l, finished (length l))) s'') all,
      v'',
      rest ∙ ap (drop (length bytes)) held ∙ drop_all bytes,
    )
