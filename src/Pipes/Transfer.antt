-- ===== src/Pipes/Transfer.antt =====
-- `write_pipe` and `read_pipe`.
use macac_os.Base.{
  ℕ, zero, suc, ◌+◌, ◌-◌, ◌%◌, ◌^◌, not, ◌&&◌, Option, none, some, List, [], ◌∷◌, returns, fault,
  Cmd, pure, fetch, ◌>>=◌, ◌>>◌, ltb, ◌==◌, if◌then◌else◌, get_elem?, set, length,
}
use macac_os.Semaphore.Calls.{code, switched, wait_sem, post_sem}
use macac_os.Pipes.{Pipes, pipe_size, on_sync, pipe_at, change_pipe, find_pipe}

-- How the loop of a transfer ends: with the number of bytes, or in a `wait_sem` that blocks, with
-- the new stack pointer. When the process has the turn again, the loop goes on behind that call.
pub data Progress : Type 0 where
  finished : ℕ → Progress
  suspended : ℕ → Progress

-- The body of the loop of `write_pipe` behind `wait_sem`.
unfoldable pub store_byte : ℕ → ℕ → Cmd Pipes (Unit {0})
store_byte slot c = do
  p ← pipe_at slot
  if ltb p.pipe_write_id (length p.pipe_buffer)
      then change_pipe slot (λ p. record p {
        pipe_buffer = set p.pipe_buffer p.pipe_write_id c;
        pipe_write_id = (p.pipe_write_id + 1) % 2 ^ 32 % pipe_size;
        current_pipe_size = (p.current_pipe_size + 1) % 2 ^ 32;
      })
      else (λ s. fault)
  on_sync (post_sem p.read_sem_id)
  pure tt

-- The loop from index `i` on, for the bytes that are left. The code of `wait_sem` is not looked at.
unfoldable pub write_bytes : ℕ → ℕ → ℕ → List ℕ → ℕ → Cmd Pipes Progress
write_bytes rsp ss slot [] i = pure (finished i)
write_bytes rsp ss slot (c ∷ cs) i = do
  p ← pipe_at slot
  w ← on_sync (wait_sem rsp ss p.write_sem_id)
  elim w [
    | code n ↦ (do store_byte slot c; write_bytes rsp ss slot cs (i + 1))
    | switched rsp' ↦ pure (suspended rsp')
  ]

-- `none` is the code `INVALID_PIPE_ID`. `bytes` are the first `count` of the buffer.
unfoldable pub write_pipe : ℕ → ℕ → ℕ → List ℕ → Cmd Pipes (Option Progress)
unfolding write_bytes
write_pipe rsp ss id bytes s = elim (find_pipe id s) [
  | none ↦ returns none s
  | some slot ↦ (do r ← write_bytes rsp ss slot bytes 0; pure (some r)) s
]

-- The body of the loop of `read_pipe` behind `wait_sem`.
unfoldable pub fetch_byte : ℕ → Cmd Pipes ℕ
fetch_byte slot = do
  p ← pipe_at slot
  c ← fetch (get_elem? p.pipe_buffer p.pipe_read_id)
  change_pipe slot (λ p. record p {
    pipe_read_id = (p.pipe_read_id + 1) % 2 ^ 32 % pipe_size;
    current_pipe_size = (p.current_pipe_size + (2 ^ 32 - 1)) % 2 ^ 32;
  })
  on_sync (post_sem p.write_sem_id)
  pure c

-- The loop from index `i` on, for `left` bytes more: what it writes to the buffer, and how it ends.
unfoldable pub read_bytes : ℕ → ℕ → ℕ → ℕ → ℕ → Cmd Pipes (List ℕ × Progress)
read_bytes rsp ss slot zero i = pure ([], finished i)
read_bytes rsp ss slot (suc left) i = do
  p ← pipe_at slot
  if p.current_pipe_size == 0 then pure ([], finished i) else (do
    w ← on_sync (wait_sem rsp ss p.read_sem_id)
    elim w [
      | code n ↦ (do
        c ← fetch_byte slot
        r ← read_bytes rsp ss slot left (i + 1)
        pure (c ∷ r.0, r.1))
      | switched rsp' ↦ pure ([], suspended rsp')
    ])

unfoldable pub read_pipe : ℕ → ℕ → ℕ → ℕ → Cmd Pipes (Option (List ℕ × Progress))
unfolding read_bytes
read_pipe rsp ss id count s = elim (find_pipe id s) [
  | none ↦ returns none s
  | some slot ↦
      (do
        p ← pipe_at slot
        if not (p.eof == 0) && p.current_pipe_size == 0
            then pure (some ([], finished 0))
            else (do r ← read_bytes rsp ss slot count 0; pure (some r)))
        s
]
