-- ===== src/Queue.antt =====
-- Kernel/utils/queue.c: a ring buffer of process ids, with its reads and writes checked against the
-- block that `memory_alloc` returned.
pub mod Ring
pub mod Refine
pub mod Iterate
pub mod Trace
mod Tests
use macac_os.Base.{
  ℕ, ◌+◌, ◌-◌, ◌%◌, ◌^◌, zero, suc, Bool, true, false, ◌&&◌, ◌||◌, List, returns, fault, Cmd, pure,
  fetch, get_state, modify, ◌>>=◌, ◌>>◌, ltb, leb, ◌==◌, if◌then◌else◌, get_elem?, set, length,
}

abbrev pub empty_queue_error : ℕ
empty_queue_error = 2 ^ 64 - 1

abbrev pub no_more_elems : ℕ
no_more_elems = 2 ^ 64 - 2

-- `queue_CDT`; `elements` is the block that the pointer points to, `[]` for NULL.
pub record Queue : Type 0 where
  pub elements : List ℕ
  pub read_pos : ℕ
  pub write_pos : ℕ
  pub length : ℕ
  pub size : ℕ

-- `unsigned int` arithmetic
abbrev pub u32 : ℕ → ℕ
u32 n = n % 2 ^ 32

-- `block` is what `memory_alloc(size * sizeof(uint64_t))` returns, as the words that it holds.
unfoldable pub create_queue : List ℕ → ℕ → Cmd Queue (Unit {0})
create_queue block size q =
    if size == 0
    then returns tt q
    else returns tt
        (record { elements = block; read_pos = 0; write_pos = 0; length = 0; size = size })

unfoldable pub get_queue_length : Queue → ℕ
get_queue_length q = q.length

-- `elements[i]`
read_at : ℕ → Cmd Queue ℕ
read_at i q = fetch (get_elem? q.elements i) q

-- `elements[i] = elem`
write_at : ℕ → ℕ → Cmd Queue (Unit {0})
write_at i elem q =
    if ltb i (length q.elements)
    then returns tt (record q { elements = set q.elements i elem })
    else fault

-- `n % size`; a division by zero traps.
mod_size : ℕ → Cmd Queue ℕ
mod_size n q = if q.size == 0 then fault else returns (n % q.size) q

-- The branch of `enqueue` for a queue with room. The two reads behind the write are the ones of the
-- local variables `elem_written` and `elem_read`.
store_elem : ℕ → Cmd Queue (Unit {0})
unfolding read_at write_at mod_size
store_elem elem = do
  q₀ ← get_state
  write_at q₀.write_pos elem
  w ← mod_size (u32 (q₀.write_pos + 1))
  modify (λ s. record s { write_pos = w })
  elem_written ← read_at w
  elem_read ← read_at q₀.read_pos
  modify (λ s. record s { length = u32 (s.length + 1) })

unfoldable pub enqueue : ℕ → Cmd Queue (Unit {0})
unfolding store_elem
enqueue elem q = if q.length == q.size then returns tt q else store_elem elem q

-- The branch of `dequeue` for a queue with an element.
take_elem : Cmd Queue ℕ
unfolding read_at mod_size
take_elem = do
  q₀ ← get_state
  elem ← read_at q₀.read_pos
  r ← mod_size (u32 (q₀.read_pos + 1))
  modify (λ s. record s { read_pos = r })
  elem_sig ← read_at r
  modify (λ s. record s { length = s.length - 1 })
  pure elem

unfoldable pub dequeue : Cmd Queue ℕ
unfolding take_elem
dequeue q = if q.length == 0 then returns empty_queue_error q else take_elem q

-- The loop of `is_in_queue`, with the `left` rounds from `i` on.
is_in_queue_from : ℕ → ℕ → ℕ → Cmd Queue Bool
is_in_queue_from zero i elem = pure false
is_in_queue_from (suc left) i elem = do
  q ← get_state
  j ← mod_size (u32 (q.read_pos + i))
  x ← read_at j
  let rest = is_in_queue_from left (i + 1) elem
  if x == elem then pure true else rest

unfoldable pub is_in_queue : ℕ → Cmd Queue Bool
unfolding is_in_queue_from read_at mod_size
is_in_queue elem q = is_in_queue_from q.length 0 elem q

unfoldable pub create_queue_iterator : Queue → ℕ
create_queue_iterator q = q.read_pos

-- `has_next(queue, &iter)`, with the value of the iterator.
unfoldable pub has_next : Queue → ℕ → Bool
has_next q iter =
    if ltb q.write_pos q.read_pos
    then (leb q.read_pos iter && ltb iter q.size) || ltb iter q.write_pos
    else ltb iter q.write_pos && leb q.read_pos iter

-- `next` passes the iterator's value to `has_next` where a pointer is expected, so the test reads
-- the `unsigned int` at that address: `low_memory` is what the memory holds there.
-- The result is the element and the new iterator.
unfoldable pub next : (ℕ → ℕ) → ℕ → Cmd Queue (ℕ × ℕ)
unfolding read_at mod_size
next low_memory iter q =
    if has_next q (low_memory iter)
    then (do elem ← read_at iter; iter' ← mod_size (u32 (iter + 1)); pure (elem, iter')) q
    else returns (no_more_elems, iter) q
