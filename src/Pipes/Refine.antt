-- ===== src/Pipes/Refine.antt =====
-- A pipe as a sequence of bytes: what `write_pipe` and `read_pipe` do to it while they do not block.
use mathlib.Core.List.{append-nil, append_assoc}
use macac_os.Base.{
  ℕ, zero, suc, ◌+◌, ◌-◌, ◌%◌, ◌^◌, ◌≤◌, ◌<◌, ◌≡◌, refl, sym, ap, ap₂, ◌∙◌, none, some, pure, ◌>>=◌,
  List, [], ◌∷◌, ◌++◌, returns, Cmd, fetch, get_elem?, get_elem?-set_self, lt_of_get_elem?, set,
  length, length-set, arith, if-true, ltb,
}
use macac_os.Queue.Ring.{slots, slots-set_last}
use macac_os.Semaphore.{Sync}
use macac_os.Semaphore.Calls.{wait_sem, post_sem}
use macac_os.Kernel.Lift.{next-step, zoom-returns}
use macac_os.Pipes.{
  Pipe, Pipes, pipe_size, on_sync, pipe_at, change_pipe, find_pipe, find_pipe_from,
}
use macac_os.Pipes.Transfer.{finished, store_byte, write_bytes, write_pipe}
use macac_os.Pipes.Counts.{Counts, Counts-swap, Counts-cast, wait_sem-Counts, post_sem-Counts}

-- The bytes in the pipe, the next one to read first.
abbrev pub content : Pipe → List ℕ
content p = slots p.pipe_buffer pipe_size p.pipe_read_id p.current_pipe_size

-- An open pipe in its slot: a ring, with the bytes and the free places counted by its semaphores.
pub record IsPipe (id slot : ℕ) (p : Pipe) (s : Pipes) : Type 0 where
  pub found : find_pipe id s ≡ some slot
  pub in_slot : get_elem? s.pipes slot ≡ some p
  pub storage : length p.pipe_buffer ≡ pipe_size
  pub read_in : p.pipe_read_id < pipe_size
  pub held : p.current_pipe_size ≤ pipe_size
  pub write_behind : p.pipe_write_id ≡ (p.pipe_read_id + p.current_pipe_size) % pipe_size
  pub counted :
      Counts p.write_sem_id p.read_sem_id
        (pipe_size - p.current_pipe_size)
        p.current_pipe_size
        s.sync

abbrev pub with_sync : Sync → Pipes → Pipes
with_sync t s = record s { sync = t }

abbrev pub put_pipe : ℕ → Pipe → Pipes → Pipes
put_pipe slot p s = record s { pipes = set s.pipes slot p }

pub on_sync-returns :
    {A : Type 0} (m : Cmd Sync A) (s : Pipes) {a : A} {t : Sync}
    → m s.sync ≡ returns a t
    → on_sync m s ≡ returns a (with_sync t s)
on_sync-returns m s e =
    zoom-returns (λ (s : Pipes). s.sync) (λ (t : Sync) s. record s { sync = t }) m s e

module _ (slot : ℕ) (p : Pipe) (s : Pipes) (e : get_elem? s.pipes slot ≡ some p) where
  pub pipe_at-returns : pipe_at slot s ≡ returns p s
  unfolding pipe_at
  pipe_at-returns = ap (λ o. fetch o s) e

  pub change_pipe-put :
      (f : Pipe → Pipe) → change_pipe slot f s ≡ returns tt (put_pipe slot (f p) s)
  unfolding change_pipe
  change_pipe-put f = rw (e, change_pipe)

pub find_pipe_from-set :
    (id i k : ℕ) (p q : Pipe) (ps : List Pipe)
    → get_elem? ps k ≡ some p
    → q.pipe_id ≡ p.pipe_id
    → find_pipe_from id i (set ps k q) ≡ find_pipe_from id i ps
unfolding find_pipe_from
find_pipe_from-set id i k p q [] e a = refl
find_pipe_from-set id i zero p q (x ∷ ps) e a = ground arith
find_pipe_from-set id i (suc k) p q (x ∷ ps) e a =
    ground (arith, find_pipe_from-set id (i + 1) k p q ps e a)

-- The pipe behind the body of the loop of `write_pipe`.
abbrev written : ℕ → Pipe → Pipe
written c p = record p {
  pipe_buffer = set p.pipe_buffer p.pipe_write_id c;
  pipe_write_id = (p.pipe_write_id + 1) % 2 ^ 32 % pipe_size;
  current_pipe_size = (p.current_pipe_size + 1) % 2 ^ 32;
}

content-written :
    (c id slot : ℕ) (p : Pipe) (s : Pipes)
    → IsPipe id slot p s
    → p.current_pipe_size < pipe_size
    → content (written c p) ≡ content p ++ c ∷ []
content-written c id slot p s v room =
    let e : (p.current_pipe_size + 1) % 2 ^ 32 ≡ suc p.current_pipe_size = omega arith in
    ap₂ (λ k w. slots (set p.pipe_buffer w c) pipe_size p.pipe_read_id k) e v.write_behind
    ∙ slots-set_last p.pipe_buffer pipe_size p.pipe_read_id p.current_pipe_size c v.read_in room
        (omega (arith, v.storage))

written-IsPipe :
    (c id slot : ℕ) (p : Pipe) (s : Pipes) (t : Sync)
    → IsPipe id slot p s
    → p.current_pipe_size < pipe_size
    → Counts p.write_sem_id p.read_sem_id
        (pipe_size - p.current_pipe_size - 1)
        (p.current_pipe_size + 1)
        t
    → IsPipe id slot (written c p) (with_sync t (put_pipe slot (written c p) s))
unfolding find_pipe
written-IsPipe c id slot p s t v room counted = record {
  found = find_pipe_from-set id 0 slot p (written c p) s.pipes v.in_slot refl ∙ v.found;
  in_slot =
      get_elem?-set_self s.pipes slot (written c p) (lt_of_get_elem? s.pipes slot p v.in_slot);
  storage = length-set p.pipe_buffer p.pipe_write_id c ∙ v.storage;
  read_in = v.read_in;
  held = omega arith;
  write_behind = omega (arith, v.write_behind, v.held, v.read_in);
  counted = Counts-cast p.write_sem_id p.read_sem_id _ _ _ _ t (omega arith) (omega arith) counted;
}

store_byte-written :
    (c id slot : ℕ) (p : Pipe) (s : Pipes)
    → get_elem? s.pipes slot ≡ some p
    → length p.pipe_buffer ≡ pipe_size
    → p.pipe_write_id < pipe_size
    → (t : Sync) → post_sem p.read_sem_id s.sync ≡ returns 0 t
    → store_byte slot c s ≡ returns tt (with_sync t (put_pipe slot (written c p) s))
unfolding store_byte
store_byte-written c id slot p s e storage inside t posted =
    next-step _ (pipe_at-returns slot p s e) (
      next-step _
        (ap (λ (m : Cmd Pipes (Unit {0})). m s)
            (if-true (ltb p.pipe_write_id (length p.pipe_buffer)) _ _ (ground arith))
          ∙ change_pipe-put slot p s e _)
        (next-step _
          (on_sync-returns (post_sem p.read_sem_id) (put_pipe slot (written c p) s) posted) refl))

-- One round of the loop of `write_pipe`.
write_bytes-step :
    (rsp ss c id slot i : ℕ) (cs : List ℕ) (p : Pipe) (s : Pipes)
    → IsPipe id slot p s
    → p.current_pipe_size < pipe_size
    → (s' : Pipes) × (write_bytes rsp ss slot (c ∷ cs) i s ≡ write_bytes rsp ss slot cs (i + 1) s')
      × IsPipe id slot (written c p) s'
unfolding write_bytes
write_bytes-step rsp ss c id slot i cs p s v room =
    let (t, waited, left) =
      wait_sem-Counts rsp ss p.write_sem_id p.read_sem_id (pipe_size - p.current_pipe_size)
        p.current_pipe_size s.sync v.counted (omega arith) in
    let (u, posted, more) =
      post_sem-Counts p.read_sem_id p.write_sem_id p.current_pipe_size
        (pipe_size - p.current_pipe_size - 1) t
        (Counts-swap p.write_sem_id p.read_sem_id _ _ t left) (omega (arith, v.held)) in
    (
      with_sync u (put_pipe slot (written c p) s),
      next-step _ (pipe_at-returns slot p s v.in_slot) (
          next-step _ (on_sync-returns (wait_sem rsp ss p.write_sem_id) s waited) (
            next-step _
              (store_byte-written c id slot p (with_sync t s) v.in_slot v.storage
                (omega (arith, v.write_behind)) u posted)
              refl)),
      written-IsPipe c id slot p s u v room (Counts-swap p.read_sem_id p.write_sem_id _ _ u more),
    )

write_bytes-append :
    (rsp ss id slot i : ℕ) (cs : List ℕ) (p : Pipe) (s : Pipes)
    → IsPipe id slot p s
    → p.current_pipe_size + length cs ≤ pipe_size
    → (s' : Pipes) × (p' : Pipe) × (write_bytes rsp ss slot cs i s
        ≡ returns (finished (i + length cs)) s')
      × IsPipe id slot p' s'
      × (content p' ≡ content p ++ cs)
unfolding write_bytes
write_bytes-append rsp ss id slot i [] p s v room =
    (s, p, ap (λ n. returns (finished n) s) (omega arith), v, sym (append-nil (content p)))
write_bytes-append rsp ss id slot i (c ∷ cs) p s v room =
    let (s₁, stepped, v₁) = write_bytes-step rsp ss c id slot i cs p s v (omega arith) in
    let (s₂, p₂, done, v₂, holds) =
      write_bytes-append rsp ss id slot (i + 1) cs (written c p) s₁ v₁ (omega arith) in
    (
      s₂,
      p₂,
      stepped ∙ done ∙ ap (λ n. returns (finished n) s₂) (omega arith),
      v₂,
      holds
          ∙ ap (λ l. l ++ cs) (content-written c id slot p s v (omega arith))
          ∙ append_assoc (content p) (c ∷ []) cs,
    )

-- While no process waits for a semaphore, write_pipe of no more bytes than there is room for goes
-- through an open pipe without blocking, returns their number and appends them to the bytes in the
-- pipe. Its ring and its two semaphores stay in step.
pub write_pipe-append :
    (rsp ss id slot : ℕ) (bytes : List ℕ) (p : Pipe) (s : Pipes)
    → IsPipe id slot p s
    → p.current_pipe_size + length bytes ≤ pipe_size
    → (s' : Pipes) × (p' : Pipe) × (write_pipe rsp ss id bytes s
        ≡ returns (some (finished (length bytes))) s')
      × IsPipe id slot p' s'
      × (content p' ≡ content p ++ bytes)
unfolding write_pipe
write_pipe-append rsp ss id slot bytes p s v room =
    let (s', p', done, v', holds) = write_bytes-append rsp ss id slot 0 bytes p s v room in
    (
      s',
      p',
      ap
            (λ o. elim o [
              | none ↦ returns none s
              | some slot ↦ (do r ← write_bytes rsp ss slot bytes 0; pure (some r)) s
            ])
            v.found
          ∙ next-step _ done (ap (λ n. returns (some (finished n)) s') (omega arith)),
      v',
      holds,
    )
