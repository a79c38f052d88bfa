-- ===== src/Pipes/Take.antt =====
-- What `read_pipe` takes out of a pipe while it does not block.
use macac_os.Base.{
  ℕ, zero, suc, none, some, Option, pure, ◌>>=◌, ◌+◌, ◌-◌, ◌%◌, ◌^◌, ◌<◌, ◌≡◌, refl, sym, ap, ap₂,
  ◌∙◌, eq_of_==, Bool-cases, if◌then◌else◌, inl, inr, not, ◌&&◌, List, [], ◌∷◌, returns, Cmd, fetch,
  get_or, get_elem?-eq-get_or, get_elem?-set_self, lt_of_get_elem?, length, arith, if-true,
  if-false, ◌==◌,
}
use macac_os.Queue.Ring.{slots}
use macac_os.Queue.Refine.{slots-pos}
use macac_os.Semaphore.{Sync}
use macac_os.Semaphore.Calls.{wait_sem, post_sem}
use macac_os.Kernel.Lift.{next-step}
use macac_os.Pipes.{Pipe, Pipes, pipe_size, pipe_at, find_pipe}
use macac_os.Pipes.Transfer.{Progress, finished, fetch_byte, read_bytes, read_pipe}
use macac_os.Pipes.Counts.{Counts, Counts-swap, Counts-cast, wait_sem-Counts, post_sem-Counts}
use macac_os.Pipes.Refine.{
  content, IsPipe, with_sync, put_pipe, on_sync-returns, pipe_at-returns, change_pipe-put,
  find_pipe_from-set,
}

abbrev pub take : ℕ → List ℕ → List ℕ
take zero xs = []
take (suc n) [] = []
take (suc n) (x ∷ xs) = x ∷ take n xs

abbrev pub drop : ℕ → List ℕ → List ℕ
drop zero xs = xs
drop (suc n) [] = []
drop (suc n) (x ∷ xs) = drop n xs

take_nil : (n : ℕ) → take n [] ≡ []
take_nil zero = refl
take_nil (suc n) = refl

drop_nil : (n : ℕ) → drop n [] ≡ []
drop_nil zero = refl
drop_nil (suc n) = refl

pub content-none : (p : Pipe) → p.current_pipe_size ≡ 0 → content p ≡ []
content-none p e = ap (slots p.pipe_buffer pipe_size p.pipe_read_id) e

-- The pipe behind the body of the loop of `read_pipe`.
abbrev consumed : Pipe → Pipe
consumed p = record p {
  pipe_read_id = (p.pipe_read_id + 1) % 2 ^ 32 % pipe_size;
  current_pipe_size = (p.current_pipe_size + (2 ^ 32 - 1)) % 2 ^ 32;
}

content-consumed :
    (id slot : ℕ) (p : Pipe) (s : Pipes)
    → IsPipe id slot p s
    → 0 < p.current_pipe_size
    → content p ≡ get_or p.pipe_buffer p.pipe_read_id 0 ∷ content (consumed p)
content-consumed id slot p s v some_left =
    slots-pos p.pipe_buffer pipe_size p.pipe_read_id p.current_pipe_size some_left
    ∙ ap₂ (λ r k. get_or p.pipe_buffer p.pipe_read_id 0 ∷ slots p.pipe_buffer pipe_size r k)
        (omega (arith, v.read_in)) (omega (arith, v.held))

consumed-IsPipe :
    (id slot : ℕ) (p : Pipe) (s : Pipes) (t : Sync)
    → IsPipe id slot p s
    → 0 < p.current_pipe_size
    → Counts p.write_sem_id p.read_sem_id
        (pipe_size - p.current_pipe_size + 1)
        (p.current_pipe_size - 1)
        t
    → IsPipe id slot (consumed p) (with_sync t (put_pipe slot (consumed p) s))
unfolding find_pipe
consumed-IsPipe id slot p s t v some_left counted = record {
  found = find_pipe_from-set id 0 slot p (consumed p) s.pipes v.in_slot refl ∙ v.found;
  in_slot = get_elem?-set_self s.pipes slot (consumed p) (lt_of_get_elem? s.pipes slot p v.in_slot);
  storage = v.storage;
  read_in = omega arith;
  held = omega (arith, v.held);
  write_behind = omega (arith, v.write_behind, v.held, v.read_in);
  counted =
      Counts-cast p.write_sem_id p.read_sem_id _ _ _ _ t (omega (arith, v.held))
        (omega (arith, v.held)) counted;
}

fetch_byte-consumed :
    (id slot : ℕ) (p : Pipe) (s : Pipes) (t : Sync)
    → IsPipe id slot p s
    → (u : Sync) → post_sem p.write_sem_id t ≡ returns 0 u
    → fetch_byte slot (with_sync t s)
      ≡ returns (get_or p.pipe_buffer p.pipe_read_id 0) (with_sync u (put_pipe slot (consumed p) s))
unfolding fetch_byte
fetch_byte-consumed id slot p s t v u posted =
    next-step _ (pipe_at-returns slot p (with_sync t s) v.in_slot) (
      next-step _
        (ap (λ o. fetch o (with_sync t s))
          (get_elem?-eq-get_or p.pipe_buffer p.pipe_read_id 0
            (omega (arith, v.read_in, v.storage))))
        (next-step _ (change_pipe-put slot p (with_sync t s) v.in_slot _) (
          next-step _
            (on_sync-returns (post_sem p.write_sem_id) (with_sync t (put_pipe slot (consumed p) s))
              posted)
            refl)))

-- One round of the loop of `read_pipe`.
read_bytes-step :
    (rsp ss id slot left i : ℕ) (p : Pipe) (s : Pipes)
    → IsPipe id slot p s
    → 0 < p.current_pipe_size
    → (s' : Pipes) × (read_bytes rsp ss slot (suc left) i s
        ≡ (do
          r ← read_bytes rsp ss slot left (i + 1)
          pure (get_or p.pipe_buffer p.pipe_read_id 0 ∷ r.0, r.1))
            s')
      × IsPipe id slot (consumed p) s'
unfolding read_bytes
read_bytes-step rsp ss id slot left i p s v some_left =
    let (t, waited, fewer) =
      wait_sem-Counts rsp ss p.read_sem_id p.write_sem_id p.current_pipe_size
        (pipe_size - p.current_pipe_size) s.sync
        (Counts-swap p.write_sem_id p.read_sem_id _ _ s.sync v.counted) some_left in
    let (u, posted, room) =
      post_sem-Counts p.write_sem_id p.read_sem_id (pipe_size - p.current_pipe_size)
        (p.current_pipe_size - 1) t (Counts-swap p.read_sem_id p.write_sem_id _ _ t fewer)
        (omega arith) in
    (
      with_sync u (put_pipe slot (consumed p) s),
      next-step _ (pipe_at-returns slot p s v.in_slot) (
          ap (λ (m : Cmd Pipes (List ℕ × Progress)). m s)
            (if-false (p.current_pipe_size == 0) _ _ (ground arith))
          ∙ next-step _ (on_sync-returns (wait_sem rsp ss p.read_sem_id) s waited)
              (next-step _ (fetch_byte-consumed id slot p s t v u posted) refl)),
      consumed-IsPipe id slot p s u v some_left room,
    )

read_bytes-take :
    (rsp ss id slot left i : ℕ) (p : Pipe) (s : Pipes)
    → IsPipe id slot p s
    → (s' : Pipes) × (p' : Pipe) × (read_bytes rsp ss slot left i s
        ≡ returns (take left (content p), finished (i + length (take left (content p)))) s')
      × IsPipe id slot p' s'
      × (content p' ≡ drop left (content p))
unfolding read_bytes
read_bytes-take rsp ss id slot zero i p s v =
    (s, p, ap (λ n. returns ([], finished n) s) (omega arith), v, refl)
read_bytes-take rsp ss id slot (suc left) i p s v = elim (Bool-cases (p.current_pipe_size == 0)) [
  | inl none_left ↦
      let empty : content p ≡ [] = content-none p (eq_of_== p.current_pipe_size 0 none_left) in
      (
        s,
        p,
        next-step _ (pipe_at-returns slot p s v.in_slot) (
            ap (λ (m : Cmd Pipes (List ℕ × Progress)). m s)
              (if-true (p.current_pipe_size == 0) _ _ none_left)
            ∙ ap₂ (λ l n. returns (l, finished n) s) (sym (ap (take (suc left)) empty))
                (omega (arith, ap length (ap (take (suc left)) empty)))),
        v,
        empty ∙ sym (ap (drop (suc left)) empty),
      )
  | inr some_left ↦
      let (s₁, stepped, v₁) = read_bytes-step rsp ss id slot left i p s v (ground arith) in
      let (s₂, p₂, done, v₂, holds) =
        read_bytes-take rsp ss id slot left (i + 1) (consumed p) s₁ v₁ in
      let front = content-consumed id slot p s v (ground arith) in
      let taken = ap (take (suc left)) front in
      (
        s₂,
        p₂,
        stepped
            ∙ next-step _ done (
                ap₂ (λ l n. returns (l, finished n) s₂) (sym taken)
                  (omega (arith, ap length taken))),
        v₂,
        holds ∙ sym (ap (drop (suc left)) front),
      )
]

-- While no process waits for a semaphore, read_pipe of an open pipe does not block: it returns the
-- first bytes in the pipe, as many as asked for or as there are, and their number, and leaves the
-- others. Its ring and its two semaphores stay in step.
pub read_pipe-take :
    (rsp ss id slot count : ℕ) (p : Pipe) (s : Pipes)
    → IsPipe id slot p s
    → (s' : Pipes) × (p' : Pipe) × (read_pipe rsp ss id count s
        ≡ returns (some (take count (content p), finished (length (take count (content p))))) s')
      × IsPipe id slot p' s'
      × (content p' ≡ drop count (content p))
unfolding read_pipe
read_pipe-take rsp ss id slot count p s v =
    let at_slot : read_pipe rsp ss id count s
        ≡ (if not (p.eof == 0) && p.current_pipe_size == 0
              then pure (some ([], finished 0))
              else (do r ← read_bytes rsp ss slot count 0; pure (some r)))
            s =
      ap
        (λ o. elim o [
          | none ↦ returns none s
          | some slot ↦
              (do
                p ← pipe_at slot
                if not (p.eof == 0) && p.current_pipe_size == 0
                    then pure (some ([], finished 0))
                    else (do r ← read_bytes rsp ss slot count 0; pure (some r)))
                s
        ])
        v.found
      ∙ next-step _ (pipe_at-returns slot p s v.in_slot) refl in
    elim (Bool-cases (not (p.eof == 0) && p.current_pipe_size == 0)) [
      | inl ended ↦
          let empty : content p ≡ [] = content-none p (ground arith) in
          let nothing : take count (content p) ≡ [] = ap (take count) empty ∙ take_nil count in
          (
            s,
            p,
            at_slot
                ∙ ap (λ (m : Cmd Pipes (Option (List ℕ × Progress))). m s) (if-true _ _ _ ended)
                ∙ ap₂ (λ l n. returns (some (l, finished n)) s) (sym nothing)
                    (omega (arith, ap length nothing)),
            v,
            empty ∙ sym (ap (drop count) empty ∙ drop_nil count),
          )
      | inr goes_on ↦
          let (s', p', done, v', holds) = read_bytes-take rsp ss id slot count 0 p s v in
          (
            s',
            p',
            at_slot
                ∙ ap (λ (m : Cmd Pipes (Option (List ℕ × Progress))). m s) (if-false _ _ _ goes_on)
                ∙ next-step _ done (
                    ap (λ n. returns (some (take count (content p), finished n)) s') (omega arith)),
            v',
            holds,
          )
    ]
