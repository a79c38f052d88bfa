-- ===== src/Scheduler/Search.antt =====
-- The loop of `next_process` and that of `get_process_idx`.
use native.Mathlib.Nat.{mod-add-mod}
use macac_os.Base.{
  ℕ, zero, suc, ◌+◌, ◌%◌, ◌≤◌, ◌<◌, ◌≡◌, ◌≢◌, refl, ap, ◌∙◌, Bool, true, false, not, ◌&&◌, some,
  List, [], ◌∷◌, ◌==◌, get_elem?, get_elem?-lt, length, arith, inl, inr, Bool-cases, eq_of_==,
  ne_of_==,
}
use macac_os.Scheduler.{
  Process, Scheduler, find_ready, ready, dead, get_process_idx_from, get_process_idx,
  no_process_found,
}

-- The process in slot `i` is ready.
abbrev pub IsReadyAt : List Process → ℕ → Type 0
IsReadyAt ps i = (p : Process) × (get_elem? ps i ≡ some p) × (p.state ≡ ready)

abbrev pub NotReadyAt : List Process → ℕ → Type 0
NotReadyAt ps i = (p : Process) × (get_elem? ps i ≡ some p) × (p.state ≢ ready)

-- How a search of at most `left` slots from behind `idx` on ends: after `k` steps round the first
-- `dim` slots at one that is ready, with none ready before it, or with none ready at all.
pub data Found (dim left idx : ℕ) (ps : List Process) (r : ℕ × Bool) : Type 0 where
  hit :
      (k : ℕ)
      → k < left
      → ((j : ℕ) → j < k → NotReadyAt ps ((idx + suc j) % dim))
      → IsReadyAt ps ((idx + suc k) % dim)
      → r ≡ ((idx + suc k) % dim, true)
      → Found dim left idx ps r
  miss :
      ((j : ℕ) → j < left → NotReadyAt ps ((idx + suc j) % dim))
      → r.1 ≡ false
      → Found dim left idx ps r

-- One step round, then `k` more.
around : (dim idx k : ℕ) → ((idx + 1) % dim + suc k) % dim ≡ (idx + suc (suc k)) % dim
around dim idx k = rw mod-add-mod (ap (λ (m : ℕ). m % dim) (omega arith))

-- The slots passed, with the one passed first.
passed :
    (dim idx : ℕ) (ps : List Process) (n : ℕ)
    → NotReadyAt ps ((idx + 1) % dim)
    → ((j : ℕ) → j < n → NotReadyAt ps (((idx + 1) % dim + suc j) % dim))
    → (j : ℕ) → j < suc n
    → NotReadyAt ps ((idx + suc j) % dim)
passed dim idx ps n first rest zero lt = first
passed dim idx ps n first rest (suc j) lt = rw (← around dim idx j) (rest j (omega arith))

Found-step :
    (dim left idx : ℕ) (ps : List Process) (r : ℕ × Bool)
    → NotReadyAt ps ((idx + 1) % dim)
    → Found dim left ((idx + 1) % dim) ps r
    → Found dim (suc left) idx ps r
Found-step dim left idx ps r first (hit k lt before found is) =
    hit (suc k) (omega arith) (passed dim idx ps k first before) (rw (around dim idx k) at found)
      (is ∙ ap (λ (i : ℕ). (i, true)) (around dim idx k))
Found-step dim left idx ps r first (miss none_ready is) =
    miss (passed dim idx ps left first none_ready) is

-- With at least one process, and no more than the table has slots, the loop of next_process reads
-- only slots of the table, and stops at the first ready process behind the current one, round the
-- first dim slots, or after all of them with none ready.
pub find_ready-Found :
    (dim left idx : ℕ) (ps : List Process)
    → 0 < dim
    → dim ≤ length ps
    → (r : ℕ × Bool) × (find_ready dim left idx ps ≡ some r) × Found dim left idx ps r
unfolding find_ready
find_ready-Found dim zero idx ps h t =
    ((idx, false), refl, miss (λ j lt. absurd (omega arith)) refl)
find_ready-Found dim (suc left) idx ps h t =
    let (p, e) = get_elem?-lt ps ((idx + 1) % dim) (omega arith) in
    elim (Bool-cases (p.state == ready)) [
      | inl y ↦ (
        ((idx + 1) % dim, true),
        rw (e, find_ready) (rw y),
        hit 0 (omega arith) (λ j lt. absurd (omega arith)) (p, e, eq_of_== p.state ready y) refl,
      )
      | inr z ↦
          let (r, e', f) = find_ready-Found dim left ((idx + 1) % dim) ps h t in
          (
            r,
            rw (e, find_ready) (rw z e'),
            Found-step dim left idx ps r (p, e, ne_of_== p.state ready z) f,
          )
    ]

-- What `get_process_idx` returns: the first slot of a live process with the pid, or 255.
pub data LookedUp (pid i : ℕ) (ps : List Process) (r : ℕ) : Type 0 where
  at :
      (j : ℕ) (p : Process)
      → get_elem? ps j ≡ some p
      → p.pid ≡ pid
      → p.state ≢ dead
      → r ≡ i + j
      → LookedUp pid i ps r
  nowhere :
      ((j : ℕ) (p : Process) → get_elem? ps j ≡ some p → p.pid ≡ pid → p.state ≡ dead)
      → r ≡ no_process_found
      → LookedUp pid i ps r

LookedUp-step :
    (pid i : ℕ) (p : Process) (ps : List Process) (r : ℕ)
    → (p.pid ≡ pid → p.state ≡ dead)
    → LookedUp pid (i + 1) ps r
    → LookedUp pid i (p ∷ ps) r
LookedUp-step pid i p ps r other (at j q e same alive is) = at (suc j) q e same alive (omega arith)
LookedUp-step pid i p ps r other (nowhere none_there is) = nowhere missing is
  where
    missing : (j : ℕ) (q : Process) → get_elem? (p ∷ ps) j ≡ some q → q.pid ≡ pid → q.state ≡ dead
    missing zero q e same = ground (arith, other)
    missing (suc j) q e same = none_there j q e same

get_process_idx_from-LookedUp :
    (pid i : ℕ) (ps : List Process) → LookedUp pid i ps (get_process_idx_from pid i ps)
unfolding get_process_idx_from
get_process_idx_from-LookedUp pid i [] = nowhere (λ j p e. absurd (ground arith)) refl
get_process_idx_from-LookedUp pid i (p ∷ ps) =
    elim (Bool-cases (p.pid == pid && not (p.state == dead))) [
      | inl y ↦ rw y (at 0 p refl (ground arith) (ground arith) (omega arith))
      | inr z ↦ rw z (
          LookedUp-step pid i p ps _ (λ same. ground arith)
            (get_process_idx_from-LookedUp pid (i + 1) ps))
    ]

-- get_process_idx returns a slot of a live process with the pid, or 255 where there is none.
pub get_process_idx-LookedUp :
    (pid : ℕ) (s : Scheduler) → LookedUp pid 0 s.process_list (get_process_idx pid s)
unfolding get_process_idx
get_process_idx-LookedUp pid s = get_process_idx_from-LookedUp pid 0 s.process_list
