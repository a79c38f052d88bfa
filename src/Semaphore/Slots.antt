-- ===== src/Semaphore/Slots.antt =====
-- The searches of semaphore.c through its table.
use macac_os.Base.{
  ℕ, zero, suc, ◌+◌, ◌%◌, ◌^◌, ◌≤◌, ◌<◌, ◌≡◌, ◌≢◌, refl, ap, ◌∙◌, true, false, none, some, Option,
  List, [], ◌∷◌, returns, fault, hang, arith, ◌==◌, if◌then◌else◌, get_elem?, length, inl, inr,
  Bool-cases, if-true, if-false, leb, Cmd, All, fetch, ==_of_ne, get_elem?-ge,
}
use macac_os.Semaphore.{
  Semaphore, Sync, has_id, free_id_from, find_free_sem, find_sem_from, find_sem, empty_sem, max_sem,
  lock, err_invalid_sem_id,
}
use macac_os.Semaphore.Calls.{
  with_sem, wait_sem, post_sem, close_sem, close_at, code, wait_at, post_at,
}
use macac_os.Kernel.Lift.{fault-step}

-- A semaphore with the id stands in slot `pos`, not locked.
pub record OpenAt (sem_id pos : ℕ) (sem : Semaphore) (s : Sync) : Type 0 where
  pub nonempty : sem_id ≢ empty_sem
  pub found : find_sem sem_id s ≡ pos
  pub in_slot : get_elem? s.semaphores pos ≡ some sem
  pub in_table : pos < max_sem
  pub unlocked : sem.is_locked ≡ 0

module _ {A : Type 0} (invalid : A) (sem_id : ℕ) (body : ℕ → Cmd Sync A) (s : Sync) where
  with_sem-find_sem :
      sem_id ≢ empty_sem → with_sem invalid sem_id body s ≡ body (find_sem sem_id s) s
  unfolding with_sem
  with_sem-find_sem nonempty =
      if-false (sem_id == empty_sem) _ _ (==_of_ne sem_id empty_sem nonempty)

  pub with_sem-OpenAt :
      (pos : ℕ) (sem : Semaphore)
      → OpenAt sem_id pos sem s
      → with_sem invalid sem_id body s ≡ body pos s
  with_sem-OpenAt pos sem o = with_sem-find_sem o.nonempty ∙ ap (λ i. body i s) o.found

find_sem_from-none :
    (sem_id i : ℕ) (sems : List Semaphore)
    → has_id sem_id sems ≡ false
    → find_sem_from sem_id i sems ≡ 255
unfolding find_sem_from has_id
find_sem_from-none sem_id i [] e = refl
find_sem_from-none sem_id i (s ∷ ss) e = ground (arith, find_sem_from-none sem_id (i + 1) ss)

-- The number of semaphores with an id from `k` on.
above : ℕ → List Semaphore → ℕ
above k [] = 0
above k (s ∷ ss) = (if leb k s.sem_id then 1 else 0) + above k ss

above-le-length : (k : ℕ) (ss : List Semaphore) → above k ss ≤ length ss
unfolding above
above-le-length k [] = omega arith
above-le-length k (s ∷ ss) = ground (arith, above-le-length k ss)

above-suc-le : (k : ℕ) (ss : List Semaphore) → above (k + 1) ss ≤ above k ss
unfolding above
above-suc-le k [] = omega arith
above-suc-le k (s ∷ ss) = ground (arith, above-suc-le k ss)

above-suc : (k : ℕ) (ss : List Semaphore) → has_id k ss ≡ true → above (k + 1) ss < above k ss
unfolding above has_id
above-suc k [] e = absurd (ground arith)
above-suc k (s ∷ ss) e = ground (arith, above-suc k ss, above-suc-le k ss)

has_id-All :
    (i : ℕ) (ss : List Semaphore)
    → has_id i ss ≡ false
    → All (λ (sem : Semaphore). sem.sem_id ≢ i) ss
unfolding has_id
has_id-All i [] e = tt
has_id-All i (s ∷ ss) e = (λ same. ground arith, has_id-All i ss (ground arith))

free_id_from-free :
    (fuel k : ℕ) (ss : List Semaphore)
    → above k ss < fuel
    → (i : ℕ) × (free_id_from fuel k ss ≡ some i) × (has_id i ss ≡ false) × (k ≤ i) × (i < k + fuel)
unfolding free_id_from
free_id_from-free zero k ss h = absurd (omega arith)
free_id_from-free (suc fuel) k ss h = elim (Bool-cases (has_id k ss)) [
  | inl y ↦
      let (i, e, free, lo, hi) =
        free_id_from-free fuel (k + 1) ss (omega (arith, above-suc k ss y)) in
      (i, if-true _ _ _ y ∙ e, free, omega arith, omega arith)
  | inr z ↦ (k, if-false _ _ _ z, z, omega arith, omega arith)
]

-- While fewer than MAX_SEM semaphores are counted, the search of find_free_sem ends, with an id
-- from 10 to 40 that no semaphore in the table has.
pub find_free_sem-free :
    (s : Sync)
    → length s.semaphores ≡ max_sem
    → s.current_sem_amount ≢ max_sem
    → (i : ℕ) × (find_free_sem s ≡ returns i s)
      × All (λ (sem : Semaphore). sem.sem_id ≢ i) s.semaphores
      × (10 ≤ i)
      × (i ≤ 40)
unfolding find_free_sem
find_free_sem-free s t room =
    let (i, e, free, lo, hi) =
      free_id_from-free 31 10 s.semaphores (omega (arith, above-le-length 10 s.semaphores)) in
    (
      i,
      if-false (s.current_sem_amount == max_sem) _ _ (==_of_ne s.current_sem_amount max_sem room)
          ∙ ap (λ (r : Option ℕ). elim r [ none ↦ hang | some sem_id ↦ returns (sem_id % 2 ^ 8) s ])
              e
          ∙ ap (λ n. returns n s) (omega arith),
      has_id-All i s.semaphores free,
      lo,
      omega arith,
    )

lock-fault : (i : ℕ) (s : Sync) → get_elem? s.semaphores i ≡ none → lock i s ≡ fault
unfolding lock
lock-fault i s e = fault-step _ (ap (λ o. fetch o s) e)

-- With an id that no semaphore has, wait_sem, post_sem and close_sem access the table of 30
-- semaphores outside its bounds: their test for -1 never holds of a uint8_t.
pub has_id-fault :
    (sem_id rsp ss : ℕ) (s : Sync)
    → length s.semaphores ≡ max_sem
    → sem_id ≢ empty_sem
    → has_id sem_id s.semaphores ≡ false
    → (wait_sem rsp ss sem_id s ≡ fault)
      × (post_sem sem_id s ≡ fault)
      × (close_sem sem_id s ≡ fault)
unfolding wait_sem post_sem close_sem wait_at post_at close_at find_sem
has_id-fault sem_id rsp ss s t ne none_has =
    let away : find_sem sem_id s ≡ 255 = find_sem_from-none sem_id 0 s.semaphores none_has in
    let out : lock (find_sem sem_id s) s ≡ fault =
      ap (λ i. lock i s) away ∙ lock-fault 255 s (get_elem?-ge s.semaphores 255 (omega arith)) in
    (
      with_sem-find_sem (code err_invalid_sem_id) sem_id (wait_at rsp ss) s ne ∙ fault-step _ out,
      with_sem-find_sem err_invalid_sem_id sem_id post_at s ne ∙ fault-step _ out,
      with_sem-find_sem err_invalid_sem_id sem_id close_at s ne ∙ fault-step _ out,
    )
