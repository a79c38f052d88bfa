-- ===== src/Semaphore/Wait.antt =====
-- `wait_sem` and `post_sem` of a semaphore that stands in the table.
use macac_os.Base.{
  ℕ, ◌+◌, ◌-◌, ◌%◌, ◌^◌, ◌<◌, ◌≡◌, ap, ◌∙◌, returns, arith, Cmd, if-true, if-false, ltb,
}
use macac_os.Queue.{get_queue_length}
use macac_os.Semaphore.{Semaphore, Sync, success}
use macac_os.Semaphore.Calls.{code, wait_sem, wait_at, post_sem, post_at}
use macac_os.Semaphore.Slots.{OpenAt, with_sem-OpenAt}
use macac_os.Semaphore.Table.{
  put_sem, sem_at-returns, change_sem-put, put_sem-slot, lock-put, unlock-put, put_sem-put_sem,
}
use macac_os.Kernel.Lift.{next-step}

-- A slot that takes three writes holds the last one.
module _ (slot : ℕ) (s : Sync) where
  three :
      (p q r : Semaphore) → put_sem slot r (put_sem slot q (put_sem slot p s)) ≡ put_sem slot r s
  three p q r = put_sem-put_sem slot q r (put_sem slot p s) ∙ put_sem-put_sem slot p r s

-- wait_sem of an open semaphore above 0 returns SUCCESS and takes one from its value; nothing else
-- changes.
pub wait_sem-takes :
    (rsp ss sem_id slot : ℕ) (sem : Semaphore) (s : Sync)
    → OpenAt sem_id slot sem s
    → 0 < sem.sem_val
    → wait_sem rsp ss sem_id s
      ≡ returns
          (code success)
          (put_sem slot (record sem { sem_val = sem.sem_val - 1; is_locked = 0 }) s)
unfolding wait_sem wait_at
wait_sem-takes rsp ss sem_id slot sem s o some_left =
    let locked : Semaphore = record sem { is_locked = 1 } in
    let taken : Semaphore = record locked { sem_val = sem.sem_val - 1 } in
    let s₁ = put_sem slot locked s in
    let at₁ = put_sem-slot slot s sem o.in_slot locked in
    let s₂ = put_sem slot taken s₁ in
    let at₂ = put_sem-slot slot s₁ locked at₁ taken in
    with_sem-OpenAt _ sem_id (wait_at rsp ss) s slot sem o
    ∙ next-step _ (lock-put slot s sem o.in_slot o.unlocked) (
        next-step _ (sem_at-returns slot s₁ locked at₁) (
          ap (λ (m : Cmd Sync _). m s₁) (if-true (ltb 0 sem.sem_val) _ _ (ground arith))
          ∙ next-step _ (change_sem-put slot s₁ locked at₁ _) (
              next-step _ (unlock-put slot s₂ taken at₂)
                (ap (returns (code success)) (three slot s locked taken _)))))

-- post_sem of a semaphore while no process waits for any.
pub post_sem-adds :
    (sem_id slot : ℕ) (sem : Semaphore) (s : Sync)
    → OpenAt sem_id slot sem s
    → get_queue_length s.waiters ≡ 0
    → post_sem sem_id s
      ≡ returns success
          (put_sem slot (record sem { sem_val = (sem.sem_val + 1) % 2 ^ 64; is_locked = 0 }) s)
unfolding post_sem post_at
post_sem-adds sem_id slot sem s o none_waits =
    let locked : Semaphore = record sem { is_locked = 1 } in
    let added : Semaphore = record locked { sem_val = (sem.sem_val + 1) % 2 ^ 64 } in
    let s₁ = put_sem slot locked s in
    let at₁ = put_sem-slot slot s sem o.in_slot locked in
    let s₂ = put_sem slot added s₁ in
    let at₂ = put_sem-slot slot s₁ locked at₁ added in
    with_sem-OpenAt _ sem_id post_at s slot sem o
    ∙ next-step _ (lock-put slot s sem o.in_slot o.unlocked) (
        next-step _
          (ap (λ (m : Cmd Sync _). m s₁)
              (if-false (ltb 0 (get_queue_length s.waiters)) _ _ (ground arith))
            ∙ change_sem-put slot s₁ locked at₁ _)
          (next-step _ (unlock-put slot s₂ added at₂)
            (ap (returns success) (three slot s locked added _))))
