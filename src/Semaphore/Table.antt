-- ===== src/Semaphore/Table.antt =====
-- The accesses of semaphore.c to the slots of its table.
use macac_os.Base.{
  ℕ, ◌≡◌, ap, ◌∙◌, some, returns, get_elem?, get_elem?-set_self, set, set-set, arith, fetch, Cmd,
  if-true, lt_of_get_elem?, ◌==◌,
}
use macac_os.Semaphore.{Semaphore, Sync, sem_at, change_sem, lock, unlock}
use macac_os.Kernel.Lift.{next-step}

-- The table with one slot written.
abbrev pub put_sem : ℕ → Semaphore → Sync → Sync
put_sem slot sem s = record s { semaphores = set s.semaphores slot sem }

module _ (slot : ℕ) (s : Sync) (sem : Semaphore) (e : get_elem? s.semaphores slot ≡ some sem) where
  pub sem_at-returns : sem_at slot s ≡ returns sem s
  unfolding sem_at
  sem_at-returns = ap (λ o. fetch o s) e

  pub change_sem-put :
      (f : Semaphore → Semaphore) → change_sem slot f s ≡ returns tt (put_sem slot (f sem) s)
  unfolding change_sem
  change_sem-put f = rw (e, change_sem)

  pub put_sem-slot : (q : Semaphore) → get_elem? (put_sem slot q s).semaphores slot ≡ some q
  put_sem-slot q = get_elem?-set_self s.semaphores slot q (lt_of_get_elem? s.semaphores slot sem e)

  pub lock-put :
      sem.is_locked ≡ 0 → lock slot s ≡ returns tt (put_sem slot (record sem { is_locked = 1 }) s)
  unfolding lock
  lock-put free = next-step _ sem_at-returns (
      ap (λ (m : Cmd Sync (Unit {0})). m s) (if-true (sem.is_locked == 0) _ _ (ground arith))
      ∙ change_sem-put (λ q. record q { is_locked = 1 }))

  pub unlock-put : unlock slot s ≡ returns tt (put_sem slot (record sem { is_locked = 0 }) s)
  unfolding unlock
  unlock-put = change_sem-put (λ q. record q { is_locked = 0 })

pub put_sem-put_sem :
    (slot : ℕ) (p q : Semaphore) (s : Sync) → put_sem slot q (put_sem slot p s) ≡ put_sem slot q s
put_sem-put_sem slot p q s = ap (λ l. record s { semaphores = l }) (set-set s.semaphores slot p q)
