-- ===== src/Semaphore/Sleep.antt =====
-- `wait_sem` of a semaphore at 0, and `post_sem` while processes wait.
use macac_os.Base.{
  ℕ, suc, some_inj, ◌^◌, ◌<◌, ◌≡◌, ◌≢◌, refl, sym, ap, ◌∙◌, some, List, ◌∷◌, returns, get_elem?,
  set, set-set, length, arith, Cmd, if-true, if-false, ltb,
}
use macac_os.Queue.{Queue, enqueue, dequeue, get_queue_length}
use macac_os.Queue.Refine.{
  IsValid, waiting, fifo_put, fifo_head, fifo_tail, length-waiting, enqueue-put, dequeue-head,
}
use macac_os.Scheduler.{
  Process, Scheduler, dead, paused_by_sem, ready, get_process_idx, get_pid, change_process_state,
  force_next_process,
}
use macac_os.Scheduler.Choose.{IsTable, change_process_state-found, found_slot, with_state}
use macac_os.Scheduler.Switch.{Switched}
use macac_os.Kernel.{Kernel, on_table}
use macac_os.Kernel.Lift.{next-step, on_table-returns, zoom-returns}
use macac_os.Semaphore.{Semaphore, Sync, success, on_waiters, on_processes}
use macac_os.Semaphore.Calls.{switched, wait_sem, wait_at, block_on, post_sem, post_at}
use macac_os.Semaphore.Slots.{OpenAt, with_sem-OpenAt}
use macac_os.Semaphore.Table.{put_sem, sem_at-returns, put_sem-slot, lock-put, unlock-put}
use macac_os.Semaphore.Block.{blocked, with_current, get_pid-current, blocked-Switched}

-- The process table.
abbrev pub table : Sync → Scheduler
table s = s.kernel.family.scheduler

abbrev pub with_table : Scheduler → Sync → Sync
with_table t s = record s {
  kernel = record (s.kernel) { family = record (s.kernel.family) { scheduler = t } };
}

module _ {A : Type 0} (m : Cmd Scheduler A) (s : Sync) {a : A} {t : Scheduler} where
  on_processes-returns : m (table s) ≡ returns a t → on_processes m s ≡ returns a (with_table t s)
  on_processes-returns e =
      zoom-returns (λ (s : Sync). s.kernel) (λ (k : Kernel) s. record s { kernel = k }) (on_table m)
        s (on_table-returns m s.kernel a t e)

abbrev with_waiters : Queue → Sync → Sync
with_waiters q s = record s { waiters = q }

module _ {A : Type 0} (m : Cmd Queue A) (s : Sync) {a : A} {q : Queue} where
  on_waiters-returns : m s.waiters ≡ returns a q → on_waiters m s ≡ returns a (with_waiters q s)
  on_waiters-returns e =
      zoom-returns (λ (s : Sync). s.waiters) (λ (q : Queue) s. record s { waiters = q }) m s e

-- What a call of `wait_sem` that blocks leaves behind.
pub record Blocked (rsp ss slot : ℕ) (sem : Semaphore) (p : Process) (s s' : Sync) (rsp' : ℕ)
    : Type 0 where
  pub same_value : s'.semaphores ≡ set s.semaphores slot (record sem { is_locked = 0 })
  pub queued : waiting s'.waiters ≡ fifo_put s.waiters.size p.pid (waiting s.waiters)
  pub queue_valid : IsValid s'.waiters
  pub next : Switched rsp ss (blocked p) (with_current (blocked p) (table s)) (table s') rsp'
  pub another : (table s').current_process_idx ≢ (table s).current_process_idx

-- The caller that blocks: it has the turn, and it is not the idle process.
pub record Caller (p : Process) (s : Scheduler) : Type 0 where
  pub has_turn : get_elem? s.process_list s.current_process_idx ≡ some p
  pub own_slot : get_process_idx p.pid s ≡ s.current_process_idx
  pub not_idle : s.current_process_idx ≢ get_process_idx s.idle_pid s

module _ (p : Process) (s : Scheduler) (v : IsTable s) (c : Caller p s) where
  own : get_elem? s.process_list (get_process_idx p.pid s) ≡ some p
  own = ap (get_elem? s.process_list) c.own_slot ∙ c.has_turn

  caller_alive : p.state ≢ dead
  caller_alive =
      let (q, slot, same, alive) = found_slot p.pid s (omega (arith, v.current_in, c.own_slot)) in
      let q_is : q ≡ p = some_inj q p (sym slot ∙ own) in
      λ e. alive (ap (λ (x : Process). x.state) q_is ∙ e)

  pause_caller :
      change_process_state p.pid paused_by_sem s
      ≡ returns tt (with_state s.current_process_idx paused_by_sem p s)
  pause_caller =
      change_process_state-found p.pid paused_by_sem s p own
      ∙ ap (λ i. returns tt (with_state i paused_by_sem p s)) c.own_slot

block_on-Blocked :
    (rsp ss slot : ℕ) (sem : Semaphore) (p : Process) (s : Sync)
    → get_elem? s.semaphores slot ≡ some sem
    → IsTable (table s)
    → IsValid s.waiters
    → Caller p (table s)
    → (s' : Sync) × (rsp' : ℕ) × (block_on rsp ss slot s ≡ returns (switched rsp') s')
      × Blocked rsp ss slot sem p s s' rsp'
unfolding block_on
block_on-Blocked rsp ss slot sem p s e v w c =
    let i = (table s).current_process_idx in
    let alive = caller_alive p (table s) v c in
    let (q, put, valid, holds, sizes) = enqueue-put p.pid w in
    let (t, rsp', done, is_switched, another) =
      blocked-Switched rsp ss (table s) p v c.has_turn alive c.not_idle in
    let s₁ = with_table (with_state i paused_by_sem p (table s)) s in
    let s₂ = with_waiters q s₁ in
    let s₃ = put_sem slot (record sem { is_locked = 0 }) s₂ in
    (
      with_table t s₃,
      rsp',
      next-step _ (on_processes-returns get_pid s (get_pid-current (table s) p c.has_turn)) (
          next-step _
            (on_processes-returns (change_process_state p.pid paused_by_sem) s
              (pause_caller p (table s) v c))
            (next-step _ (on_waiters-returns (enqueue p.pid) s₁ put) (
              next-step _ (unlock-put slot s₂ sem e)
                (next-step _ (on_processes-returns (force_next_process rsp ss) s₃ done) refl)))),
      record {
        same_value = refl;
        queued = holds;
        queue_valid = valid;
        next = is_switched;
        another = another;
      },
    )

-- What a Blocked call leaves behind is stated of the table before the lock was taken.
Blocked-lock :
    (rsp ss slot rsp' : ℕ) (sem : Semaphore) (p : Process) (s s' : Sync)
    → Blocked rsp ss slot
        (record sem { is_locked = 1 })
        p
        (put_sem slot (record sem { is_locked = 1 }) s)
        s'
        rsp'
    → Blocked rsp ss slot sem p s s' rsp'
Blocked-lock rsp ss slot rsp' sem p s s' b = record {
  same_value = b.same_value ∙ set-set s.semaphores slot _ _;
  queued = b.queued;
  queue_valid = b.queue_valid;
  next = b.next;
  another = b.another;
}

-- On a well-formed process table and a valid queue of waiters, wait_sem of an open semaphore at 0,
-- called by the process that has the turn and is not the idle one, keeps the value, queues the pid
-- of the caller behind those that wait (unless the queue is full), and gives the turn to another
-- process: the caller is paused with its stack pointer and segment stored, as next_process does it.
pub wait_sem-Blocked :
    (rsp ss sem_id slot : ℕ) (sem : Semaphore) (p : Process) (s : Sync)
    → OpenAt sem_id slot sem s
    → sem.sem_val ≡ 0
    → IsTable (table s)
    → IsValid s.waiters
    → Caller p (table s)
    → (s' : Sync) × (rsp' : ℕ) × (wait_sem rsp ss sem_id s ≡ returns (switched rsp') s')
      × Blocked rsp ss slot sem p s s' rsp'
unfolding wait_sem wait_at
wait_sem-Blocked rsp ss sem_id slot sem p s o none_left v w c =
    let locked : Semaphore = record sem { is_locked = 1 } in
    let s₁ = put_sem slot locked s in
    let at₁ = put_sem-slot slot s sem o.in_slot locked in
    let (s', rsp', done, b) = block_on-Blocked rsp ss slot locked p s₁ at₁ v w c in
    (
      s',
      rsp',
      with_sem-OpenAt _ sem_id (wait_at rsp ss) s slot sem o
          ∙ next-step _ (lock-put slot s sem o.in_slot o.unlocked) (
              next-step _ (sem_at-returns slot s₁ locked at₁) (
                ap (λ (m : Cmd Sync _). m s₁) (if-false (ltb 0 sem.sem_val) _ _ (ground arith))
                ∙ done)),
      Blocked-lock rsp ss slot rsp' sem p s s' b,
    )

-- post_sem of an open semaphore, while processes wait for any semaphore, keeps all values, takes
-- the first pid from the queue and makes that process ready, where it is in the table; nothing else
-- in the process table changes.
pub post_sem-wakes :
    (sem_id slot pid : ℕ) (rest : List ℕ) (sem : Semaphore) (q : Process) (s : Sync)
    → OpenAt sem_id slot sem s
    → IsValid s.waiters
    → waiting s.waiters ≡ pid ∷ rest
    → pid < 2 ^ 32
    → get_elem? (table s).process_list (get_process_idx pid (table s)) ≡ some q
    → (s' : Sync) × (post_sem sem_id s ≡ returns success s')
      × (s'.semaphores ≡ set s.semaphores slot (record sem { is_locked = 0 }))
      × (waiting s'.waiters ≡ rest)
      × IsValid s'.waiters
      × (table s' ≡ with_state (get_process_idx pid (table s)) ready q (table s))
unfolding post_sem post_at get_queue_length
post_sem-wakes sem_id slot pid rest sem q s o w first small here =
    let locked : Semaphore = record sem { is_locked = 1 } in
    let s₁ = put_sem slot locked s in
    let at₁ = put_sem-slot slot s sem o.in_slot locked in
    let (ws, taken, valid, left, sizes) = dequeue-head w in
    let counted : s.waiters.length ≡ suc (length rest) =
      sym (length-waiting s.waiters) ∙ ap length first in
    let s₂ = with_waiters ws s₁ in
    let s₃ = with_table (with_state (get_process_idx pid (table s)) ready q (table s)) s₂ in
    (
      put_sem slot (record sem { is_locked = 0 }) s₃,
      with_sem-OpenAt _ sem_id post_at s slot sem o
          ∙ next-step _ (lock-put slot s sem o.in_slot o.unlocked) (
              next-step _
                (ap (λ (m : Cmd Sync _). m s₁) (if-true (ltb 0 s.waiters.length) _ _ (ground arith))
                  ∙ next-step _
                      (on_waiters-returns dequeue s₁
                        (taken ∙ ap (λ l. returns (fifo_head l) ws) first))
                      (ap (λ n. on_processes (change_process_state n ready) s₂) (omega arith)
                        ∙ on_processes-returns (change_process_state pid ready) s₂
                            (change_process_state-found pid ready (table s) q here)))
                (next-step _ (unlock-put slot s₃ locked at₁) refl)),
      set-set s.semaphores slot _ _,
      left ∙ ap fifo_tail first,
      valid,
      refl,
    )
