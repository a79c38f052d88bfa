-- ===== src/Pipes/Counts.antt =====
-- The two semaphores of a pipe, by what they count.
use macac_os.Base.{
  ℕ, zero, suc, ◌+◌, ◌-◌, ◌^◌, ◌<◌, ◌≡◌, ◌≢◌, refl, sym, ap, ◌∙◌, some, List, [], ◌∷◌, returns,
  get_elem?, get_elem?-set_self, get_elem?-set_ne, lt_of_get_elem?, set, arith,
}
use macac_os.Queue.{get_queue_length}
use macac_os.Semaphore.{Semaphore, Sync, find_sem, find_sem_from, success}
use macac_os.Semaphore.Calls.{code, wait_sem, post_sem}
use macac_os.Semaphore.Slots.{OpenAt}
use macac_os.Semaphore.Table.{put_sem}
use macac_os.Semaphore.Wait.{wait_sem-takes, post_sem-adds}

-- Writes that keep the id of a slot keep what the searches find.
find_sem_from-set :
    (id i k : ℕ) (p q : Semaphore) (ss : List Semaphore)
    → get_elem? ss k ≡ some p
    → q.sem_id ≡ p.sem_id
    → find_sem_from id i (set ss k q) ≡ find_sem_from id i ss
unfolding find_sem_from
find_sem_from-set id i k p q [] e a = refl
find_sem_from-set id i zero p q (x ∷ ss) e a = ground arith
find_sem_from-set id i (suc k) p q (x ∷ ss) e a =
    ground (arith, find_sem_from-set id (i + 1) k p q ss e a)

OpenAt-self :
    (id slot : ℕ) (sem q : Semaphore) (s : Sync)
    → OpenAt id slot sem s
    → q.sem_id ≡ sem.sem_id
    → q.is_locked ≡ 0
    → OpenAt id slot q (put_sem slot q s)
unfolding find_sem
OpenAt-self id slot sem q s o same free = record {
  nonempty = o.nonempty;
  found = find_sem_from-set id 0 slot sem q s.semaphores o.in_slot same ∙ o.found;
  in_slot =
      get_elem?-set_self s.semaphores slot q (lt_of_get_elem? s.semaphores slot sem o.in_slot);
  in_table = o.in_table;
  unlocked = free;
}

OpenAt-other :
    (id slot k : ℕ) (sem p q : Semaphore) (s : Sync)
    → OpenAt id slot sem s
    → get_elem? s.semaphores k ≡ some p
    → q.sem_id ≡ p.sem_id
    → k ≢ slot
    → OpenAt id slot sem (put_sem k q s)
unfolding find_sem
OpenAt-other id slot k sem p q s o e same ne = record {
  nonempty = o.nonempty;
  found = find_sem_from-set id 0 k p q s.semaphores e same ∙ o.found;
  in_slot = get_elem?-set_ne s.semaphores k slot q ne ∙ o.in_slot;
  in_table = o.in_table;
  unlocked = o.unlocked;
}

-- Two semaphores with their values, while no process waits for any.
pub record Counts (id id' n n' : ℕ) (s : Sync) : Type 0 where
  pub slot : ℕ
  pub slot' : ℕ
  pub sem : Semaphore
  pub sem' : Semaphore
  pub opened : OpenAt id slot sem s
  pub opened' : OpenAt id' slot' sem' s
  pub counts : sem.sem_val ≡ n
  pub counts' : sem'.sem_val ≡ n'
  pub apart : slot ≢ slot'
  pub nobody : s.waiters.length ≡ 0

pub Counts-swap : (id id' n n' : ℕ) (s : Sync) → Counts id id' n n' s → Counts id' id n' n s
Counts-swap id id' n n' s c = record {
  slot = c.slot';
  slot' = c.slot;
  sem = c.sem';
  sem' = c.sem;
  opened = c.opened';
  opened' = c.opened;
  counts = c.counts';
  counts' = c.counts;
  apart = λ e. c.apart (sym e);
  nobody = c.nobody;
}

-- The first of the two with a new value.
recount :
    (id id' n n' v : ℕ) (s : Sync) (c : Counts id id' n n' s)
    → Counts id id' v n' (put_sem c.slot (record (c.sem) { sem_val = v; is_locked = 0 }) s)
recount id id' n n' v s c =
    let q : Semaphore = record (c.sem) { sem_val = v; is_locked = 0 } in
    record {
      slot = c.slot;
      slot' = c.slot';
      sem = q;
      sem' = c.sem';
      opened = OpenAt-self id c.slot c.sem q s c.opened refl refl;
      opened' =
          OpenAt-other id' c.slot' c.slot c.sem' c.sem q s c.opened' c.opened.in_slot refl c.apart;
      counts = refl;
      counts' = c.counts';
      apart = c.apart;
      nobody = c.nobody;
    }

pub wait_sem-Counts :
    (rsp ss id id' n n' : ℕ) (s : Sync)
    → Counts id id' n n' s
    → 0 < n
    → (s' : Sync) × (wait_sem rsp ss id s ≡ returns (code success) s') × Counts id id' (n - 1) n' s'
wait_sem-Counts rsp ss id id' n n' s c some_left =
    let e = wait_sem-takes rsp ss id c.slot c.sem s c.opened (omega (arith, c.counts)) in
    (
      _,
      e
          ∙ ap
              (λ v.
                returns (code success)
                  (put_sem c.slot (record (c.sem) { sem_val = v; is_locked = 0 }) s))
              (ap (λ (v : ℕ). v - 1) c.counts),
      recount id id' n n' (n - 1) s c,
    )

pub post_sem-Counts :
    (id id' n n' : ℕ) (s : Sync)
    → Counts id id' n n' s
    → n + 1 < 2 ^ 64
    → (s' : Sync) × (post_sem id s ≡ returns success s') × Counts id id' (n + 1) n' s'
unfolding get_queue_length
post_sem-Counts id id' n n' s c small = (
  _,
  post_sem-adds id c.slot c.sem s c.opened c.nobody
      ∙ ap (λ v. returns success (put_sem c.slot (record (c.sem) { sem_val = v; is_locked = 0 }) s))
          (omega (arith, c.counts)),
  recount id id' n n' (n + 1) s c,
)

pub Counts-cast :
    (id id' n n' m m' : ℕ) (s : Sync)
    → n ≡ m
    → n' ≡ m'
    → Counts id id' n n' s
    → Counts id id' m m' s
Counts-cast id id' n n' m m' s e e' c = record {
  slot = c.slot;
  slot' = c.slot';
  sem = c.sem;
  sem' = c.sem';
  opened = c.opened;
  opened' = c.opened';
  counts = c.counts ∙ e;
  counts' = c.counts' ∙ e';
  apart = c.apart;
  nobody = c.nobody;
}
