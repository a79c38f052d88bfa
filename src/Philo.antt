-- ===== src/Philo.antt =====
-- Userland/SampleCodeModule/phylo.c: the dining philosophers, by what stands between
-- `sys_wait_sem(MUTEX)` and `sys_post_sem(MUTEX)`. A call of `sys_post_sem` in there adds one to the
-- value.
pub mod Seats
pub mod Safe
pub mod Trace
mod Tests
use macac_os.Base.{
  ℕ, suc, ◌+◌, ◌-◌, ◌%◌, ◌<◌, ◌≡◌, Bool, true, false, not, ◌&&◌, ◌==◌, if◌then◌else◌,
}

abbrev pub max_phylos : ℕ
max_phylos = 10

abbrev pub min_phylos : ℕ
min_phylos = 5

-- The values of `state`.
abbrev pub thinking : ℕ
thinking = 0

abbrev pub hungry : ℕ
hungry = 1

abbrev pub eating : ℕ
eating = 2

-- The arrays, with the values of the semaphores `s[i]` and `safe[i]`. Indices are below `curr_philos`.
pub record Dinner : Type 0 where
  pub state : ℕ → ℕ
  pub s : ℕ → ℕ
  pub safe : ℕ → ℕ
  pub curr_philos : ℕ

abbrev pub update {ℓ} : {A : Type ℓ} → (ℕ → A) → ℕ → A → ℕ → A
update f i v j = if j == i then v else f j

-- The macros `LEFT` and `RIGHT`.
unfoldable pub left : ℕ → ℕ → ℕ
left i curr_philos = (i + curr_philos - 1) % curr_philos

unfoldable pub right : ℕ → ℕ → ℕ
right i curr_philos = (i + 1) % curr_philos

abbrev pub may_eat : ℕ → Dinner → Bool
may_eat i d =
    d.state i == hungry
    && not (d.state (left i d.curr_philos) == eating)
    && not (d.state (right i d.curr_philos) == eating)

unfoldable pub test : ℕ → Dinner → Dinner
test i d =
    if may_eat i d
    then record d { state = update d.state i eating; s = update d.s i (d.s i + 1) }
    else d

-- `take_forks` up to `sys_wait_sem(s[i])`.
unfoldable pub take_forks : ℕ → Dinner → Dinner
unfolding test
take_forks i d = test i (record d { state = update d.state i hungry })

unfoldable pub put_forks : ℕ → Dinner → Dinner
unfolding test
put_forks i d =
    let d₁ : Dinner = record d { state = update d.state i thinking } in
    test (right i d.curr_philos) (test (left i d.curr_philos) d₁)

-- `add_philo` with room, for semaphores and a process that are created.
unfoldable pub add_philo : Dinner → Dinner
add_philo d = record d {
  state = update d.state d.curr_philos thinking;
  s = update d.s d.curr_philos 0;
  safe = update d.safe d.curr_philos 1;
  curr_philos = d.curr_philos + 1;
}

-- `remove_philo` of more than the least number, once `safe` of the last one is free.
unfoldable pub remove_philo : Dinner → Dinner
remove_philo d = record d {
  safe = update d.safe (d.curr_philos - 1) 0;
  curr_philos = d.curr_philos - 1;
}

-- A critical section of MUTEX, run as a whole. Whether the semaphores keep two of them from
-- overlapping is not part of the relation.
pub data Section : Dinner → Dinner → Type 0 where
  take : (i : ℕ) (d : Dinner) → i < d.curr_philos → Section d (take_forks i d)
  put : (i : ℕ) (d : Dinner) → i < d.curr_philos → Section d (put_forks i d)
  add : (d : Dinner) → d.curr_philos < max_phylos → Section d (add_philo d)

-- Any number of them, one after the other.
pub data Sections : Dinner → Dinner → Type 0 where
  none : (d : Dinner) → Sections d d
  more : (d e f : Dinner) → Sections d e → Section e f → Sections d f
