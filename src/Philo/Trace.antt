-- ===== src/Philo/Trace.antt =====
-- Sequences of critical sections: neighbours are not EATING at the same time.
use macac_os.Base.{
  ℕ, ◌+◌, ◌<◌, ◌≡◌, ◌≢◌, inl, inr, sym, ap, ◌∙◌, arith, Bool-cases, ◌==◌, eq_of_==, ne_of_==,
}
use macac_os.Philo.{
  Dinner, thinking, hungry, eating, update, left, right, take_forks, put_forks, add_philo, Section,
  take, put, add, Sections, none, more,
}
use macac_os.Philo.Seats.{right_next}
use macac_os.Philo.Safe.{Apart, IsTable, update_self, update_ne, test-IsTable, idle-IsTable}

-- With one place more, whose entry is not EATING.
Apart-suc : (n : ℕ) (state : ℕ → ℕ) → Apart n state → Apart (n + 1) (update state n thinking)
Apart-suc n state a i lt e e' = elim (Bool-cases (i == n)) [
  | inl last ↦ absurd (
      omega (
        arith,
        sym (update_self state n thinking)
            ∙ ap (update state n thinking) (sym (eq_of_== i n last))
            ∙ e,
      ))
  | inr other ↦
      let before : i < n = ground arith in
      let here : state i ≡ eating = sym (update_ne state n i thinking (omega arith)) ∙ e in
      let next : update state n thinking (i + 1) ≡ eating =
        ap (update state n thinking) (sym (right_next i (n + 1) (omega arith))) ∙ e' in
      elim (Bool-cases (i + 1 == n)) [
        | inl end ↦ absurd (
            omega (
              arith,
              sym (update_self state n thinking)
                  ∙ ap (update state n thinking) (sym (eq_of_== (i + 1) n end))
                  ∙ next,
            ))
        | inr inside ↦
            let there : i + 1 ≢ n = ne_of_== (i + 1) n inside in
            a i before here (
              ap state (right_next i n (omega arith))
              ∙ sym (update_ne state n (i + 1) thinking there)
              ∙ next)
      ]
]

Section-IsTable : (d e : Dinner) → Section d e → IsTable d → IsTable e
unfolding take_forks put_forks add_philo
Section-IsTable _ _ (take i d lt) v =
    test-IsTable i (record d { state = update d.state i hungry })
      (idle-IsTable i hungry d (omega arith) v)
Section-IsTable _ _ (put i d lt) v = test-IsTable (right i d.curr_philos) _ (
    test-IsTable (left i d.curr_philos) (record d { state = update d.state i thinking })
      (idle-IsTable i thinking d (omega arith) v))
Section-IsTable _ _ (add d room) v = record {
  enough = omega (arith, v.enough);
  apart = Apart-suc d.curr_philos d.state v.apart;
}

Sections-IsTable : (d e : Dinner) → Sections d e → IsTable d → IsTable e
Sections-IsTable _ _ (none d) v = v
Sections-IsTable _ _ (more d e f before section) v =
    Section-IsTable e f section (Sections-IsTable d e before v)

-- From a table of at least two philosophers with no two neighbours EATING, no sequence of critical
-- sections of take_forks, put_forks and add_philo, each of them run as a whole, leads to a state
-- with two neighbours EATING. That the semaphores keep the sections apart is not part of it.
pub Sections-neighbours :
    (d e : Dinner) (i : ℕ)
    → IsTable d
    → Sections d e
    → i < e.curr_philos
    → e.state i ≡ eating
    → e.state (right i e.curr_philos) ≢ eating
Sections-neighbours d e i v sections lt here = (Sections-IsTable d e sections v).apart i lt here
