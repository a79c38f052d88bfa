-- ===== src/Philo/Tests.antt =====
-- Critical sections of five philosophers, and what the removal of one does to the others.
use macac_os.Base.{◌≡◌, ◌≢◌, refl, arith, ◌==◌, if◌then◌else◌}
use macac_os.Philo.{
  Dinner, thinking, hungry, eating, left, right, test, take_forks, put_forks, remove_philo, take,
  put, Sections, none, more,
}
use macac_os.Philo.Safe.{IsTable}
use macac_os.Philo.Trace.{Sections-neighbours}

abbrev five : Dinner
five = record { state = λ i. thinking; s = λ i. 0; safe = λ i. 1; curr_philos = 5 }

five-IsTable : IsTable five
five-IsTable = record { enough = omega arith; apart = λ i lt e. absurd (omega arith) }

-- Philosopher 1 asks while 0 has the forks, and gets them when 0 puts them down.
abbrev taken : Dinner
taken = take_forks 1 (take_forks 0 five)

waits : taken.state 1 ≡ hungry
unfolding take_forks test left right
waits = refl

abbrev handed_on : Dinner
handed_on = put_forks 0 taken

served : handed_on.state 1 ≡ eating
unfolding take_forks put_forks test left right
served = refl

handed : Sections five handed_on
unfolding take_forks put_forks test left right
handed =
    more five taken handed_on
      (more five (take_forks 0 five) taken
        (more five five (take_forks 0 five) (none five) (take 0 five (omega arith)))
        (take 1 (take_forks 0 five) (omega arith)))
      (put 0 taken (omega arith))

seated : handed_on.curr_philos ≡ 5
unfolding take_forks put_forks test left right
seated = refl

Sections-neighbours_example : handed_on.state (right 1 handed_on.curr_philos) ≢ eating
Sections-neighbours_example =
    Sections-neighbours five handed_on 1 five-IsTable handed (omega (arith, seated)) served

-- Philosophers 0 and 4 of six eat, with philosopher 5 between them.
abbrev two_of_six : Dinner
two_of_six = record five {
  state = λ i. if i == 0 then eating else if i == 4 then eating else thinking;
  curr_philos = 6;
}

removed_between :
    (remove_philo two_of_six).state (right 4 (remove_philo two_of_six).curr_philos) ≡ eating
unfolding remove_philo right
removed_between = refl
