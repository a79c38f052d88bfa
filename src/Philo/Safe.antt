-- ===== src/Philo/Safe.antt =====
-- The table of the philosophers, and what `test` keeps of it.
use macac_os.Base.{
  ℕ, ◌+◌, ◌≤◌, ◌<◌, ◌≡◌, ◌≢◌, inl, inr, sym, ap, ◌∙◌, subst, arith, ◌==◌, Bool-cases, if-true,
  if-false, eq_of_==, ne_of_==,
}
use macac_os.Philo.{Dinner, eating, update, left, right, may_eat, test}
use macac_os.Philo.Seats.{left-right, right-ne}

-- No two neighbours among the first `n` are EATING.
abbrev pub Apart : ℕ → (ℕ → ℕ) → Type 0
Apart n state = (i : ℕ) → i < n → state i ≡ eating → state (right i n) ≢ eating

pub record IsTable (d : Dinner) : Type 0 where
  pub enough : 2 ≤ d.curr_philos
  pub apart : Apart d.curr_philos d.state

-- Reading an array behind a write.
module _ {ℓ} {A : Type ℓ} where
  pub update_self : (f : ℕ → A) (i : ℕ) (v : A) → update f i v i ≡ v
  update_self f i v = if-true (i == i) _ _ (ground arith)

  pub update_ne : (f : ℕ → A) (i j : ℕ) (v : A) → j ≢ i → update f i v j ≡ f j
  update_ne f i j v ne = if-false (j == i) _ _ (ground arith)

-- An entry that another value than EATING was written to is not EATING.
still_eating :
    (j v i : ℕ) (state : ℕ → ℕ) → v ≢ eating → update state j v i ≡ eating → state i ≡ eating
still_eating j v i state ne e = elim (Bool-cases (i == j)) [
  | inl same ↦ absurd (ne (sym (if-true (i == j) _ _ same) ∙ e))
  | inr other ↦ sym (if-false (i == j) _ _ other) ∙ e
]

pub Apart-update :
    (n j v : ℕ) (state : ℕ → ℕ) → v ≢ eating → Apart n state → Apart n (update state j v)
Apart-update n j v state ne a i lt e e' =
    a i lt (still_eating j v i state ne e) (still_eating j v (right i n) state ne e')

Apart-eating :
    (n j : ℕ) (state : ℕ → ℕ)
    → 2 ≤ n
    → state (left j n) ≢ eating
    → state (right j n) ≢ eating
    → Apart n state
    → Apart n (update state j eating)
Apart-eating n j state two no_left no_right a i lt e e' = elim (Bool-cases (i == j)) [
  | inl same ↦
      let is : i ≡ j = eq_of_== i j same in
      no_right (
        ap (λ k. state (right k n)) (sym is)
        ∙ sym (update_ne state j (right i n) eating (λ back. right-ne i n lt two (back ∙ sym is)))
        ∙ e')
  | inr other ↦
      let here : state i ≡ eating = sym (update_ne state j i eating (ne_of_== i j other)) ∙ e in
      elim (Bool-cases (right i n == j)) [
        | inl beside ↦ no_left (
            ap (λ k. state (left k n)) (sym (eq_of_== (right i n) j beside))
            ∙ ap state (left-right i n lt)
            ∙ here)
        | inr away ↦
            a i lt here
              (sym (update_ne state j (right i n) eating (ne_of_== (right i n) j away)) ∙ e')
      ]
]

pub test-IsTable : (j : ℕ) (d : Dinner) → IsTable d → IsTable (test j d)
unfolding test
test-IsTable j d v = elim (Bool-cases (may_eat j d)) [
  | inl may ↦
      let d' : Dinner = record d {
        state = update d.state j eating;
        s = update d.s j (d.s j + 1);
      } in
      subst IsTable (sym (if-true (may_eat j d) d' d may)) (record {
        enough = v.enough;
        apart = Apart-eating d.curr_philos j d.state v.enough (ground arith) (ground arith) v.apart;
      })
  | inr not_yet ↦
      subst IsTable
        (sym (
          if-false (may_eat j d)
            (record d { state = update d.state j eating; s = update d.s j (d.s j + 1) }) d not_yet))
        v
]

-- An entry that another value than EATING is written to.
pub idle-IsTable :
    (i v : ℕ) (d : Dinner)
    → v ≢ eating
    → IsTable d
    → IsTable (record d { state = update d.state i v })
idle-IsTable i v d ne t = record {
  enough = t.enough;
  apart = Apart-update d.curr_philos i v d.state ne t.apart;
}
