-- ===== src/Philo/Seats.antt =====
-- Neighbours at the table.
use native.Mathlib.Nat.{mod-eq_of_lt}
use macac_os.Base.{
  ℕ, ◌+◌, ◌-◌, ◌≤◌, ◌<◌, ◌≡◌, ◌≢◌, inl, inr, ap, ◌∙◌, arith, Bool-cases, eq_of_==, ◌==◌,
}
use macac_os.Philo.{left, right}

pub right_next : (i n : ℕ) → i + 1 < n → right i n ≡ i + 1
unfolding right
right_next i n h = mod-eq_of_lt h

pub right_last : (i n : ℕ) → i + 1 ≡ n → right i n ≡ 0
unfolding right
right_last i n h = grind arith

pub left_first : (n : ℕ) → 0 < n → left 0 n ≡ n - 1
unfolding left
left_first n h = grind arith

pub left_suc : (i n : ℕ) → i + 1 < n → left (i + 1) n ≡ i
unfolding left
left_suc i n h = grind arith

pub right-lt : (i n : ℕ) → i < n → right i n < n
unfolding right
right-lt i n h = grind arith

pub left-lt : (i n : ℕ) → i < n → left i n < n
unfolding left
left-lt i n h = grind arith

pub left-right : (i n : ℕ) → i < n → left (right i n) n ≡ i
left-right i n h = elim (Bool-cases (i + 1 == n)) [
  | inl last ↦
      ap (λ j. left j n) (right_last i n (eq_of_== (i + 1) n last))
      ∙ left_first n (omega arith)
      ∙ ground arith
  | inr inside ↦
      let next : i + 1 < n = ground arith in
      ap (λ j. left j n) (right_next i n next) ∙ left_suc i n next
]

pub right-ne : (i n : ℕ) → i < n → 2 ≤ n → right i n ≢ i
right-ne i n h two = elim (Bool-cases (i + 1 == n)) [
  | inl last ↦ λ e. absurd (ground (arith, right_last i n (eq_of_== (i + 1) n last)))
  | inr inside ↦
      let next : i + 1 < n = ground arith in λ e. absurd (omega (arith, right_next i n next))
]
