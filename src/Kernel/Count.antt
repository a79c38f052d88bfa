-- ===== src/Kernel/Count.antt =====
-- The variable `dim` of scheduler.c and the live slots of the process table.
use macac_os.Base.{
  ℕ, zero, suc, ◌+◌, ◌<◌, ◌≤◌, ◌≡◌, refl, some, List, [], ◌∷◌, ◌==◌, if◌then◌else◌, get_elem?, set,
  length, arith, inl, inr, Bool-cases, eq_of_==,
}
use macac_os.Scheduler.{Process, Scheduler, dead, max_processes}
use macac_os.Kernel.{first_free}

abbrev pub alive : Process → ℕ
alive p = if p.state == dead then 0 else 1

-- The number of slots in use.
abbrev pub live_slots : List Process → ℕ
live_slots [] = 0
live_slots (p ∷ ps) = alive p + live_slots ps

-- The table has its size, and `dim` counts the slots in use.
pub record IsCounted (s : Scheduler) : Type 0 where
  pub slots : length s.process_list ≡ max_processes
  pub counts : s.dim ≡ live_slots s.process_list

pub live_slots-set :
    (ps : List Process) (i : ℕ) (p q : Process)
    → get_elem? ps i ≡ some p
    → live_slots (set ps i q) + alive p ≡ live_slots ps + alive q
live_slots-set [] i p q e = absurd (ground arith)
live_slots-set (x ∷ ps) zero p q e = let same : x ≡ p = ground arith in rw same (omega arith)
live_slots-set (x ∷ ps) (suc i) p q e = omega (arith, live_slots-set ps i p q e)

pub live_slots-le : (ps : List Process) → live_slots ps ≤ length ps
live_slots-le [] = omega arith
live_slots-le (p ∷ ps) = ground (arith, live_slots-le ps)

-- As long as not every slot is in use the search finds one that is not.
pub first_free-dead :
    (ps : List Process)
    → live_slots ps < length ps
    → (i : ℕ) × (first_free ps ≡ some i)
      × (i < length ps)
      × (p : Process) × (get_elem? ps i ≡ some p)
      × (p.state ≡ dead)
unfolding first_free
first_free-dead [] h = absurd (omega arith)
first_free-dead (p ∷ ps) h = elim (Bool-cases (p.state == dead)) [
  | inl y ↦ (0, rw y, omega arith, p, refl, eq_of_== p.state dead y)
  | inr z ↦
      let (i, e, lt, q, slot, is) = first_free-dead ps (ground arith) in
      (suc i, rw z (rw e), omega arith, q, slot, is)
]
