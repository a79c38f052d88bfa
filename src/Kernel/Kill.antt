-- ===== src/Kernel/Kill.antt =====
-- `kill_process`: when it refuses, and what it does to another process.
use macac_os.Base.{
  ℕ, ◌<◌, ◌≡◌, ◌≢◌, ◌⊎◌, sym, ap, ◌∙◌, true, false, some, get_elem?, length, arith, returns, Cmd,
  if-true, if-false, ==_of_ne,
}
use macac_os.Base.Int.{eq_ℤ, signed8, minus_one, signed8_nonneg}
use macac_os.Scheduler.{Process, Scheduler, dead, max_processes, get_process_idx}
use macac_os.Scheduler.Switch.{in_range}
use macac_os.Scheduler.Missing.{Missing, get_process_idx-Missing}
use macac_os.Children.Wake.{parent_of}
use macac_os.Kernel.{Kernel}
use macac_os.Kernel.Lift.{next-step}
use macac_os.Kernel.Count.{IsCounted}
use macac_os.Kernel.End.{Killed, killed, cant_kill_immortal_process, no_process, kill_process}
use macac_os.Kernel.Death.{IsParams, buried, marked, destroy_process-buried, slot_of-returns}

-- Why `kill_process` refuses a pid, and its result.
pub data Refused (pid : ℕ) (s : Scheduler) (r : Killed) : Type 0 where
  unknown : Missing pid s → r ≡ no_process → Refused pid s r
  immortal :
      (p : Process)
      → get_elem? s.process_list (get_process_idx pid s) ≡ some p
      → p.immortal ≡ true
      → r ≡ cant_kill_immortal_process
      → Refused pid s r

found_idx :
    (pid : ℕ) (s : Scheduler) (p : Process)
    → length s.process_list ≡ max_processes
    → get_elem? s.process_list (get_process_idx pid s) ≡ some p
    → eq_ℤ (signed8 (get_process_idx pid s)) minus_one ≡ false
found_idx pid s p t e =
    let lt = in_range s.process_list (get_process_idx pid s) p e in
    ap (λ z. eq_ℤ z minus_one) (signed8_nonneg (get_process_idx pid s) (omega arith))

-- On a table of 100 slots a pid that no live process has and the pid of an immortal process are
-- refused by kill_process with their codes, and nothing changes.
pub kill_process-Refused :
    (rsp ss pid : ℕ) (k : Kernel) (r : Killed)
    → length k.family.scheduler.process_list ≡ max_processes
    → Refused pid k.family.scheduler r
    → kill_process rsp ss pid k ≡ returns (r, rsp) k
unfolding kill_process
kill_process-Refused rsp ss pid k r t (unknown m is) =
    let none_found : eq_ℤ (signed8 (get_process_idx pid k.family.scheduler)) minus_one ≡ true =
      ap (λ i. eq_ℤ (signed8 i) minus_one) (get_process_idx-Missing pid k.family.scheduler m) in
    if-true _ _ _ none_found ∙ ap (λ r. returns (r, rsp) k) (sym is)
kill_process-Refused rsp ss pid k r t (immortal p e never is) =
    if-false _ _ _ (found_idx pid k.family.scheduler p t e)
    ∙ next-step _ (slot_of-returns (get_process_idx pid k.family.scheduler) k p e) (
        ap (λ (m : Cmd Kernel (Killed × ℕ)). m k) (if-true _ _ _ never)
        ∙ ap (λ r. returns (r, rsp) k) (sym is))

-- On a table that dim counts, killing a live mortal process that does not have the turn, whose
-- parameters are a well-formed array and whose parent (if it is a running child) lives, frees its
-- slot, keeps dim the count of the slots in use, and leaves the turn and the stack pointer of the
-- caller alone.
pub kill_process-other :
    (rsp ss pid n : ℕ) (k : Kernel) (p : Process)
    → IsCounted k.family.scheduler
    → get_elem? k.family.scheduler.process_list (get_process_idx pid k.family.scheduler) ≡ some p
    → p.state ≢ dead
    → p.immortal ≡ false
    → k.family.scheduler.current_process_idx ≢ get_process_idx pid k.family.scheduler
    → (p.params ≡ 0 ⊎ IsParams k.word p.params n)
    → ((father : ℕ)
        → parent_of p.pid k.family.children ≡ some father
        → get_process_idx father
            (marked (get_process_idx pid k.family.scheduler) p k.family.scheduler)
          < max_processes)
    → (k' : Kernel) × (kill_process rsp ss pid k ≡ returns (killed, rsp) k')
      × (get_elem? k'.family.scheduler.process_list (get_process_idx pid k.family.scheduler)
          ≡ some (buried p))
      × (k'.family.scheduler.current_process_idx ≡ k.family.scheduler.current_process_idx)
      × IsCounted k'.family.scheduler
unfolding kill_process
kill_process-other rsp ss pid n k p c e ne mortal elsewhere params lives =
    let idx = get_process_idx pid k.family.scheduler in
    let (k', done, slot, dims, turn, c') = destroy_process-buried idx n k p c e ne params lives in
    (
      k',
      if-false _ _ _ (found_idx pid k.family.scheduler p c.slots e)
          ∙ next-step _ (slot_of-returns idx k p e) (
              ap (λ (m : Cmd Kernel (Killed × ℕ)). m k) (if-false _ _ _ mortal)
              ∙ next-step _ done (
                  ap (λ (m : Cmd Kernel (Killed × ℕ)). m k')
                    (if-false _ _ _ (==_of_ne _ _ (λ eq. elsewhere (sym turn ∙ eq)))))),
      slot,
      turn,
      c',
    )
