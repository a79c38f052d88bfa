-- ===== src/Scheduler/Priority.antt =====
-- Priorities and time slices.
use macac_os.Base.{
  ℕ, zero, suc, ◌-◌, ◌*◌, ◌^◌, ◌≤◌, ◌<◌, ◌≡◌, ◌≢◌, ap, ◌∙◌, inl, inr, true, false, some, get_elem?,
  set, arith, returns, ltb, ◌==◌, if◌then◌else◌, Bool-cases,
}
use macac_os.Scheduler.{
  Process, Scheduler, ready, dead, get_process_idx, max_processes, calculate_ticks, double,
  clamp_priority, change_priority, consume_tick, process_at,
}
use macac_os.Scheduler.Choose.{found_slot, change_process-at}
use Prim.Native.Nat.{min, max}
use native.Mathlib.Nat.{pow-suc, mod-eq_of_lt}

pow_pos : (n : ℕ) → 1 ≤ 2 ^ n
pow_pos zero = omega arith
pow_pos (suc n) = rw pow-suc (omega (arith, pow_pos n))

twice_below : (t x m : ℕ) → 1 ≤ x → t * 2 * x < m → t * 2 < m
twice_below t x m h k = grind arith

double-pow : (n t : ℕ) → t * 2 ^ n < 2 ^ 32 → double n t ≡ t * 2 ^ n
unfolding double
double-pow zero t h = omega arith
double-pow (suc n) t h =
    let same : t * 2 * 2 ^ n ≡ t * 2 ^ suc n = rw (pow-suc 2 n) (omega arith) in
    let fits : t * 2 < 2 ^ 32 = twice_below t (2 ^ n) (2 ^ 32) (pow_pos n) (omega arith) in
    rw (mod-eq_of_lt fits) (double-pow n (t * 2) (omega arith) ∙ same)

-- calculate_ticks is the power of two, as long as it fits into 32 bits.
pub calculate_ticks-pow :
    (priority : ℕ) → 2 ^ priority < 2 ^ 32 → calculate_ticks priority ≡ 2 ^ priority
unfolding calculate_ticks
calculate_ticks-pow priority h = double-pow priority 1 (omega arith) ∙ omega arith

pow_small : (n : ℕ) → n ≤ 5 → 2 ^ n < 2 ^ 32
pow_small zero h = omega arith
pow_small (suc zero) h = omega arith
pow_small (suc (suc zero)) h = omega arith
pow_small (suc (suc (suc zero))) h = omega arith
pow_small (suc (suc (suc (suc zero)))) h = omega arith
pow_small (suc (suc (suc (suc (suc n))))) h =
    let five : suc (suc (suc (suc (suc n)))) ≡ 5 = omega arith in rw five (omega arith)

-- A process with the new priority.
abbrev pub reprioritised : ℕ → Process → Process
reprioritised priority p = record p { priority = priority; assigned_ticks = 2 ^ priority }

-- change_priority of a live process sets its priority to the nearest one from 1 to 5 and its time
-- slice to that power of two, changes nothing else, and reports success.
pub change_priority-clamp :
    (pid priority : ℕ) (s : Scheduler)
    → get_process_idx pid s < max_processes
    → (p : Process) × (get_elem? s.process_list (get_process_idx pid s) ≡ some p)
      × (p.pid ≡ pid)
      × (p.state ≢ dead)
      × (change_priority pid priority s
          ≡ returns (some tt) (record s {
            process_list =
                set s.process_list
                  (get_process_idx pid s)
                  (reprioritised (min 5 (max 1 priority)) p);
          }))
unfolding change_priority
change_priority-clamp pid priority s lt =
    let (p, e, same, alive) = found_slot pid s lt in
    let i = get_process_idx pid s in
    let n = clamp_priority priority in
    let nearest : n ≡ min 5 (max 1 priority) = ground arith in
    let ticks : calculate_ticks n ≡ 2 ^ n = calculate_ticks-pow n (pow_small n (ground arith)) in
    (
      p,
      e,
      same,
      alive,
      rw
          (change_process-at i (λ p. record p { priority = n; assigned_ticks = calculate_ticks n })
            s p e)
          (rw ticks (
            ap
              (λ (m : ℕ).
                returns (some tt)
                  (record s { process_list = set s.process_list i (reprioritised m p) }))
              nearest)),
    )

-- While the current process is ready, `consume_tick` takes its ticks one by one: it says whether one
-- was left, and changes nothing once they are used up.
pub consume_tick-ready :
    (s : Scheduler) (p : Process)
    → get_elem? s.process_list s.current_process_idx ≡ some p
    → p.state ≡ ready
    → consume_tick s ≡ (
        if ltb 0 p.remaining_ticks
        then returns true (record s {
          process_list =
              set s.process_list s.current_process_idx
                (record p { remaining_ticks = p.remaining_ticks - 1 });
        })
        else returns false s)
unfolding consume_tick
consume_tick-ready s p e r =
    rw (e, process_at)
      (elim (Bool-cases (ltb 0 p.remaining_ticks)) [
        | inl y ↦
            let is_ready : (p.state == ready) ≡ true = ground arith in
            rw (y, is_ready)
              (rw (
                change_process-at s.current_process_idx
                  (λ p. record p { remaining_ticks = p.remaining_ticks - 1 }) s p e))
        | inr z ↦ rw z
      ])
