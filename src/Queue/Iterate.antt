-- ===== src/Queue/Iterate.antt =====
-- The iterator of queue.c.
use native.Mathlib.Nat.{mod-eq_of_lt, mod-eq-sub-mod}
use native.Mathlib.Decide.{dec_lt}
use macac_os.Base.{ℕ, ◌+◌, ◌-◌, ◌%◌, ◌<◌, ◌≤◌, ◌≡◌, ◌&&◌, arith, ltb, lt→ltb, ge→ltb, if◌then◌else◌}
use macac_os.Queue.{Queue, has_next}
use macac_os.Queue.Refine.{IsValid}

round : (n a : ℕ) → 0 < n → a < n + n → a % n ≡ (if ltb a n then a else a - n)
round n a h k = elim (dec_lt a n) [
  | yes p ↦ rw (lt→ltb _ _ p, mod-eq_of_lt p)
  | no p ↦
      rw (ge→ltb a n (omega arith), mod-eq-sub-mod {n = a} {m = n} (omega arith))
        (mod-eq_of_lt (omega arith))
]

-- On a valid queue, i steps from the read position, with i at most the length and below the size,
-- has_next answers true exactly when i is below the length and the queue is not full.
pub has_next-steps :
    {q : Queue} (i : ℕ)
    → IsValid q
    → i ≤ q.length
    → i < q.size
    → has_next q ((q.read_pos + i) % q.size) ≡ (ltb i q.length && ltb q.length q.size)
unfolding has_next
has_next-steps {q} i v h k = ground (
  arith,
  round q.size (q.read_pos + i) (omega arith) (omega arith),
  round q.size (q.read_pos + q.length) (omega arith) (omega (arith, v.length_in, v.read_in)),
)
