-- ===== src/Base/Int.antt =====
-- C integers as a comparison sees them: an unsigned value is promoted, a signed one may be negative.
use Prim.Native.Nat.{ℕ, ◌-◌, ◌^◌, ◌≤◌}
use mathlib.Core.Bool.{Bool, false}
use mathlib.Core.Path.{◌≡◌}
use native.Mathlib.Omega.{arith}
use macac_os.Base.Tests.{ltb, ◌==◌, if◌then◌else◌}

-- `negsuc n` is -(n + 1).
pub data ℤ : Type 0 where
  pos : ℕ → ℤ
  negsuc : ℕ → ℤ

abbrev pub eq_ℤ : ℤ → ℤ → Bool
eq_ℤ (pos a) (pos b) = a == b
eq_ℤ (pos a) (negsuc b) = false
eq_ℤ (negsuc a) (pos b) = false
eq_ℤ (negsuc a) (negsuc b) = a == b

-- The value of an `int8_t` with the given bit pattern.
abbrev pub signed8 : ℕ → ℤ
signed8 w = if ltb w (2 ^ 7) then pos w else negsuc (2 ^ 8 - w - 1)

-- -1, which an 8-bit variable holds as 255.
abbrev pub minus_one : ℤ
minus_one = negsuc 0

pub signed8_nonneg : (w : ℕ) → w ≤ 99 → signed8 w ≡ pos w
signed8_nonneg w h = ground arith
