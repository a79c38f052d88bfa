-- ===== src/Base/Effects.antt =====
-- What a kernel function that reads and writes global state does: it returns with a new state, it
-- makes an access that C leaves undefined (outside its array), or it never returns.
use mathlib.Core.Option.{Option, none, some}

pub data Outcome {ℓ} (S A : Type ℓ) : Type ℓ where
  returns : A → S → Outcome S A
  fault : Outcome S A
  hang : Outcome S A

abbrev pub Cmd {ℓ} : Type ℓ → Type ℓ → Type ℓ
Cmd S A = S → Outcome S A

module _ {ℓ} {S A : Type ℓ} where
  abbrev pub pure : A → Cmd S A
  pure a s = returns a s

  -- The value that an access yields; an access outside the array is undefined.
  abbrev pub fetch : Option A → Cmd S A
  fetch none s = fault
  fetch (some a) s = returns a s

module _ {ℓ} {S : Type ℓ} where
  abbrev pub get_state : Cmd S S
  get_state s = returns s s

module _ {S : Type 0} where
  abbrev pub modify : (S → S) → Cmd S (Unit {0})
  modify f s = returns tt (f s)

module _ {ℓ} {S A B : Type ℓ} where
  abbrev pub and_then : Outcome S A → (A → Cmd S B) → Outcome S B
  and_then (returns a s) k = k a s
  and_then fault k = fault
  and_then hang k = hang

  infixl 5 ◌>>=◌ ◌>>◌
  abbrev pub ◌>>=◌ : Cmd S A → (A → Cmd S B) → Cmd S B
  ◌>>=◌ m k s = and_then (m s) k

  abbrev pub ◌>>◌ : Cmd S A → Cmd S B → Cmd S B
  ◌>>◌ m n s = and_then (m s) (λ _. n)

module _ {S T A : Type 0} where
  -- A command on a part of the state.
  abbrev pub zoom : (S → T) → (T → S → S) → Cmd T A → Cmd S A
  zoom get put m s = elim (m (get s)) [
    | returns a t ↦ returns a (put t s)
    | fault ↦ fault
    | hang ↦ hang
  ]
