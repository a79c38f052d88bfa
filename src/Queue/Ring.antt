-- ===== src/Queue/Ring.antt =====
-- The elements of a circular buffer, as a list from the read position on.
use native.Mathlib.Nat.{mod-add-mod}
use macac_os.Base.{
  ℕ, zero, suc, ◌+◌, ◌%◌, ◌≤◌, ◌<◌, ◌≡◌, refl, sym, ◌∙◌, ap, ap₂, ◌≢◌, List, [], ◌∷◌, ◌++◌, arith,
  length, get_or, set, get_or-set_self, get_or-set_ne,
}

-- The `k` elements from index `r` on, going round at `n`.
abbrev pub slots : List ℕ → ℕ → ℕ → ℕ → List ℕ
slots es n r zero = []
slots es n r (suc k) = get_or es r 0 ∷ slots es n ((r + 1) % n) k

pub length-slots : (es : List ℕ) (n r k : ℕ) → length (slots es n r k) ≡ k
length-slots es n r zero = refl
length-slots es n r (suc k) = ap suc (length-slots es n ((r + 1) % n) k)

-- One step round the ring, then `d` more.
pub step_round : (n r d : ℕ) → ((r + 1) % n + d) % n ≡ (r + suc d) % n
step_round n r d = rw mod-add-mod (ap (λ (m : ℕ). m % n) (omega arith))

-- A walk of fewer than `n` steps, at least one, ends elsewhere.
pub walk-ne : (n r d : ℕ) → r < n → 0 < d → d < n → r ≢ (r + d) % n
walk-ne n r d hr hd hn = grind arith

-- The last element apart.
pub slots-last :
    (es : List ℕ) (n r k : ℕ)
    → r < n
    → slots es n r (suc k) ≡ slots es n r k ++ get_or es ((r + k) % n) 0 ∷ []
slots-last es n r zero hr =
    let e : (r + 0) % n ≡ r = grind arith in ap (λ i. get_or es i 0 ∷ []) (sym e)
slots-last es n r (suc k) hr =
    ap (λ l. get_or es r 0 ∷ l)
      (slots-last es n ((r + 1) % n) k (omega arith)
        ∙ ap (λ i. slots es n ((r + 1) % n) k ++ get_or es i 0 ∷ []) (step_round n r k))

-- A write that the walk does not meet leaves what it sees alone.
pub slots-set_outside :
    (es : List ℕ) (n r k d v : ℕ)
    → r < n
    → k ≤ d
    → d < n
    → slots (set es ((r + d) % n) v) n r k ≡ slots es n r k
slots-set_outside es n r zero d v hr hk hd = refl
slots-set_outside es n r (suc k) zero v hr hk hd = absurd (omega arith)
slots-set_outside es n r (suc k) (suc d) v hr hk hd =
    ap₂ ◌∷◌
      (get_or-set_ne es ((r + suc d) % n) r v 0
        (λ e. walk-ne n r (suc d) hr (omega arith) hd (sym e)))
      (ap (λ i. slots (set es i v) n ((r + 1) % n) k) (sym (step_round n r d))
        ∙ slots-set_outside es n ((r + 1) % n) k d v (omega arith) (omega arith) (omega arith))

-- A write just behind the `k` elements appends to them.
pub slots-set_last :
    (es : List ℕ) (n r k v : ℕ)
    → r < n
    → k < n
    → n ≤ length es
    → slots (set es ((r + k) % n) v) n r (suc k) ≡ slots es n r k ++ v ∷ []
slots-set_last es n r k v hr hk hn =
    slots-last (set es ((r + k) % n) v) n r k hr
    ∙ ap₂ (λ l x. l ++ x ∷ []) (slots-set_outside es n r k k v hr (omega arith) hk)
        (get_or-set_self es ((r + k) % n) v 0 (omega arith))
