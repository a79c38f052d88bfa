-- ===== src/Strings/Text.antt =====
-- Length, copy and comparison of texts that end with a zero byte.
use macac_os.Base.{
  ℕ, zero, suc, ◌<◌, ◌≡◌, ◌≢◌, ◌↔◌, refl, ap₂, ◌∙◌, not, ◌&&◌, some, List, [], ◌∷◌, ◌++◌, length,
  All, arith, inl, inr, Bool-cases, ◌==◌, if-true, if-false, eq_of_==, ne_of_==,
}
use macac_os.Base.Int.{ℤ, pos}
use macac_os.Strings.{str_len, str_cpy, str_cmp, char_difference}

-- Bytes other than zero.
abbrev pub IsText : List ℕ → Type 0
IsText = All (λ c. (0 < c) × (c < 256))

-- The first `n` elements.
abbrev pub first : ℕ → List ℕ → List ℕ
first zero s = []
first (suc n) [] = []
first (suc n) (c ∷ cs) = c ∷ first n cs

-- For a text that ends with a zero byte _str_len is the number of bytes before it.
pub str_len-length :
    (text rest : List ℕ) → IsText text → str_len (text ++ 0 ∷ rest) ≡ some (length text)
unfolding str_len
str_len-length [] rest t = refl
str_len-length (c ∷ cs) rest ((lo, hi), t) = ground (arith, str_len-length cs rest t)

-- For a text that ends with a zero byte _str_cpy writes as many of its first bytes as the count
-- allows, and a zero byte.
pub str_cpy-first :
    (text rest : List ℕ) (n : ℕ)
    → IsText text
    → str_cpy (text ++ 0 ∷ rest) n ≡ some (first n text ++ 0 ∷ [])
unfolding str_cpy
str_cpy-first [] rest zero t = refl
str_cpy-first [] rest (suc n) t = refl
str_cpy-first (c ∷ cs) rest zero t = refl
str_cpy-first (c ∷ cs) rest (suc n) ((lo, hi), t) = ground (arith, str_cpy-first cs rest n t)

difference_lem : (a b : ℕ) → a < 256 → b < 256 → a ≢ b → char_difference a b ≢ pos 0
difference_lem a b h k n = ground arith

-- On two texts that end with a zero byte _str_cmp stays inside them, and returns zero exactly when
-- they are equal, whatever stands behind their ends.
pub str_cmp-equal :
    (s t x y : List ℕ)
    → IsText s
    → IsText t
    → (r : ℤ) × (str_cmp (s ++ 0 ∷ x) (t ++ 0 ∷ y) ≡ some r) × ((r ≡ pos 0) ↔ (s ≡ t))
unfolding str_cmp
str_cmp-equal [] [] x y p q = (pos 0, refl, (λ e. refl, λ e. refl))
str_cmp-equal [] (b ∷ t) x y p ((lo, hi), q) = (
  char_difference 0 b,
  ground arith,
  (λ e. absurd (difference_lem 0 b (omega arith) hi (omega arith) e), λ e. absurd (ground arith)),
)
str_cmp-equal (a ∷ s) [] x y ((lo, hi), p) q = (
  char_difference a 0,
  ground arith,
  (λ e. absurd (difference_lem a 0 hi (omega arith) (omega arith) e), λ e. absurd (ground arith)),
)
str_cmp-equal (a ∷ s) (b ∷ t) x y ((lo, hi), p) ((lo', hi'), q) = elim (Bool-cases (a == b)) [
  | inl e ↦
      let (r, done, (to, from)) = str_cmp-equal s t x y p q in
      let same = eq_of_== a b e in
      (
        r,
        if-true (not (a == 0) && not (b == 0) && a == b) _ _ (ground arith) ∙ done,
        (λ z. ap₂ (λ c cs. c ∷ cs) same (to z), λ z. from (ground arith)),
      )
  | inr e ↦
      let other = ne_of_== a b e in
      (
        char_difference a b,
        if-false (not (a == 0) && not (b == 0) && a == b) _ _ (ground arith)
            ∙ if-false (a == b) _ _ e,
        (λ z. absurd (difference_lem a b hi hi' other z), λ z. absurd (other (ground arith))),
      )
]
