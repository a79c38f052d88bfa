-- ===== src/KernelLib/Blocks.antt =====
-- What `mem_set` and `mem_cpy` leave in the memory.
use macac_os.Base.{
  ℕ, zero, suc, ◌+◌, ◌/◌, ◌%◌, ◌^◌, ◌≤◌, ◌<◌, ◌≡◌, ◌⊎◌, inl, inr, refl, sym, ap, subst, ◌∙◌,
  Bool-cases, ◌&&◌, arith, ◌==◌, if-true, if-false,
}
use macac_os.KernelLib.{Bytes, put_byte, fill_bytes, mem_set, copy_words, mem_cpy}
use macac_os.KernelLib.Copy.{
  IsBytes, IsForward, copy_bytes-inside, copy_bytes-outside, copy_words-inside, copy_words-outside,
}

fill_bytes-outside : (n d c a : ℕ) (m : Bytes) → (a < d ⊎ d + n ≤ a) → fill_bytes n d c m a ≡ m a
unfolding fill_bytes
fill_bytes-outside zero d c a m out = refl
fill_bytes-outside (suc n) d c a m out =
    fill_bytes-outside n d c a (put_byte (d + n) c m)
      (elim out [ inl h ↦ inl h | inr h ↦ inr (omega arith) ])
    ∙ if-false (a == d + n) _ _ (elim out [ inl h ↦ ground arith | inr h ↦ ground arith ])

fill_bytes-inside : (n d c k : ℕ) (m : Bytes) → k < n → fill_bytes n d c m (d + k) ≡ c
unfolding fill_bytes
fill_bytes-inside zero d c k m lt = absurd (omega arith)
fill_bytes-inside (suc n) d c k m lt = elim (Bool-cases (k == n)) [
  | inl last ↦
      fill_bytes-outside n d c (d + k) (put_byte (d + n) c m) (inr (ground arith))
      ∙ if-true (d + k == d + n) _ _ (ground arith)
  | inr before ↦ fill_bytes-inside n d c k (put_byte (d + n) c m) (ground arith)
]

pub mem_set-filled :
    (d c n : ℕ) (m : Bytes)
    → ((k : ℕ) → k < n → mem_set d c n m (d + k) ≡ c % 2 ^ 8)
      × ((a : ℕ) → (a < d ⊎ d + n ≤ a) → mem_set d c n m a ≡ m a)
unfolding mem_set
mem_set-filled d c n m = (
  λ k lt. fill_bytes-inside n d (c % 2 ^ 8) k m lt,
  λ a out. fill_bytes-outside n d (c % 2 ^ 8) a m out,
)

-- The memory after a copy of `n` bytes from `s` to `d`.
abbrev pub Copied : ℕ → ℕ → ℕ → Bytes → Bytes → Type 0
Copied d s n m m' =
    ((k : ℕ) → k < n → m' (d + k) ≡ m (s + k)) × ((a : ℕ) → (a < d ⊎ d + n ≤ a) → m' a ≡ m a)

words-Copied :
    (d s n : ℕ) (m : Bytes)
    → IsBytes m
    → IsForward d s n
    → n % 4 ≡ 0
    → Copied d s n m (copy_words (n / 4) 0 d s m)
words-Copied d s n m b apart whole = (
  λ k lt.
      ap (copy_words (n / 4) 0 d s m) (omega arith)
      ∙ copy_words-inside (n / 4) 0 (n / 4) d s (k / 4) (k % 4) m b
          (elim apart [ inl h ↦ inl (omega arith) | inr h ↦ inr (omega arith) ]) (omega arith)
          (omega arith) (omega arith) (omega arith)
      ∙ ap m (omega arith),
  λ a out.
      copy_words-outside (n / 4) 0 d s a m
        (elim out [ inl h ↦ inl (omega arith) | inr h ↦ inr (omega arith) ]),
)

-- Where the destination does not begin inside the source, mem_cpy copies the bytes and changes no
-- others, by words or by bytes, whatever the alignment; the blocks may overlap with the destination
-- in front.
pub mem_cpy-Copied :
    (d s n : ℕ) (m : Bytes) → IsBytes m → IsForward d s n → Copied d s n m (mem_cpy d s n m)
unfolding mem_cpy
mem_cpy-Copied d s n m b apart = elim (Bool-cases (d % 4 == 0 && s % 4 == 0 && n % 4 == 0)) [
  | inl aligned ↦
      subst (Copied d s n m) (sym (if-true _ _ _ aligned))
        (words-Copied d s n m b apart (ground arith))
  | inr other ↦ subst (Copied d s n m) (sym (if-false _ _ _ other)) (
    λ k lt. copy_bytes-inside n 0 n d s k m apart (omega arith) (omega arith) (omega arith),
    λ a out.
        copy_bytes-outside n 0 d s a m
          (elim out [ inl h ↦ inl (omega arith) | inr h ↦ inr (omega arith) ]),
  )
]
