-- ===== src/KernelLib/Copy.antt =====
-- What the two loops of `mem_cpy` leave in the memory.
use macac_os.Base.{
  ℕ, zero, suc, ◌+◌, ◌*◌, ◌/◌, ◌%◌, ◌^◌, ◌≤◌, ◌<◌, ◌≡◌, ◌⊎◌, inl, inr, refl, sym, ap, ◌∙◌,
  Bool-cases, eq_of_==, ne_of_==, arith, ◌==◌, if-true, if-false,
}
use macac_os.KernelLib.{Bytes, put_byte, read_uint32, write_uint32, copy_words, copy_bytes}

-- Every cell holds a byte.
abbrev pub IsBytes : Bytes → Type 0
IsBytes m = (a : ℕ) → m a < 2 ^ 8

-- A copy of `n` bytes from `s` to `d`, from the first one on, reads no byte that it wrote before.
abbrev pub IsForward : ℕ → ℕ → ℕ → Type 0
IsForward d s n = d ≤ s ⊎ s + n ≤ d

pub copy_bytes-outside :
    (left i d s a : ℕ) (m : Bytes)
    → (a < d + i ⊎ d + i + left ≤ a)
    → copy_bytes left i d s m a ≡ m a
unfolding copy_bytes
copy_bytes-outside zero i d s a m out = refl
copy_bytes-outside (suc left) i d s a m out =
    copy_bytes-outside left (i + 1) d s a (put_byte (d + i) (m (s + i)) m)
      (elim out [ inl h ↦ inl (omega arith) | inr h ↦ inr (omega arith) ])
    ∙ if-false (a == d + i) _ _ (elim out [ inl h ↦ ground arith | inr h ↦ ground arith ])

pub copy_bytes-inside :
    (left i n d s k : ℕ) (m : Bytes)
    → IsForward d s n
    → i + left ≤ n
    → i ≤ k
    → k < i + left
    → copy_bytes left i d s m (d + k) ≡ m (s + k)
unfolding copy_bytes
copy_bytes-inside zero i n d s k m apart fits lo hi = absurd (omega arith)
copy_bytes-inside (suc left) i n d s k m apart fits lo hi =
    let m₁ = put_byte (d + i) (m (s + i)) m in
    elim (Bool-cases (k == i)) [
      | inl now ↦
          copy_bytes-outside left (i + 1) d s (d + k) m₁ (inl (ground arith))
          ∙ if-true (d + k == d + i) _ _ (ground arith)
          ∙ ap (λ j. m (s + j)) (sym (eq_of_== k i now))
      | inr later ↦
          copy_bytes-inside left (i + 1) n d s k m₁ apart (omega arith) (ground arith) (omega arith)
          ∙ if-false (s + k == d + i) _ _
              (elim apart [ inl h ↦ ground arith | inr h ↦ ground arith ])
    ]

module _ (p v : ℕ) (m : Bytes) where
  write_uint32-byte_0 : write_uint32 p v m p ≡ v % 2 ^ 8
  unfolding write_uint32
  write_uint32-byte_0 = ground arith

  write_uint32-byte_1 : write_uint32 p v m (p + 1) ≡ v / 2 ^ 8 % 2 ^ 8
  unfolding write_uint32
  write_uint32-byte_1 = ground arith

  write_uint32-byte_2 : write_uint32 p v m (p + 2) ≡ v / 2 ^ 16 % 2 ^ 8
  unfolding write_uint32
  write_uint32-byte_2 = ground arith

  write_uint32-byte_3 : write_uint32 p v m (p + 3) ≡ v / 2 ^ 24 % 2 ^ 8
  unfolding write_uint32
  write_uint32-byte_3 = ground arith

module _ (a b c d : ℕ) (ha : a < 2 ^ 8) (hb : b < 2 ^ 8) (hc : c < 2 ^ 8) (hd : d < 2 ^ 8) where
  byte_0 : (a + 2 ^ 8 * b + 2 ^ 16 * c + 2 ^ 24 * d) % 2 ^ 8 ≡ a
  byte_0 = omega arith

  byte_1 : (a + 2 ^ 8 * b + 2 ^ 16 * c + 2 ^ 24 * d) / 2 ^ 8 % 2 ^ 8 ≡ b
  byte_1 = omega arith

  byte_2 : (a + 2 ^ 8 * b + 2 ^ 16 * c + 2 ^ 24 * d) / 2 ^ 16 % 2 ^ 8 ≡ c
  byte_2 = omega arith

  byte_3 : (a + 2 ^ 8 * b + 2 ^ 16 * c + 2 ^ 24 * d) / 2 ^ 24 % 2 ^ 8 ≡ d
  byte_3 = omega arith

-- One word copied.
word_copied : ℕ → ℕ → Bytes → Bytes
word_copied d s m = write_uint32 d (read_uint32 s m) m

word_copied-inside :
    (d s r : ℕ) (m : Bytes) → IsBytes m → r < 4 → word_copied d s m (d + r) ≡ m (s + r)
unfolding word_copied read_uint32 write_uint32
word_copied-inside d s zero m b h =
    ap (word_copied d s m) (omega arith)
    ∙ write_uint32-byte_0 d (read_uint32 s m) m
    ∙ byte_0 (m s) (m (s + 1)) (m (s + 2)) (m (s + 3)) (b s) (b (s + 1)) (b (s + 2)) (b (s + 3))
    ∙ ap m (omega arith)
word_copied-inside d s (suc zero) m b h =
    write_uint32-byte_1 d (read_uint32 s m) m
    ∙ byte_1 (m s) (m (s + 1)) (m (s + 2)) (m (s + 3)) (b s) (b (s + 1)) (b (s + 2)) (b (s + 3))
word_copied-inside d s (suc (suc zero)) m b h =
    write_uint32-byte_2 d (read_uint32 s m) m
    ∙ byte_2 (m s) (m (s + 1)) (m (s + 2)) (m (s + 3)) (b s) (b (s + 1)) (b (s + 2)) (b (s + 3))
word_copied-inside d s (suc (suc (suc zero))) m b h =
    write_uint32-byte_3 d (read_uint32 s m) m
    ∙ byte_3 (m s) (m (s + 1)) (m (s + 2)) (m (s + 3)) (b s) (b (s + 1)) (b (s + 2)) (b (s + 3))
word_copied-inside d s (suc (suc (suc (suc r)))) m b h = absurd (omega arith)

word_copied-outside : (d s a : ℕ) (m : Bytes) → (a < d ⊎ d + 4 ≤ a) → word_copied d s m a ≡ m a
unfolding word_copied write_uint32
word_copied-outside d s a m out = elim out [ inl h ↦ ground arith | inr h ↦ ground arith ]

pub copy_words-outside :
    (left i d s a : ℕ) (m : Bytes)
    → (a < d + 4 * i ⊎ d + 4 * (i + left) ≤ a)
    → copy_words left i d s m a ≡ m a
unfolding copy_words word_copied
copy_words-outside zero i d s a m out = refl
copy_words-outside (suc left) i d s a m out =
    copy_words-outside left (i + 1) d s a (word_copied (d + 4 * i) (s + 4 * i) m)
      (elim out [ inl h ↦ inl (omega arith) | inr h ↦ inr (omega arith) ])
    ∙ word_copied-outside (d + 4 * i) (s + 4 * i) a m
        (elim out [ inl h ↦ inl (omega arith) | inr h ↦ inr (omega arith) ])

word_copied-IsBytes : (d s : ℕ) (m : Bytes) → IsBytes m → IsBytes (word_copied d s m)
unfolding word_copied write_uint32
word_copied-IsBytes d s m b a = ground (arith, b a)

pub copy_words-inside :
    (left i n d s w r : ℕ) (m : Bytes)
    → IsBytes m
    → IsForward d s (4 * n)
    → i + left ≤ n
    → i ≤ w
    → w < i + left
    → r < 4
    → copy_words left i d s m (d + 4 * w + r) ≡ m (s + 4 * w + r)
unfolding copy_words word_copied
copy_words-inside zero i n d s w r m b apart fits lo hi h = absurd (omega arith)
copy_words-inside (suc left) i n d s w r m b apart fits lo hi h =
    let m₁ = word_copied (d + 4 * i) (s + 4 * i) m in
    elim (Bool-cases (w == i)) [
      | inl now ↦
          copy_words-outside left (i + 1) d s (d + 4 * w + r) m₁ (inl (ground arith))
          ∙ ap (λ j. m₁ (d + 4 * j + r)) (eq_of_== w i now)
          ∙ word_copied-inside (d + 4 * i) (s + 4 * i) r m b h
          ∙ ap (λ j. m (s + 4 * j + r)) (sym (eq_of_== w i now))
      | inr later ↦
          copy_words-inside left (i + 1) n d s w r m₁
            (word_copied-IsBytes (d + 4 * i) (s + 4 * i) m b) apart (omega arith) (ground arith)
            (omega arith) h
          ∙ word_copied-outside (d + 4 * i) (s + 4 * i) (s + 4 * w + r) m (elim apart [
            | inl h' ↦ inr (omega (arith, ne_of_== w i later))
            | inr h' ↦ inl (omega arith)
          ])
    ]
