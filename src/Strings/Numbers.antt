-- ===== src/Strings/Numbers.antt =====
-- Numbers to text and back.
use native.Mathlib.Nat.{pow-suc}
use mathlib.Core.List.{append_assoc}
use macac_os.Base.{
  refl, ℕ, zero, suc, ◌+◌, ◌*◌, ◌/◌, ◌%◌, ◌^◌, ◌<◌, ◌≡◌, ap, ◌∙◌, true, some, List, [], ◌∷◌, arith,
  inl, inr, ◌++◌, All, sym, Bool-cases, if-true, if-false, ◌==◌,
}
use macac_os.Strings.{
  atoi_from, atoi, is_digit, count_digits, int_size, write_digits, write_number, itoa,
}

count_digits-pow : (fuel n : ℕ) → n < 10 ^ fuel → n < 10 ^ count_digits fuel n
unfolding count_digits
count_digits-pow zero n h = h
count_digits-pow (suc fuel) n h = elim (Bool-cases (n == 0)) [
  | inl y ↦ let e : n ≡ 0 = ground arith in rw y (omega arith)
  | inr z ↦
      let small : n / 10 < 10 ^ fuel = let e = pow-suc 10 fuel in omega arith in
      let ih = count_digits-pow fuel (n / 10) small in
      rw z (let e = pow-suc 10 (count_digits fuel (n / 10)) in omega arith)
]

-- Reading the digits that were written for a number.
atoi_from-write_digits :
    (left number : ℕ) (bytes : List ℕ)
    → number < 10 ^ left
    → number < 2 ^ 64
    → atoi_from 0 (write_digits left number bytes) ≡ atoi_from number bytes
unfolding write_digits atoi_from
atoi_from-write_digits zero number bytes h t = ap (λ n. atoi_from n bytes) (omega arith)
atoi_from-write_digits (suc left) number bytes h t =
    let small : number / 10 < 10 ^ left = let e = pow-suc 10 left in omega arith in
    let digit : is_digit (number % 10 + 48) ≡ true = ground arith in
    atoi_from-write_digits left (number / 10) ((number % 10 + 48) ∷ bytes) small (omega arith)
    ∙ if-true _ _ _ digit
    ∙ ap (λ n. atoi_from n bytes) (omega arith)

atoi-write_number :
    (digits number : ℕ)
    → number < 10 ^ digits
    → number < 2 ^ 64
    → atoi (write_number digits number).1 ≡ some number
unfolding atoi atoi_from write_number
atoi-write_number digits number h t = elim (Bool-cases (digits == 1)) [
  | inl y ↦
      let one : digits ≡ 1 = ground arith in
      let small : number < 10 = rw one at h in
      let digit : is_digit ((number + 48) % 2 ^ 8) ≡ true = ground arith in
      ap (λ (w : ℕ × List ℕ). atoi w.1) (if-true (digits == 1) _ _ y)
      ∙ if-true _ _ _ digit
      ∙ ap some (omega arith)
  | inr z ↦
      ap (λ (w : ℕ × List ℕ). atoi w.1) (if-false (digits == 1) _ _ z)
      ∙ atoi_from-write_digits digits number (0 ∷ []) h t
]

-- itoa of a number below 10 * 2^31 writes text that atoi reads as that number.
pub atoi-itoa : (number : ℕ) → number < 10 * 2 ^ 31 → atoi (itoa number).1 ≡ some number
unfolding itoa
atoi-itoa number h =
    let size : int_size (number / 10) ≡ number / 10 = ground arith in
    let small = count_digits-pow 10 (number / 10) (omega arith) in
    rw size (fits (count_digits 10 (number / 10)) small)
  where
    fits : (c : ℕ) → number / 10 < 10 ^ c → atoi (write_number (1 + c) number).1 ≡ some number
    fits c small =
        let e = pow-suc 10 c in
        atoi-write_number (1 + c) number
          (let same : 10 ^ (1 + c) ≡ 10 ^ c * 10 = ap (λ (n : ℕ). 10 ^ n) (omega arith) ∙ e in
            omega arith)
          (omega arith)

-- The digits that are written stand in front of the bytes.
abbrev pub Digits : List ℕ → Type 0
Digits = All (λ c. is_digit c ≡ true)

Digits-append : (xs ys : List ℕ) → Digits xs → Digits ys → Digits (xs ++ ys)
Digits-append [] ys a b = b
Digits-append (x ∷ xs) ys (h, a) b = (h, Digits-append xs ys a b)

write_digits-Digits :
    (left number : ℕ) (bytes : List ℕ)
    → (ds : List ℕ) × (write_digits left number bytes ≡ ds ++ bytes) × Digits ds
unfolding write_digits
write_digits-Digits zero number bytes = ([], refl, tt)
write_digits-Digits (suc left) number bytes =
    let (ds, e, h) = write_digits-Digits left (number / 10) ((number % 10 + 48) ∷ bytes) in
    (
      ds ++ (number % 10 + 48) ∷ [],
      e ∙ sym (append_assoc ds ((number % 10 + 48) ∷ []) bytes),
      Digits-append ds ((number % 10 + 48) ∷ []) h (ground arith, tt),
    )

write_number-Digits :
    (digits number : ℕ)
    → number < 10 ^ digits
    → (ds : List ℕ) × ((write_number digits number).1 ≡ ds ++ 0 ∷ []) × Digits ds
unfolding write_number
write_number-Digits digits number h = elim (Bool-cases (digits == 1)) [
  | inl y ↦
      let one : digits ≡ 1 = ground arith in
      let small : number < 10 = rw one at h in
      (
        48 ∷ (number + 48) % 2 ^ 8 ∷ [],
        ap (λ (w : ℕ × List ℕ). w.1) (if-true (digits == 1) _ _ y),
        (refl, (ground arith, tt)),
      )
  | inr z ↦
      let (ds, e, all) = write_digits-Digits digits number (0 ∷ []) in
      (ds, ap (λ (w : ℕ × List ℕ). w.1) (if-false (digits == 1) _ _ z) ∙ e, all)
]

-- The text of a number is digits and a zero byte.
pub itoa-Digits :
    (number : ℕ)
    → number < 10 * 2 ^ 31
    → (ds : List ℕ) × ((itoa number).1 ≡ ds ++ 0 ∷ []) × Digits ds
unfolding itoa
itoa-Digits number h =
    let size : int_size (number / 10) ≡ number / 10 = ground arith in
    let small = count_digits-pow 10 (number / 10) (omega arith) in
    let c = count_digits 10 (number / 10) in
    let e = pow-suc 10 c in
    let same : 10 ^ (1 + c) ≡ 10 ^ c * 10 = ap (λ (n : ℕ). 10 ^ n) (omega arith) ∙ e in
    rw size (write_number-Digits (1 + c) number (omega arith))
