-- ===== src/Boot/Digits.antt =====
-- The digits of `int_to_hex`.
use native.Mathlib.Nat.{pow-suc}
use macac_os.Base.{
  ℕ, zero, suc, ◌+◌, ◌-◌, ◌*◌, ◌/◌, ◌%◌, ◌^◌, ◌<◌, ◌≡◌, ap, ◌∙◌, List, [], ◌∷◌, length, arith, ltb,
  if◌then◌else◌,
}
use macac_os.Boot.Exceptions.{hex_char, hex_places, int_to_hex}

-- The value of a hexadecimal digit, and of a text of them behind the value `v`.
abbrev pub digit_value : ℕ → ℕ
digit_value c = if ltb c 0x41 then c - 0x30 else c - 0x37

abbrev pub hex_value : ℕ → List ℕ → ℕ
hex_value v [] = v
hex_value v (c ∷ cs) = hex_value (v * 16 + digit_value c) cs

digit_value-hex_char : (n : ℕ) → n < 16 → digit_value (hex_char n) ≡ n
unfolding hex_char
digit_value-hex_char n h = ground arith

hex_value-hex_places :
    (i num : ℕ) (cs : List ℕ) → num < 16 ^ i → hex_value 0 (hex_places i num cs) ≡ hex_value num cs
unfolding hex_places
hex_value-hex_places zero num cs h = ap (λ n. hex_value n cs) (omega arith)
hex_value-hex_places (suc i) num cs h =
    hex_value-hex_places i (num / 16) (hex_char (num % 16) ∷ cs) (omega (arith, h, pow-suc 16 i))
    ∙ ap (λ n. hex_value (num / 16 * 16 + n) cs) (digit_value-hex_char (num % 16) (omega arith))
    ∙ ap (λ n. hex_value n cs) (omega arith)

length-hex_places : (i num : ℕ) (cs : List ℕ) → length (hex_places i num cs) ≡ i + length cs
unfolding hex_places
length-hex_places zero num cs = omega arith
length-hex_places (suc i) num cs =
    omega (arith, length-hex_places i (num / 16) (hex_char (num % 16) ∷ cs))

-- int_to_hex of a 64-bit number writes sixteen characters that stand for that number in
-- hexadecimal.
pub int_to_hex-hex_value :
    (num : ℕ) → num < 2 ^ 64 → (length (int_to_hex num) ≡ 16) × (hex_value 0 (int_to_hex num) ≡ num)
unfolding int_to_hex
int_to_hex-hex_value num h =
    (length-hex_places 16 num [], hex_value-hex_places 16 num [] (omega arith))
