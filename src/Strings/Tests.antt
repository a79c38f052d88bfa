-- ===== src/Strings/Tests.antt =====
-- Runs of string_util.c, and its theorems at short texts.
use macac_os.Base.{ℕ, ◌≡◌, ◌↔◌, refl, some, List, [], ◌∷◌, ◌++◌, arith}
use macac_os.Base.Int.{ℤ, pos}
use macac_os.Strings.{atoi, itoa, str_len, str_cpy, str_cmp, hex_str_to_int, has_prefix, hex_from}
use macac_os.Strings.Numbers.{atoi-itoa}
use macac_os.Strings.Text.{IsText, str_cmp-equal}

-- "cat" and "ls"
abbrev cat : List ℕ
cat = 99 ∷ 97 ∷ 116 ∷ []

abbrev ls : List ℕ
ls = 108 ∷ 115 ∷ []

cat-IsText : IsText cat
cat-IsText =
    ((omega arith, omega arith), ((omega arith, omega arith), ((omega arith, omega arith), tt)))

ls-IsText : IsText ls
ls-IsText = ((omega arith, omega arith), ((omega arith, omega arith), tt))

atoi-itoa_example : atoi (itoa 4095).1 ≡ some 4095
atoi-itoa_example = atoi-itoa 4095 (omega arith)

str_cmp-equal_example :
    (r : ℤ) × (str_cmp (cat ++ 0 ∷ []) (ls ++ 0 ∷ ls) ≡ some r) × ((r ≡ pos 0) ↔ (cat ≡ ls))
str_cmp-equal_example = str_cmp-equal cat ls [] ls cat-IsText ls-IsText

-- "0x1F"
hex_number : hex_str_to_int (48 ∷ 120 ∷ 49 ∷ 70 ∷ 0 ∷ []) ≡ some (some 31)
unfolding hex_str_to_int has_prefix hex_from str_len
hex_number = refl

-- The text "5" is written as "05", and counted as one character.
one_digit : itoa 5 ≡ (1, 48 ∷ 53 ∷ 0 ∷ [])
unfolding itoa macac_os.Strings.count_digits macac_os.Strings.write_number
one_digit = refl
