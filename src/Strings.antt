-- ===== src/Strings.antt =====
-- Userland/SampleCodeModule/string_util.c: text as the bytes from a pointer on. `none` is a read
-- behind the end of the bytes.
pub mod Numbers
pub mod Text
mod Tests
use macac_os.Base.{
  ℕ, zero, suc, ◌+◌, ◌-◌, ◌*◌, ◌/◌, ◌%◌, ◌^◌, Bool, true, false, not, ◌&&◌, ◌||◌, Option, none,
  some, List, [], ◌∷◌, ltb, leb, ◌==◌, if◌then◌else◌,
}
use macac_os.Base.Int.{ℤ, pos, negsuc}

unfoldable pub str_len : List ℕ → Option ℕ
str_len [] = none
str_len (c ∷ cs) =
    if c == 0 then some 0 else elim (str_len cs) [ none ↦ none | some n ↦ some (suc n) ]

abbrev pub is_digit : ℕ → Bool
is_digit c = leb 48 c && leb c 57

-- The loop of `atoi` with the number read so far, in `uint64_t`.
unfoldable pub atoi_from : ℕ → List ℕ → Option ℕ
atoi_from num [] = none
atoi_from num (c ∷ cs) =
    let rest = atoi_from ((num * 10 + (c - 48)) % 2 ^ 64) cs in
    if is_digit c then rest else some num

unfoldable pub atoi : List ℕ → Option ℕ
unfolding atoi_from
atoi s = atoi_from 0 s

-- The loop of `itoa` that counts digits from `n` on, for an `int` that is `n` or `- n`.
unfoldable pub count_digits : ℕ → ℕ → ℕ
count_digits zero n = 0
count_digits (suc fuel) n = let rest = count_digits fuel (n / 10) in if n == 0 then 0 else suc rest

-- The size of an `int` with the given bits.
abbrev pub int_size : ℕ → ℕ
int_size n = if ltb (n % 2 ^ 32) (2 ^ 31) then n % 2 ^ 32 else 2 ^ 32 - n % 2 ^ 32

-- The loop of `itoa` that writes `left` digits in front of the bytes.
unfoldable pub write_digits : ℕ → ℕ → List ℕ → List ℕ
write_digits zero number bytes = bytes
write_digits (suc left) number bytes = write_digits left (number / 10) ((number % 10 + 48) ∷ bytes)

-- The part of `itoa` behind the count: its result and the bytes that it writes.
unfoldable pub write_number : ℕ → ℕ → ℕ × List ℕ
write_number digits number =
    if digits == 1
    then (digits, 48 ∷ (number + 48) % 2 ^ 8 ∷ 0 ∷ [])
    else (digits, write_digits digits number (0 ∷ []))

-- An `int` has at most ten digits.
unfoldable pub itoa : ℕ → ℕ × List ℕ
itoa number = write_number (1 + count_digits 10 (int_size (number / 10))) number

-- The bytes that `_str_cpy` writes, for a count that is not negative.
unfoldable pub str_cpy : List ℕ → ℕ → Option (List ℕ)
str_cpy [] n = none
str_cpy (c ∷ cs) zero = some (0 ∷ [])
str_cpy (c ∷ cs) (suc n) =
    if c == 0 then some (0 ∷ []) else elim (str_cpy cs n) [ none ↦ none | some ds ↦ some (c ∷ ds) ]

-- `a - b` for two `char`s, which are signed.
abbrev pub char_difference : ℕ → ℕ → ℤ
char_difference a b =
    let x = (a + 128) % 2 ^ 8 in
    let y = (b + 128) % 2 ^ 8 in if leb y x then pos (x - y) else negsuc (y - x - 1)

unfoldable pub str_cmp : List ℕ → List ℕ → Option ℤ
str_cmp [] t = none
str_cmp (a ∷ s) [] = none
str_cmp (a ∷ s) (b ∷ t) =
    if not (a == 0) && not (b == 0) && a == b
    then str_cmp s t
    else if a == b
    then some (pos 0)
    else some (char_difference a b)

-- The value of a hexadecimal digit, `none` for any other character.
abbrev pub hex_digit : ℕ → Option ℕ
hex_digit c =
    if is_digit c
    then some (c - 48)
    else if leb 97 c && leb c 102
    then some (c - 97 + 10)
    else if leb 65 c && leb c 70
    then some (c - 65 + 10)
    else none

-- The loop of `hex_str_to_int` with the rounds that are left; other characters are passed over.
unfoldable pub hex_from : ℕ → ℕ → List ℕ → Option ℕ
hex_from zero res s = some res
hex_from (suc left) res [] = none
hex_from (suc left) res (c ∷ cs) = elim (hex_digit c) [
  | none ↦ hex_from left res cs
  | some d ↦ hex_from left ((res * 16 + d) % 2 ^ 64) cs
]

abbrev pub skip : ℕ → List ℕ → List ℕ
skip zero s = s
skip (suc n) [] = []
skip (suc n) (c ∷ cs) = skip n cs

-- Whether the number begins behind the first two characters. The second one is read only where the
-- first is not a zero.
unfoldable pub has_prefix : List ℕ → Option Bool
has_prefix [] = none
has_prefix (c ∷ []) = if c == 48 then some true else none
has_prefix (c ∷ d ∷ _) = some (c == 48 || d == 120)

-- The outer `none` is a read behind the bytes, the inner one the result 0.
unfoldable pub hex_str_to_int : List ℕ → Option (Option ℕ)
unfolding has_prefix hex_from
hex_str_to_int s = elim (str_len s) [
  | none ↦ none
  | some len ↦ elim (has_prefix s) [
    | none ↦ none
    | some prefix ↦
        let i = if prefix then 2 else 0 in
        if ltb 8 (len - i)
        then some none
        else elim (hex_from (len - i) 0 (skip i s)) [ none ↦ none | some n ↦ some (some n) ]
  ]
]
