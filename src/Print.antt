-- ===== src/Print.antt =====
-- Userland/SampleCodeModule/inout.c: the formatted output, and the text of the clock. What a call
-- writes to its descriptor is the result; an `int` is its 32 bits.
pub mod Clock
pub mod Pieces
mod Tests
use macac_os.Base.{
  ℕ, zero, suc, ◌+◌, ◌-◌, ◌*◌, ◌/◌, ◌%◌, ◌^◌, Bool, true, false, ◌||◌, Option, none, some, List, [],
  ◌∷◌, ◌++◌, ltb, ◌==◌, if◌then◌else◌,
}
use macac_os.Strings.{itoa}

-- An argument behind the format.
pub data Argument : Type 0 where
  an_int : ℕ → Argument
  a_string : List ℕ → Argument

-- The bytes in front of the first zero.
unfoldable pub put_string : List ℕ → Option (List ℕ)
put_string [] = none
put_string (c ∷ cs) =
    let rest = put_string cs in
    if c == 0 then some [] else elim rest [ none ↦ none | some ds ↦ some (c ∷ ds) ]

-- The conversion of an `int` to the argument of `itoa`.
abbrev pub extended : ℕ → ℕ
extended num = if ltb num (2 ^ 31) then num else num + (2 ^ 64 - 2 ^ 32)

unfoldable pub put_int : ℕ → Option (List ℕ)
unfolding put_string
put_int num = put_string (itoa (extended num)).1

unfoldable pub base_digit : ℕ → ℕ
base_digit digit = if ltb digit 10 then 0x30 + digit else 0x37 + digit

-- The places that are left, in front of what is written.
unfoldable pub base_places : ℕ → ℕ → List ℕ → List ℕ
base_places zero num written = written
base_places (suc i) num written = base_places i (num / 16) (base_digit (num % 16) ∷ written)

-- `put_base` in base 16. The remainders of a negative number are negative, and lead in front of the
-- digits.
unfoldable pub put_base : ℕ → Option (List ℕ)
unfolding base_places
put_base num = if ltb num (2 ^ 31) then some (0x30 ∷ 0x78 ∷ base_places 12 num []) else none

-- What the letter behind a `%` prints, and the arguments that are left. `none` is an argument that is
-- missing or of another type.
unfoldable pub convert_arg : ℕ → Argument → Option (List ℕ)
unfolding put_string put_int put_base
convert_arg letter (an_int n) =
    if letter == 0x64 || letter == 0x44
    then put_int n
    else if letter == 0x63 || letter == 0x43
    then some (n % 2 ^ 8 ∷ [])
    else if letter == 0x78 || letter == 0x58
    then put_base n
    else none
convert_arg letter (a_string s) = if letter == 0x73 || letter == 0x53 then put_string s else none

abbrev pub is_conversion : ℕ → Bool
is_conversion letter =
    letter == 0x64
    || letter == 0x44
    || letter == 0x63
    || letter == 0x43
    || letter == 0x73
    || letter == 0x53
    || letter == 0x78
    || letter == 0x58

unfoldable pub convert : ℕ → List Argument → Option (List ℕ) × List Argument
unfolding convert_arg
convert letter [] = (if is_conversion letter then none else some [], [])
convert letter (a ∷ others) =
    if is_conversion letter then (convert_arg letter a, others) else (some [], a ∷ others)

abbrev pub behind : Option (List ℕ) → Option (List ℕ) → Option (List ℕ)
behind first rest = elim first [
  | none ↦ none
  | some xs ↦ elim rest [ none ↦ none | some ys ↦ some (xs ++ ys) ]
]

-- The loop of `printf` and `print_to_fd`, in front of a character or of the letter behind a `%`. A
-- `%` at the end leads over the zero that ends the format.
unfoldable pub print_from : Bool → List ℕ → List Argument → Option (List ℕ)
unfolding convert
print_from letter [] args = none
print_from false (c ∷ format) args =
    let rest = print_from (c == 0x25) format args in
    if c == 0 then some [] else if c == 0x25 then rest else behind (some (c ∷ [])) rest
print_from true (c ∷ format) args =
    let result = convert c args in behind result.0 (print_from false format result.1)

unfoldable pub printf : List ℕ → List Argument → Option (List ℕ)
unfolding print_from
printf format args = print_from false format args

-- A byte of two decimal digits.
unfoldable pub get_format : ℕ → ℕ
get_format n = n / 16 % 16 * 10 + n % 16
