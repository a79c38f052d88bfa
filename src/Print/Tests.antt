-- ===== src/Print/Tests.antt =====
-- Runs of the formatted output.
use macac_os.Base.{ℕ, inl, inr, arith, ◌≡◌, refl, none, some, List, [], ◌∷◌}
use macac_os.Strings.{itoa, write_number, count_digits, write_digits}
use macac_os.Print.{base_digit, an_int, a_string, printf, get_format}
use macac_os.Print.Pieces.{
  Piece, character, decimal, hexadecimal, string, format_of, args_of, Shown, printf-Shown,
}

-- "a%d%s\n"
two_args :
    printf
      (0x61 ∷ 0x25 ∷ 0x64 ∷ 0x25 ∷ 0x73 ∷ 0xA ∷ 0 ∷ [])
      (an_int 42 ∷ a_string (0x62 ∷ 0 ∷ []) ∷ [])
    ≡ some (0x61 ∷ 0x34 ∷ 0x32 ∷ 0x62 ∷ 0xA ∷ [])
unfolding printf itoa write_number count_digits write_digits
two_args = refl

-- "%x"
hex_text :
    printf (0x25 ∷ 0x78 ∷ 0 ∷ []) (an_int 0x1F ∷ [])
    ≡ some (
        0x30 ∷ 0x78 ∷ 0x30 ∷ 0x30 ∷ 0x30 ∷ 0x30 ∷ 0x30 ∷ 0x30 ∷ 0x30 ∷ 0x30 ∷ 0x30 ∷ 0x30 ∷ 0x31
        ∷ 0x46 ∷ [])
unfolding printf base_digit
hex_text = refl

-- "%"
open_end : printf (0x25 ∷ 0 ∷ []) [] ≡ none
unfolding printf
open_end = refl

clock : get_format 0x59 ≡ 59
unfolding get_format
clock = refl

-- "a%d%X%s"
abbrev pieces : List Piece
pieces = character 0x61 ∷ decimal 0x64 42 ∷ hexadecimal 0x58 31 ∷ string 0x73 (0x62 ∷ []) [] ∷ []

printf-Shown_example :
    (x : List ℕ) × (printf (format_of pieces) (args_of pieces) ≡ some x) × Shown pieces x
printf-Shown_example = printf-Shown pieces (
  (omega arith, omega arith),
  ((inl refl, omega arith), ((inr refl, omega arith), ((inl refl, (omega arith, tt)), tt))),
)
