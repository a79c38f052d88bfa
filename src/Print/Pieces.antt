-- ===== src/Print/Pieces.antt =====
-- The loop of `printf` on a format that goes with its arguments.
use native.Mathlib.Nat.{pow-suc}
use macac_os.Base.{
  ℕ, zero, suc, ◌+◌, ◌-◌, ◌*◌, ◌/◌, ◌%◌, ◌^◌, ◌<◌, ◌≡◌, ◌≢◌, ◌⊎◌, inl, inr, refl, sym, ap, ◌∙◌,
  Bool, true, false, ◌&&◌, ◌||◌, Option, some, none, List, [], ◌∷◌, ◌++◌, leb, ltb, ◌==◌, ==_of_ne,
  if◌then◌else◌, if-true, if-false, All, length, arith,
}
use macac_os.Strings.{atoi, itoa}
use macac_os.Strings.Numbers.{Digits, itoa-Digits, atoi-itoa}
use macac_os.Print.{
  Argument, an_int, a_string, put_string, put_int, base_digit, base_places, put_base, convert,
  convert_arg, behind, print_from, printf, extended,
}

-- A piece of a format: a character, or the letter behind a `%` with its argument. The argument of a
-- string is its text and what stands behind the zero.
pub data Piece : Type 0 where
  character : ℕ → Piece
  decimal : ℕ → ℕ → Piece
  byte : ℕ → ℕ → Piece
  hexadecimal : ℕ → ℕ → Piece
  string : ℕ → List ℕ → List ℕ → Piece

abbrev pub format_of : List Piece → List ℕ
format_of [] = 0 ∷ []
format_of (character c ∷ ps) = c ∷ format_of ps
format_of (decimal f n ∷ ps) = 0x25 ∷ f ∷ format_of ps
format_of (byte f n ∷ ps) = 0x25 ∷ f ∷ format_of ps
format_of (hexadecimal f n ∷ ps) = 0x25 ∷ f ∷ format_of ps
format_of (string f t others ∷ ps) = 0x25 ∷ f ∷ format_of ps

abbrev pub args_of : List Piece → List Argument
args_of [] = []
args_of (character c ∷ ps) = args_of ps
args_of (decimal f n ∷ ps) = an_int n ∷ args_of ps
args_of (byte f n ∷ ps) = an_int n ∷ args_of ps
args_of (hexadecimal f n ∷ ps) = an_int n ∷ args_of ps
args_of (string f t others ∷ ps) = a_string (t ++ 0 ∷ others) ∷ args_of ps

-- A character that is neither the end nor a `%`, the letters in both cases, numbers that are not
-- negative, and texts without a zero.
abbrev pub IsPiece : Piece → Type 0
IsPiece (character c) = (c ≢ 0) × (c ≢ 0x25)
IsPiece (decimal f n) = (f ≡ 0x64 ⊎ f ≡ 0x44) × (n < 2 ^ 31)
IsPiece (byte f n) = f ≡ 0x63 ⊎ f ≡ 0x43
IsPiece (hexadecimal f n) = (f ≡ 0x78 ⊎ f ≡ 0x58) × (n < 2 ^ 31)
IsPiece (string f t others) = (f ≡ 0x73 ⊎ f ≡ 0x53) × All (λ c. c ≢ 0) t

-- Hexadecimal digits, and the number that they stand for.
abbrev pub is_hex : ℕ → Bool
is_hex c = (leb 0x30 c && leb c 0x39) || (leb 0x41 c && leb c 0x46)

abbrev pub hex_number : ℕ → List ℕ → ℕ
hex_number n [] = n
hex_number n (c ∷ cs) = hex_number (n * 16 + (if leb c 0x39 then c - 0x30 else c - 0x37)) cs

-- The text that a piece prints: decimal digits that `atoi` reads as the number, or "0x" and twelve
-- hexadecimal digits of it.
abbrev pub IsTextOf : Piece → List ℕ → Type 0
IsTextOf (character c) x = x ≡ c ∷ []
IsTextOf (decimal f n) x = Digits x × (atoi (x ++ 0 ∷ []) ≡ some n)
IsTextOf (byte f n) x = x ≡ n % 2 ^ 8 ∷ []
IsTextOf (hexadecimal f n) x =
    (ds : List ℕ) × (x ≡ 0x30 ∷ 0x78 ∷ ds)
    × (length ds ≡ 12)
    × All (λ c. is_hex c ≡ true) ds
    × (hex_number 0 ds ≡ n)
IsTextOf (string f t others) x = x ≡ t

-- The texts of the pieces, one behind the other.
pub Shown : List Piece → List ℕ → Type 0
Shown [] x = x ≡ []
Shown (p ∷ ps) x = (a : List ℕ) × (b : List ℕ) × (x ≡ a ++ b) × IsTextOf p a × Shown ps b

put_string-text : (t others : List ℕ) → All (λ c. c ≢ 0) t → put_string (t ++ 0 ∷ others) ≡ some t
unfolding put_string
put_string-text [] others h = refl
put_string-text (c ∷ t) others (ne, h) =
    if-false (c == 0) _ _ (==_of_ne c 0 ne)
    ∙ ap (λ (o : Option (List ℕ)). elim o [ none ↦ none | some ds ↦ some (c ∷ ds) ])
        (put_string-text t others h)

Digits-nonzero : (ds : List ℕ) → Digits ds → All (λ c. c ≢ 0) ds
Digits-nonzero [] h = tt
Digits-nonzero (c ∷ ds) (h, hs) = ((λ e. ground arith), Digits-nonzero ds hs)

put_int-text :
    (n : ℕ)
    → n < 2 ^ 31
    → (x : List ℕ) × (put_int n ≡ some x) × Digits x × (atoi (x ++ 0 ∷ []) ≡ some n)
unfolding put_int
put_int-text n small =
    let (ds, e, h) = itoa-Digits n (omega arith) in
    let plain : extended n ≡ n = if-true (ltb n (2 ^ 31)) _ _ (ground arith) in
    (
      ds,
      ap (λ k. put_string (itoa k).1) plain
          ∙ ap put_string e
          ∙ put_string-text ds [] (Digits-nonzero ds h),
      h,
      ap atoi (sym e) ∙ atoi-itoa n (omega arith),
    )

-- The digits that are written in front of others.
base_places-hex :
    (places n : ℕ) (w : List ℕ)
    → n < 16 ^ places
    → All (λ c. is_hex c ≡ true) w
    → (length (base_places places n w) ≡ places + length w)
      × All (λ c. is_hex c ≡ true) (base_places places n w)
      × (hex_number 0 (base_places places n w) ≡ hex_number n w)
unfolding base_places base_digit
base_places-hex zero n w h all = (omega arith, all, ap (λ k. hex_number k w) (omega arith))
base_places-hex (suc i) n w h all =
    let small : n / 16 < 16 ^ i = let e = pow-suc 16 i in omega arith in
    let (len, digits, number) =
      base_places-hex i (n / 16) (base_digit (n % 16) ∷ w) small (ground arith, all) in
    (omega (arith, len), digits, number ∙ ap (λ k. hex_number k w) (ground arith))

put_base-text :
    (f n : ℕ) → n < 2 ^ 31 → (x : List ℕ) × (put_base n ≡ some x) × IsTextOf (hexadecimal f n) x
unfolding put_base
put_base-text f n small =
    let (len, digits, number) = base_places-hex 12 n [] (omega arith) tt in
    (
      0x30 ∷ 0x78 ∷ base_places 12 n [],
      if-true (ltb n (2 ^ 31)) _ _ (ground arith),
      (base_places 12 n [], refl, omega (arith, len), digits, number),
    )

-- One letter with its argument, in front of the rest.
converted :
    (f : ℕ) (a : Argument) (x y format : List ℕ) (args : List Argument)
    → convert f (a ∷ args) ≡ (some x, args)
    → print_from false format args ≡ some y
    → print_from false (0x25 ∷ f ∷ format) (a ∷ args) ≡ some (x ++ y)
unfolding print_from
converted f a x y format args e rest =
    ap (λ (r : Option (List ℕ) × List Argument). behind r.0 (print_from false format r.1)) e
    ∙ ap (behind (some x)) rest

convert-letter :
    (f g g' : ℕ) (a : Argument) (args : List Argument) (x : List ℕ)
    → (f ≡ g ⊎ f ≡ g')
    → convert g (a ∷ args) ≡ (some x, args)
    → convert g' (a ∷ args) ≡ (some x, args)
    → convert f (a ∷ args) ≡ (some x, args)
convert-letter f g g' a args x is e e' = elim is [
  | inl same ↦ ap (λ k. convert k (a ∷ args)) same ∙ e
  | inr same ↦ ap (λ k. convert k (a ∷ args)) same ∙ e'
]

-- For a format made of characters other than % and zero and of % with d, c, x or s in either case,
-- one argument for each, numbers for d and x that are not negative and strings that end with a
-- zero, printf returns, and prints the texts of the pieces one behind the other: the character;
-- decimal digits that atoi reads as the number; the low byte of the number; 0x and twelve
-- hexadecimal digits of the number; the string up to its zero.
pub printf-Shown :
    (ps : List Piece)
    → All IsPiece ps
    → (x : List ℕ) × (printf (format_of ps) (args_of ps) ≡ some x) × Shown ps x
unfolding printf print_from convert convert_arg Shown
printf-Shown [] h = ([], refl, refl)
printf-Shown (character c ∷ ps) ((end, percent), h) =
    let (y, rest, shown) = printf-Shown ps h in
    let plain : (c == 0x25) ≡ false = ==_of_ne c 0x25 percent in
    (
      c ∷ y,
      if-false (c == 0) _ _ (==_of_ne c 0 end)
          ∙ if-false (c == 0x25) _ _ plain
          ∙ ap (λ b. behind (some (c ∷ [])) (print_from b (format_of ps) (args_of ps))) plain
          ∙ ap (behind (some (c ∷ []))) rest,
      (c ∷ [], y, refl, refl, shown),
    )
printf-Shown (decimal f n ∷ ps) ((letter, small), h) =
    let (y, rest, shown) = printf-Shown ps h in
    let (x, e, digits, number) = put_int-text n small in
    let step = ap (λ (o : Option (List ℕ)). (o, args_of ps)) e in
    (
      x ++ y,
      converted f (an_int n) x y (format_of ps) (args_of ps)
          (convert-letter f 0x64 0x44 (an_int n) (args_of ps) x letter step step) rest,
      (x, y, refl, (digits, number), shown),
    )
printf-Shown (byte f n ∷ ps) (letter, h) =
    let (y, rest, shown) = printf-Shown ps h in
    let x : List ℕ = n % 2 ^ 8 ∷ [] in
    (
      x ++ y,
      converted f (an_int n) x y (format_of ps) (args_of ps)
          (convert-letter f 0x63 0x43 (an_int n) (args_of ps) x letter refl refl) rest,
      (x, y, refl, refl, shown),
    )
printf-Shown (hexadecimal f n ∷ ps) ((letter, small), h) =
    let (y, rest, shown) = printf-Shown ps h in
    let (x, e, text) = put_base-text f n small in
    let step = ap (λ (o : Option (List ℕ)). (o, args_of ps)) e in
    (
      x ++ y,
      converted f (an_int n) x y (format_of ps) (args_of ps)
          (convert-letter f 0x78 0x58 (an_int n) (args_of ps) x letter step step) rest,
      (x, y, refl, text, shown),
    )
printf-Shown (string f t others ∷ ps) ((letter, texts), h) =
    let (y, rest, shown) = printf-Shown ps h in
    let step = ap (λ (o : Option (List ℕ)). (o, args_of ps)) (put_string-text t others texts) in
    (
      t ++ y,
      converted f (a_string (t ++ 0 ∷ others)) t y (format_of ps) (args_of ps)
          (convert-letter f 0x73 0x53 (a_string (t ++ 0 ∷ others)) (args_of ps) t letter step step)
          rest,
      (t, y, refl, refl, shown),
    )
