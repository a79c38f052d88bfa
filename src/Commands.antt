-- ===== src/Commands.antt =====
-- Userland/SampleCodeModule/commands.c: the commands that work on text, and what the others make of the
-- results of system calls.
pub mod Text
pub mod Words
mod Tests
use macac_os.Base.{
  ℕ, zero, suc, ◌+◌, ◌-◌, ◌*◌, ◌/◌, ◌%◌, ◌^◌, Bool, true, false, not, ◌&&◌, ◌||◌, Option, none,
  some, List, [], ◌∷◌, ◌++◌, ltb, leb, ◌==◌, if◌then◌else◌, length, set, get_elem?,
}
use macac_os.Strings.{str_len, atoi}

-- `EOF`, as the bits of the `char`.
abbrev pub eof : ℕ
eof = 0xFE

abbrev pub max_buffer : ℕ
max_buffer = 256

unfoldable pub is_hexa : ℕ → Bool
is_hexa a = (leb 0x30 a && leb a 0x39) || (leb 0x61 a && leb a 0x66) || (leb 0x41 a && leb a 0x46)

unfoldable pub byte_hex_to_char : ℕ → ℕ
byte_hex_to_char value = if leb 10 value then (value - 10) + 0x41 else value + 0x30

-- The loop of `check_mem` over `left` characters.
unfoldable pub all_hexa : ℕ → List ℕ → Option Bool
unfolding is_hexa
all_hexa zero s = some true
all_hexa (suc left) [] = none
all_hexa (suc left) (c ∷ cs) = let rest = all_hexa left cs in if is_hexa c then rest else some false

-- `none` is a read behind the text.
unfoldable pub check_mem : List ℕ → Option Bool
unfolding all_hexa
check_mem s = elim (str_len s) [
  | none ↦ none
  | some len ↦ elim s [
    | [] ↦ none
    | a ∷ more ↦ elim more [
      | [] ↦ some false
      | b ∷ digits ↦
          if ltb len 2 || not (a == 0x30) || not (b == 0x78)
          then some false
          else all_hexa (len - 2) digits
    ]
  ]
]

-- The text that `print_mem` prints for the bytes at the address.
unfoldable pub dump_bytes : ℕ → List ℕ → List ℕ
unfolding byte_hex_to_char
dump_bytes i [] = 0xA ∷ []
dump_bytes i (b ∷ bs) =
    (if i == 16 then 0xA ∷ [] else [])
    ++ 0x30
      ∷ 0x78
      ∷ byte_hex_to_char (b / 16)
      ∷ byte_hex_to_char (b % 16)
      ∷ 0x20
      ∷ dump_bytes (i + 1) bs

-- What `change_font_size` asks for: the level, once the answer to the warning, if there is one, is yes.
-- `none` is a read behind the text, or the wait for an answer.
unfoldable pub ask : List ℕ → Option Bool
ask [] = none
ask (c ∷ cs) =
    let rest = ask cs in if c == 0x79 then some true else if c == 0x6E then some false else rest

unfoldable pub change_font_size : List ℕ → List ℕ → Option (Option ℕ)
unfolding ask
change_font_size param answers = elim (str_len param) [
  | none ↦ none
  | some len ↦ elim param [
    | [] ↦ none
    | c ∷ _ ↦
        if ltb 1 len
        then some none
        else if c == 0x31 || c == 0x32
        then some (some (c - 0x30))
        else if c == 0x33
        then elim (ask answers) [ none ↦ none | some y ↦ some (if y then some 3 else none) ]
        else some none
  ]
]

-- The loop of `calculate_max_len` over the names.
unfoldable pub calculate_max_len : ℕ → List (List ℕ) → Option ℕ
calculate_max_len max_len [] = some max_len
calculate_max_len max_len (name ∷ names) = elim (str_len name) [
  | none ↦ none
  | some len ↦ calculate_max_len (if ltb max_len len then len else max_len) names
]

-- What `kill` and `block` print, by the result of the system call.
pub data Report : Type 0 where
  pid_not_found : Report
  immortal_process : Report
  with_pid : ℕ → Report

unfoldable pub kill : ℕ → Report
kill deleted_pid =
    if deleted_pid == 2 ^ 32 - 1
    then pid_not_found
    else if deleted_pid == 2 ^ 32 - 4
    then immortal_process
    else with_pid deleted_pid

unfoldable pub block : ℕ → Report
block changed_process =
    if changed_process == 2 ^ 32 - 1 then pid_not_found else with_pid changed_process

-- The buffer that a line is typed into, the number of its characters, and the lines shown in colour.
pub record Typing : Type 0 where
  pub buffer : List ℕ
  pub letter : ℕ
  pub shown : List (List ℕ)

unfoldable pub is_allowed_char : ℕ → Bool
is_allowed_char c =
    (leb 0x61 c && leb c 0x7A) || c == 0x7C || c == 0x20 || c == 0 || c == 0xA || c == 9

unfoldable pub is_not_vowel : ℕ → Bool
is_not_vowel c = not (c == 0x61 || c == 0x65 || c == 0x69 || c == 0x6F || c == 0x75)

-- The loop that resets the first `n` characters.
unfoldable pub reset : ℕ → List ℕ → List ℕ
reset zero buffer = buffer
reset (suc n) [] = []
reset (suc n) (c ∷ cs) = 0 ∷ reset n cs

-- The bytes before the first zero byte; `none` is a read behind the list.
unfoldable pub text_of : List ℕ → Option (List ℕ)
text_of [] = none
text_of (c ∷ cs) =
    let rest = text_of cs in
    if c == 0 then some [] else elim rest [ none ↦ none | some ds ↦ some (c ∷ ds) ]

-- The three tests in a round of `get_buffer`. `none` is an access behind the buffer.
unfoldable pub put_allowed : ℕ → Typing → Option Typing
unfolding is_allowed_char
put_allowed c t =
    if is_allowed_char c
    then (if ltb t.letter (length t.buffer)
        then some (record t { buffer = set t.buffer t.letter c; letter = t.letter + 1 })
        else none)
    else some t

unfoldable pub take_back : ℕ → Typing → Typing
take_back c t =
    if c == 0x7F && ltb 0 t.letter
    then record t { buffer = set t.buffer (t.letter - 1) 0; letter = t.letter - 1 }
    else t

unfoldable pub show_line : ℕ → Bool → ℕ → Typing → Option Typing
unfolding reset text_of
show_line delim cat_flag c t =
    let ended = set t.buffer t.letter 0 in
    if not (delim == 0xA) && c == 0xA && cat_flag
    then (if ltb t.letter (length t.buffer)
        then elim (text_of ended) [
          | none ↦ none
          | some line ↦
              some
                (record { buffer = reset t.letter ended; letter = 0; shown = t.shown ++ line ∷ [] })
        ]
        else none)
    else some t

unfoldable pub type_char : ℕ → Bool → ℕ → Typing → Option Typing
unfolding put_allowed take_back show_line
type_char delim cat_flag c t = elim (put_allowed c t) [
  | none ↦ none
  | some t' ↦ show_line delim cat_flag c (take_back c t')
]

-- The loop of `get_buffer` on the characters that `do_get_char` returns. `none` is also the wait for
-- another one.
unfoldable pub type_chars : ℕ → Bool → List ℕ → Typing → Option Typing
unfolding type_char
type_chars delim cat_flag [] t = none
type_chars delim cat_flag (c ∷ cs) t = elim (type_char delim cat_flag c t) [
  | none ↦ none
  | some t' ↦ elim (c == delim) [ true ↦ some t' | false ↦ type_chars delim cat_flag cs t' ]
]

-- `c₀` is what the variable `c`, which nothing sets, holds before the loop, and `buffer` what the
-- array of the caller holds.
unfoldable pub get_buffer : ℕ → ℕ → Bool → List ℕ → List ℕ → Option Typing
unfolding type_chars
get_buffer c₀ delim cat_flag keys buffer =
    let t : Typing = record { buffer = buffer; letter = 0; shown = [] } in
    if c₀ == delim then some t else type_chars delim cat_flag keys t

unfoldable pub cat : ℕ → List ℕ → List ℕ → Option (List (List ℕ))
unfolding get_buffer
cat c₀ keys buffer = elim (get_buffer c₀ eof true keys buffer) [
  | none ↦ none
  | some t ↦ some t.shown
]

pub record Counted : Type 0 where
  pub words : ℕ
  pub lines : ℕ
  pub letter : ℕ

-- The loop of `wc`. The index stays inside the buffer.
unfoldable pub count_from : Bool → Counted → List ℕ → Option Counted
count_from in_word n [] = none
count_from in_word n (c ∷ cs) =
    let word = not (c == 0x20) && not (c == 0xA) in
    let rest =
      count_from word
        (record {
          words = if word && not in_word then n.words + 1 else n.words;
          lines = if c == 0xA then n.lines + 1 else n.lines;
          letter = n.letter + 1;
        })
        cs in
    if c == 0 then some n else rest

unfoldable pub wc : ℕ → List ℕ → List ℕ → Option Counted
unfolding get_buffer count_from
wc c₀ keys buffer = elim (get_buffer c₀ eof false keys buffer) [
  | none ↦ none
  | some t ↦ count_from false (record { words = 0; lines = 0; letter = 0 }) t.buffer
]

-- The loop of `filter`: what it copies.
unfoldable pub without_vowels : List ℕ → Option (List ℕ)
unfolding is_not_vowel
without_vowels [] = none
without_vowels (c ∷ cs) =
    let rest = without_vowels cs in
    if c == 0
    then some []
    else if is_not_vowel c
    then elim rest [ none ↦ none | some ds ↦ some (c ∷ ds) ]
    else rest

unfoldable pub filter : ℕ → List ℕ → List ℕ → Option (List ℕ)
unfolding get_buffer without_vowels
filter c₀ keys buffer = elim (get_buffer c₀ 0xA false keys buffer) [
  | none ↦ none
  | some t ↦ without_vowels t.buffer
]
