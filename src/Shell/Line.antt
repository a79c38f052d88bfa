-- ===== src/Shell/Line.antt =====
-- `parse_buffer` of a line of words.
use mathlib.Core.List.{append-nil, append_assoc}
use macac_os.Base.{
  ℕ, zero, suc, ◌+◌, ◌≤◌, ◌<◌, ◌≡◌, refl, sym, ap, ap₂, ◌∙◌, false, not, ◌&&◌, Option, none, some,
  List, [], ◌∷◌, ◌++◌, All, arith, leb, ◌==◌, if◌then◌else◌, if-true, if-false, length,
  length-append, replicate,
}
use macac_os.Shell.{
  max_parameters, length_parameters, buffer_length, skip_spaces, first_word, Parameters,
  read_params, params_behind, parse_params, parse_buffer,
}
use macac_os.Shell.Parse.{IsPart, IsText, read_params-word, skip_spaces-text, read_params-space}

-- A word of a line.
abbrev pub IsWord : List ℕ → Type 0
IsWord w = (0 < length w) × All IsText w

-- The words, with a space in front of each, and what stands behind them.
abbrev pub spaced : List (List ℕ) → List ℕ → List ℕ
spaced [] pad = pad
spaced (w ∷ ws) pad = 0x20 ∷ (w ++ spaced ws pad)

-- The parameters that the words become: the last one is followed by what stands behind the line.
abbrev pub params_of : List (List ℕ) → List ℕ → List (List ℕ)
params_of [] pad = []
params_of (w ∷ []) pad = (w ++ pad) ∷ []
params_of (w ∷ v ∷ ws) pad = (w ++ 0 ∷ []) ∷ params_of (v ∷ ws) pad

All-IsPart : (w : List ℕ) → All IsText w → All IsPart w
All-IsPart [] texts = tt
All-IsPart (c ∷ w) (text, texts) = (text.0, All-IsPart w texts)

All-IsPart_append : (w v : List ℕ) → All IsPart w → All IsPart v → All IsPart (w ++ v)
All-IsPart_append [] v parts others = others
All-IsPart_append (c ∷ w) v (part, parts) others = (part, All-IsPart_append w v parts others)

read_params-spaced :
    (k : ℕ) (before : List (List ℕ)) (w : List ℕ) (ws : List (List ℕ)) (pad : List ℕ)
    → k + length ws < max_parameters
    → length (w ++ spaced ws pad) ≤ length_parameters
    → All IsText w
    → All IsWord ws
    → All IsPart pad
    → read_params (suc (length (w ++ spaced ws pad))) k [] before (w ++ spaced ws pad)
      ≡ some (record { written = before ++ params_of (w ∷ ws) pad; size = some (k + length ws) })
unfolding read_params
read_params-spaced k before w [] pad few short texts words parts =
    let fuel : suc (length (w ++ pad)) ≡ length (w ++ pad) + 1 = omega arith in
    ap₂ (λ f l. read_params f k [] before l) fuel (sym (append-nil (w ++ pad)))
    ∙ read_params-word 1 k [] before (w ++ pad) [] (omega arith) (omega arith)
        (All-IsPart_append w pad (All-IsPart w texts) parts)
    ∙ ap (λ n. some (record { written = before ++ (w ++ pad) ∷ []; size = some n })) (omega arith)
read_params-spaced k before w ([] ∷ ws) pad few short texts ((nonempty, text), words) parts =
    absurd (omega arith)
read_params-spaced k before w ((c ∷ v) ∷ ws) pad few short texts
      ((nonempty, (text, rest_texts)), words) parts =
    let rest = c ∷ v ++ spaced ws pad in
    let total : length (w ++ 0x20 ∷ rest) ≡ length w + suc (length rest) =
      length-append w (0x20 ∷ rest) in
    let fuel : suc (length (w ++ 0x20 ∷ rest)) ≡ length w + suc (suc (length rest)) =
      omega (arith, total) in
    ap (λ f. read_params f k [] before (w ++ 0x20 ∷ rest)) fuel
    ∙ read_params-word (suc (suc (length rest))) k [] before w (0x20 ∷ rest) (omega arith)
        (omega (arith, total)) (All-IsPart w texts)
    ∙ read_params-space (suc (length rest)) k w before c (v ++ spaced ws pad) (omega arith)
        (omega (arith, total)) text
    ∙ read_params-spaced (k + 1) (before ++ (w ++ 0 ∷ []) ∷ []) (c ∷ v) ws pad (omega arith)
        (omega (arith, total)) (text, rest_texts) words parts
    ∙ ap₂ (λ l n. some (record { written = l; size = some n }))
        (append_assoc before ((w ++ 0 ∷ []) ∷ []) (params_of ((c ∷ v) ∷ ws) pad)) (omega arith)

first_word-text :
    (w rest : List ℕ) (c : ℕ) (cs : List ℕ)
    → All IsText w
    → rest ≡ c ∷ cs
    → (not (c == 0x20) && not (c == 0)) ≡ false
    → first_word (w ++ rest) ≡ (w, rest)
unfolding first_word
first_word-text [] rest c cs texts is ends =
    rw is (if-false (not (c == 0x20) && not (c == 0)) _ _ ends)
first_word-text (d ∷ w) rest c cs (text, texts) is ends =
    if-true (not (d == 0x20) && not (d == 0)) _ _ (ground arith)
    ∙ ap (λ (r : List ℕ × List ℕ). (d ∷ r.0, r.1)) (first_word-text w rest c cs texts is ends)

parse_params-spaced :
    (ws : List (List ℕ)) (pad : List ℕ)
    → length ws < max_parameters
    → length (spaced ws (0 ∷ pad)) ≤ length_parameters
    → All IsWord ws
    → All IsPart pad
    → parse_params (spaced ws (0 ∷ pad))
      ≡ some (record { written = params_of ws (0 ∷ pad); size = some (length ws) })
unfolding parse_params params_behind skip_spaces
parse_params-spaced [] pad few short words parts = refl
parse_params-spaced ([] ∷ ws) pad few short ((nonempty, texts), words) parts = absurd (omega arith)
parse_params-spaced ((c ∷ v) ∷ ws) pad few short ((nonempty, (text, texts)), words) parts =
    ap params_behind (skip_spaces-text c (v ++ spaced ws (0 ∷ pad)) text.0)
    ∙ if-false (c == 0) _ _ (ground arith)
    ∙ read_params-spaced 1 [] (c ∷ v) ws (0 ∷ pad) (omega arith) (omega arith) (text, texts) words
        (omega arith, parts)
    ∙ ap (λ n. some (record { written = params_of ((c ∷ v) ∷ ws) (0 ∷ pad); size = some n }))
        (omega arith)

-- What follows the first word of a line ends it.
first_word-spaced :
    (w : List ℕ) (ws : List (List ℕ)) (pad : List ℕ)
    → All IsText w
    → first_word (w ++ spaced ws (0 ∷ pad)) ≡ (w, spaced ws (0 ∷ pad))
first_word-spaced w [] pad texts = first_word-text w (0 ∷ pad) 0 pad texts refl refl
first_word-spaced w (v ∷ ws) pad texts =
    first_word-text w (spaced (v ∷ ws) (0 ∷ pad)) 0x20 (v ++ spaced ws (0 ∷ pad)) texts refl refl

All-IsPart_zeros : (n : ℕ) → All IsPart (replicate n 0)
All-IsPart_zeros zero = tt
All-IsPart_zeros (suc n) = (omega arith, All-IsPart_zeros n)

length-spaced-pos : (ws : List (List ℕ)) (pad : List ℕ) → 0 < length (spaced ws (0 ∷ pad))
length-spaced-pos [] pad = omega arith
length-spaced-pos (w ∷ ws) pad = omega arith

-- `parse_buffer` behind the two searches for the first word.
finish : List ℕ × List ℕ → Option (List ℕ × Parameters)
finish split =
    if leb buffer_length (length split.0)
    then none
    else elim (parse_params split.1) [ none ↦ none | some p ↦ some (split.0 ++ 0 ∷ [], p) ]

-- For a command and at most four parameters, words of bytes other than space and zero with single
-- spaces between them, that fill a buffer of at most 256 bytes together with the zero bytes behind
-- them, parse_buffer returns the command, each parameter with zero bytes behind it, and their
-- number, without reading behind the buffer.
pub parse_buffer-spaced :
    (command : List ℕ) (ws : List (List ℕ)) (n : ℕ)
    → IsWord command
    → All IsWord ws
    → length ws < max_parameters
    → length (command ++ spaced ws (replicate (suc n) 0)) ≤ buffer_length
    → parse_buffer (command ++ spaced ws (replicate (suc n) 0))
      ≡ some (
        command ++ 0 ∷ [],
        record { written = params_of ws (replicate (suc n) 0); size = some (length ws) },
      )
unfolding parse_buffer finish
parse_buffer-spaced [] ws n (nonempty, texts) words few short = absurd (omega arith)
parse_buffer-spaced (c ∷ w) ws n (nonempty, (text, texts)) words few short =
    let pad : List ℕ = replicate n 0 in
    let fits : suc (length (w ++ spaced ws (0 ∷ pad))) ≤ buffer_length = short in
    let total : length (w ++ spaced ws (0 ∷ pad)) ≡ length w + length (spaced ws (0 ∷ pad)) =
      length-append w (spaced ws (0 ∷ pad)) in
    let padded : 0 < length (spaced ws (0 ∷ pad)) = length-spaced-pos ws pad in
    let room : suc (length w) < buffer_length = omega (arith, total, padded, fits) in
    ap (λ l. finish (first_word l)) (skip_spaces-text c (w ++ spaced ws (0 ∷ pad)) text.0)
    ∙ ap finish (first_word-spaced (c ∷ w) ws pad (text, texts))
    ∙ if-false (leb buffer_length (suc (length w))) _ _ (ground arith)
    ∙ ap
        (λ (o : Option Parameters). elim o as (λ _. Option (List ℕ × Parameters)) [
          | none ↦ none
          | some p ↦ some ((c ∷ w) ++ 0 ∷ [], p)
        ])
        (parse_params-spaced ws pad few (omega (arith, total, fits)) words (All-IsPart_zeros n))
