-- ===== src/Commands/Words.antt =====
-- What `wc` counts, and what `filter` leaves.
use macac_os.Base.{
  ℕ, suc, ◌+◌, ◌-◌, ◌<◌, ◌≡◌, ◌≢◌, refl, sym, ap, ◌∙◌, Bool, true, false, not, ◌&&◌, ◌||◌,
  Bool-cases, inl, inr, Option, none, some, List, [], ◌∷◌, ◌++◌, ◌==◌, ==_of_ne, if◌then◌else◌,
  if-true, if-false, length, replicate, All, arith,
}
use macac_os.Commands.{
  Typing, Counted, is_not_vowel, get_buffer, count_from, wc, without_vowels, filter, eof,
  max_buffer, is_allowed_char,
}
use macac_os.Commands.Text.{put_key, typed_back, in_order, in_order-append, type_chars-Holds}

-- The fields of a text between spaces and line ends.
abbrev pub is_separator : ℕ → Bool
is_separator c = c == 0x20 || c == 0xA

abbrev pub onto_first : ℕ → List (List ℕ) → List (List ℕ)
onto_first c [] = (c ∷ []) ∷ []
onto_first c (f ∷ fs) = (c ∷ f) ∷ fs

abbrev pub fields : List ℕ → List (List ℕ)
fields [] = [] ∷ []
fields (c ∷ cs) = if is_separator c then [] ∷ fields cs else onto_first c (fields cs)

-- The number of fields that are not empty.
abbrev pub words_in : List (List ℕ) → ℕ
words_in [] = 0
words_in ([] ∷ fs) = words_in fs
words_in ((_ ∷ _) ∷ fs) = suc (words_in fs)

abbrev pub line_ends : List ℕ → ℕ
line_ends [] = 0
line_ends (c ∷ cs) = if c == 0xA then suc (line_ends cs) else line_ends cs

abbrev behind_first : List (List ℕ) → List (List ℕ)
behind_first [] = []
behind_first (_ ∷ fs) = fs

-- The fields that are still to count, in a word or not.
abbrev to_count : Bool → List (List ℕ) → ℕ
to_count true fs = words_in (behind_first fs)
to_count false fs = words_in fs

abbrev counted : ℕ → ℕ → ℕ → Counted
counted w l n = record { words = w; lines = l; letter = n }

to_count-onto_first :
    (c : ℕ) (fs : List (List ℕ)) → to_count true (onto_first c fs) ≡ words_in (behind_first fs)
to_count-onto_first c [] = refl
to_count-onto_first c (f ∷ fs) = refl

words_in-onto_first :
    (c : ℕ) (fs : List (List ℕ)) → words_in (onto_first c fs) ≡ suc (words_in (behind_first fs))
words_in-onto_first c [] = refl
words_in-onto_first c (f ∷ fs) = refl

counted-eq : (w w' l l' n n' : ℕ) → w ≡ w' → l ≡ l' → n ≡ n' → counted w l n ≡ counted w' l' n'
counted-eq w w' l l' n n' a b c =
    ap (λ x. counted x l n) a ∙ ap (λ x. counted w' x n) b ∙ ap (λ x. counted w' l' x) c

-- One character, of a word or not: the words that it starts.
words_step :
    (word in_word : Bool) (w c : ℕ) (fs : List (List ℕ))
    → (if word && not in_word then w + 1 else w) + to_count word fs
      ≡ w + to_count in_word (if word then onto_first c fs else [] ∷ fs)
words_step true true w c fs = ap (λ n. w + n) (sym (to_count-onto_first c fs))
words_step true false w c fs = omega (arith, words_in-onto_first c fs)
words_step false true w c fs = refl
words_step false false w c fs = refl

fields-word :
    (c : ℕ) (cs : List ℕ)
    → (if not (c == 0x20) && not (c == 0xA) then onto_first c (fields cs) else [] ∷ fields cs)
      ≡ fields (c ∷ cs)
fields-word c cs = ground arith

count_from-fields :
    (in_word : Bool) (w l n : ℕ) (text rest : List ℕ)
    → All (λ c. c ≢ 0) text
    → count_from in_word (counted w l n) (text ++ 0 ∷ rest)
      ≡ some (counted (w + to_count in_word (fields text)) (l + line_ends text) (n + length text))
unfolding count_from
count_from-fields true w l n [] rest h =
    ap some (counted-eq _ _ _ _ _ _ (omega arith) (omega arith) (omega arith))
count_from-fields false w l n [] rest h =
    ap some (counted-eq _ _ _ _ _ _ (omega arith) (omega arith) (omega arith))
count_from-fields in_word w l n (c ∷ cs) rest (ne, h) =
    let word = not (c == 0x20) && not (c == 0xA) in
    let w₁ = if word && not in_word then w + 1 else w in
    let l₁ = if c == 0xA then l + 1 else l in
    if-false (c == 0) _ _ (==_of_ne c 0 ne)
    ∙ count_from-fields word w₁ l₁ (n + 1) cs rest h
    ∙ ap some (
        counted-eq _ _ _ _ _ _
          (words_step word in_word w c (fields cs)
            ∙ ap (λ fs. w + to_count in_word fs) (fields-word c cs))
          (ground arith) (omega arith))

-- A line that is typed stands at the front of the buffer, with zeros behind it.
get_buffer-typed :
    (c₀ delim : ℕ) (keys others : List ℕ)
    → c₀ ≢ delim
    → All (λ c. c ≢ delim) keys
    → length keys + 1 < max_buffer
    → (t : Typing) × (left : ℕ) × (get_buffer c₀ delim false
          (keys ++ delim ∷ others)
          (replicate max_buffer 0)
        ≡ some t)
      × (t.buffer ≡ in_order (typed_back [] (keys ++ delim ∷ [])) [] ++ 0 ∷ replicate left 0)
unfolding get_buffer
get_buffer-typed c₀ delim keys others ne nes few =
    let t₀ : Typing = record { buffer = replicate max_buffer 0; letter = 0; shown = [] } in
    let (t, left, e, le, (b, l)) =
      type_chars-Holds delim max_buffer keys others [] t₀ nes (omega arith) (refl, refl) in
    let r = typed_back [] (keys ++ delim ∷ []) in
    let one_more : left ≡ suc (left - 1) = omega (arith, le) in
    (
      t,
      left - 1,
      if-false (c₀ == delim) _ _ (==_of_ne c₀ delim ne) ∙ e,
      b
          ∙ ap (λ n. in_order r (replicate n 0)) one_more
          ∙ in_order-append r [] (0 ∷ replicate (left - 1) 0),
    )

-- The line that the keys leave: those that `writes` refuses are dropped, and Backspace takes one back.
abbrev pub edited : List ℕ → List ℕ
edited keys = in_order (typed_back [] keys) []

typed_back-append : (xs ys r : List ℕ) → typed_back r (xs ++ ys) ≡ typed_back (typed_back r xs) ys
typed_back-append [] ys r = refl
typed_back-append (x ∷ xs) ys r = typed_back-append xs ys (put_key x r)

-- The end of the file is no part of the line.
edited_eof : (keys : List ℕ) → edited (keys ++ eof ∷ []) ≡ edited keys
unfolding is_allowed_char
edited_eof keys = ap (λ r. in_order r []) (typed_back-append keys (eof ∷ []) [])

-- Where the buffer of wc holds zeros, the variable that its loop tests first does not hold the end
-- of the file by chance, and fewer than 255 keys, of which no zero remains in the line, come before
-- the end of the file, wc counts the words, lines and characters of what it takes of the keys:
-- small letters, bars, spaces, line ends and tabulators, as Backspace corrects them, while digits,
-- capitals and all others are dropped. The words are the fields between spaces and line ends that
-- are not empty, the lines are the line ends, and the characters are all that is left.
pub wc-edited :
    (c₀ : ℕ) (keys others : List ℕ)
    → c₀ ≢ eof
    → All (λ c. c ≢ eof) keys
    → length keys + 1 < max_buffer
    → All (λ c. c ≢ 0) (edited keys)
    → let text = edited keys in
      wc c₀ (keys ++ eof ∷ others) (replicate max_buffer 0)
      ≡ some
          (record { words = words_in (fields text); lines = line_ends text; letter = length text })
unfolding wc
wc-edited c₀ keys others ne nes few text_ok =
    let (t, left, e, b) = get_buffer-typed c₀ eof keys others ne nes few in
    ap
      (λ (o : Option Typing). elim o [
        | none ↦ none
        | some t ↦ count_from false (record { words = 0; lines = 0; letter = 0 }) t.buffer
      ])
      e
    ∙ ap (count_from false (counted 0 0 0)) b
    ∙ ap (λ text. count_from false (counted 0 0 0) (text ++ 0 ∷ replicate left 0)) (edited_eof keys)
    ∙ count_from-fields false 0 0 0 (edited keys) (replicate left 0) text_ok
    ∙ ap some (counted-eq _ _ _ _ _ _ (omega arith) (omega arith) (omega arith))

-- The characters that are no vowels.
abbrev consonants : List ℕ → List ℕ
consonants [] = []
consonants (c ∷ cs) = if is_not_vowel c then c ∷ consonants cs else consonants cs

without_vowels-consonants :
    (text rest : List ℕ)
    → All (λ c. c ≢ 0) text
    → without_vowels (text ++ 0 ∷ rest) ≡ some (consonants text)
unfolding without_vowels
without_vowels-consonants [] rest h = refl
without_vowels-consonants (c ∷ cs) rest (ne, h) =
    if-false (c == 0) _ _ (==_of_ne c 0 ne)
    ∙ ap
        (λ (o : Option (List ℕ)).
          if is_not_vowel c then elim o [ none ↦ none | some ds ↦ some (c ∷ ds) ] else o)
        (without_vowels-consonants cs rest h)
    ∙ elim (Bool-cases (is_not_vowel c)) [
      | inl y ↦ if-true (is_not_vowel c) _ _ y ∙ ap some (sym (if-true (is_not_vowel c) _ _ y))
      | inr n ↦ if-false (is_not_vowel c) _ _ n ∙ ap some (sym (if-false (is_not_vowel c) _ _ n))
    ]

-- What filter prints of a line.
filter-edited :
    (c₀ : ℕ) (keys others : List ℕ)
    → c₀ ≢ 0xA
    → All (λ c. c ≢ 0xA) keys
    → length keys + 1 < max_buffer
    → All (λ c. c ≢ 0) (edited (keys ++ 0xA ∷ []))
    → filter c₀ (keys ++ 0xA ∷ others) (replicate max_buffer 0)
      ≡ some (consonants (edited (keys ++ 0xA ∷ [])))
unfolding filter
filter-edited c₀ keys others ne nes few text_ok =
    let (t, left, e, b) = get_buffer-typed c₀ 0xA keys others ne nes few in
    ap (λ (o : Option Typing). elim o [ none ↦ none | some t ↦ without_vowels t.buffer ]) e
    ∙ ap without_vowels b
    ∙ without_vowels-consonants (edited (keys ++ 0xA ∷ [])) (replicate left 0) text_ok
