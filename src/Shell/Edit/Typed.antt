-- ===== src/Shell/Edit/Typed.antt =====
-- What a line that the user types and corrects becomes.
use macac_os.Base.{
  ℕ, suc, ◌+◌, ◌-◌, ◌^◌, ◌<◌, ◌≡◌, ◌≢◌, refl, sym, ap, ◌∙◌, Bool, true, false, ltb→lt, Option, some,
  List, [], ◌∷◌, ◌++◌, All, arith, ltb, ◌==◌, if◌then◌else◌, if-false, set, length, subst,
}
use macac_os.Shell.Edit.{edit, buffer_action}

abbrev pub tail : List ℕ → List ℕ
tail [] = []
tail (_ ∷ cs) = cs

-- The line, its last character first, after the keys: backspace takes one back, and there is room
-- for `room` of them.
abbrev pub edited : ℕ → List ℕ → List ℕ → List ℕ
edited room [] line = line
edited room (c ∷ cs) line =
    if ltb c (2 ^ 7)
    then (if c == 0x7F
        then edited room cs (tail line)
        else if ltb (length line) room
        then edited room cs (c ∷ line)
        else edited room cs line)
    else edited room cs line

suc_plus : (n : ℕ) → suc n ≡ n + 1
suc_plus n = omega arith

-- A line, its last character first, in front of other bytes.
abbrev pub onto : List ℕ → List ℕ → List ℕ
onto [] rest = rest
onto (c ∷ line) rest = onto line (c ∷ rest)

set-onto :
    (line rest : List ℕ) (k v : ℕ)
    → set (onto line rest) (length line + k) v ≡ onto line (set rest k v)
set-onto [] rest k v = ap (λ i. set rest i v) (omega arith)
set-onto (c ∷ line) rest k v =
    ap (λ i. set (onto line (c ∷ rest)) i v) (omega arith) ∙ set-onto line (c ∷ rest) (suc k) v

-- A write at the end of the line.
set-end :
    (line rest : List ℕ) (v : ℕ)
    → 0 < length rest
    → (rest' : List ℕ) × (set (onto line rest) (length line) v ≡ onto line (v ∷ rest'))
      × (suc (length rest') ≡ length rest)
set-end line [] v room = absurd (omega arith)
set-end line (x ∷ rest) v room = (
  rest,
  ap (λ i. set (onto line (x ∷ rest)) i v) (omega arith) ∙ set-onto line (x ∷ rest) 0 v,
  refl,
)

-- The loop ends with the line, a zero byte, and other bytes.
Ends : Option (List ℕ) → List ℕ → Type 0
Ends o line = (rest : List ℕ) × (o ≡ some (onto line (0 ∷ rest)))

Ends-if :
    (b : Bool) (o o' : Option (List ℕ)) (l l' : List ℕ)
    → (b ≡ true → Ends o l)
    → (b ≡ false → Ends o' l')
    → Ends (if b then o else o') (if b then l else l')
Ends-if true o o' l l' ends other = ends refl
Ends-if false o o' l l' ends other = other refl

-- The keys behind a key: from any line on, the loop ends.
Again : ℕ → List ℕ → List ℕ → Type 0
Again n keys ks =
    (line rest : List ℕ)
    → 0 < length rest
    → length line + length rest ≡ n
    → Ends (edit n ks (onto line rest) (length line)) (edited (n - 1) keys line)

deleted-Ends :
    (n : ℕ) (keys ks line rest : List ℕ)
    → Again n keys ks
    → 0 < length rest
    → length line + length rest ≡ n
    → Ends (edit n ks (onto line rest) (length line - 1)) (edited (n - 1) keys (tail line))
unfolding Again
deleted-Ends n keys ks [] rest again room size = again [] rest room size
deleted-Ends n keys ks (x ∷ l) rest again room size =
    let i : length l ≡ length (x ∷ l) - 1 = omega arith in
    subst (λ i. Ends (edit n ks (onto l (x ∷ rest)) i) (edited (n - 1) keys l)) i
      (again l (x ∷ rest) (omega arith) (omega arith))

written-Ends :
    (n c : ℕ) (keys ks line rest : List ℕ)
    → Again n keys ks
    → 0 < length rest
    → length line + length rest ≡ n
    → length line < n - 1
    → Ends
        (edit n ks (set (onto line rest) (length line) c) (length line + 1))
        (edited (n - 1) keys (c ∷ line))
unfolding Again
written-Ends n c keys ks line rest again room size fits =
    let (rest', done, shorter) = set-end line rest c room in
    subst (λ b. Ends (edit n ks b (length line + 1)) (edited (n - 1) keys (c ∷ line))) (sym done)
      (subst (λ i. Ends (edit n ks (onto (c ∷ line) rest') i) (edited (n - 1) keys (c ∷ line)))
        (suc_plus (length line))
        (again (c ∷ line) rest' (omega (arith, shorter)) (omega (arith, shorter))))

edit-Ends :
    (n : ℕ) (keys after line rest : List ℕ)
    → All (λ c. c ≢ 0xA) keys
    → 0 < length rest
    → length line + length rest ≡ n
    → Ends (edit n (keys ++ 0xA ∷ after) (onto line rest) (length line)) (edited (n - 1) keys line)
unfolding edit Ends Again
edit-Ends n [] after line rest others room size =
    let (rest', done, shorter) = set-end line rest 0 room in (rest', ap some done)
edit-Ends n (c ∷ keys) after line rest (other, others) room size =
    let again : Again n keys (keys ++ 0xA ∷ after) =
      λ l r more fit. edit-Ends n keys after l r others more fit in
    subst (λ o. Ends o (edited (n - 1) (c ∷ keys) line))
      (sym (if-false (c == 0xA) _ _ (ground arith)))
      (Ends-if (ltb c (2 ^ 7)) _ _ _ _
        (λ plain.
          Ends-if (c == 0x7F) _ _ _ _
            (λ back. deleted-Ends n keys (keys ++ 0xA ∷ after) line rest again room size)
            (λ typed.
              Ends-if (ltb (length line) (n - 1)) _ _ _ _
                (λ fits.
                  written-Ends n c keys (keys ++ 0xA ∷ after) line rest again room size
                    (ltb→lt (length line) (n - 1) fits))
                (λ full. again line rest room size)))
        (λ negative. again line rest room size))

-- For keys up to Enter, buffer_action fills a buffer that is not empty with the corrected line and
-- a zero byte: the characters in their order, each backspace taking the last one back, and those
-- that do not fit dropped.
pub buffer_action-edited :
    (keys after buffer : List ℕ)
    → All (λ c. c ≢ 0xA) keys
    → 0 < length buffer
    → (rest : List ℕ) × (buffer_action (length buffer) (keys ++ 0xA ∷ after) buffer
        ≡ some (onto (edited (length buffer - 1) keys []) (0 ∷ rest)))
unfolding buffer_action Ends
buffer_action-edited keys after buffer others room =
    let (rest, done) = edit-Ends (length buffer) keys after [] buffer others room (omega arith) in
    (rest, if-false (length buffer == 0) _ _ (ground arith) ∙ done)
