-- ===== src/Shell/Parse.antt =====
-- `read_params` on words that are separated by single spaces.
use mathlib.Core.List.{append-nil, append_assoc}
use macac_os.Base.{
  ℕ, suc, ◌+◌, ◌≤◌, ◌<◌, ◌≡◌, ◌≢◌, sym, ap, ap₂, ◌∙◌, not, ◌||◌, List, [], ◌∷◌, ◌++◌, All, arith,
  leb, ◌==◌, if-true, if-false, length, length-append,
}
use macac_os.Shell.{max_parameters, length_parameters, skip_spaces, read_params}

-- A byte that is not a space.
abbrev pub IsPart : ℕ → Type 0
IsPart c = c ≢ 0x20

-- A byte of a word.
abbrev pub IsText : ℕ → Type 0
IsText c = (c ≢ 0x20) × (c ≢ 0)

-- One byte that is not a space.
read_params-step :
    (fuel k : ℕ) (cur : List ℕ) (before : List (List ℕ)) (c : ℕ) (cs : List ℕ)
    → k < max_parameters
    → length cur < length_parameters
    → IsPart c
    → read_params (suc fuel) k cur before (c ∷ cs) ≡ read_params fuel k (cur ++ c ∷ []) before cs
unfolding read_params
read_params-step fuel k cur before c cs few short part =
    if-false (leb max_parameters k || leb length_parameters (length cur)) _ _ (ground arith)
    ∙ if-true (not (c == 0x20)) _ _ (ground arith)

pub read_params-word :
    (fuel k : ℕ) (cur : List ℕ) (before : List (List ℕ)) (w rest : List ℕ)
    → k < max_parameters
    → length cur + length w ≤ length_parameters
    → All IsPart w
    → read_params (length w + fuel) k cur before (w ++ rest)
      ≡ read_params fuel k (cur ++ w) before rest
read_params-word fuel k cur before [] rest few short parts =
    ap₂ (λ f l. read_params f k l before rest) (omega arith) (sym (append-nil cur))
read_params-word fuel k cur before (c ∷ w) rest few short (part, parts) =
    ap (λ f. read_params f k cur before (c ∷ w ++ rest)) (omega arith)
    ∙ read_params-step (length w + fuel) k cur before c (w ++ rest) few (omega arith) part
    ∙ read_params-word fuel k (cur ++ c ∷ []) before w rest few
        (omega (arith, length-append cur (c ∷ []))) parts
    ∙ ap (λ l. read_params fuel k l before rest) (append_assoc cur (c ∷ []) w)

pub skip_spaces-text : (c : ℕ) (cs : List ℕ) → IsPart c → skip_spaces (c ∷ cs) ≡ c ∷ cs
unfolding skip_spaces
skip_spaces-text c cs part = if-false (c == 0x20) _ _ (ground arith)

-- A space in front of another word.
pub read_params-space :
    (fuel k : ℕ) (cur : List ℕ) (before : List (List ℕ)) (c : ℕ) (cs : List ℕ)
    → k < max_parameters
    → length cur < length_parameters
    → IsText c
    → read_params (suc fuel) k cur before (0x20 ∷ c ∷ cs)
      ≡ read_params fuel (k + 1) [] (before ++ (cur ++ 0 ∷ []) ∷ []) (c ∷ cs)
unfolding read_params
read_params-space fuel k cur before c cs few short text =
    if-false (leb max_parameters k || leb length_parameters (length cur)) _ _ (ground arith)
    ∙ rw (skip_spaces-text c cs text.0) (if-false (c == 0) _ _ (ground arith))
