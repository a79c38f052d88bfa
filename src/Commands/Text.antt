-- ===== src/Commands/Text.antt =====
-- The line that is typed, and what `wc` and `filter` make of it.
use macac_os.Base.{
  ℕ, zero, suc, ◌+◌, ◌-◌, ◌≤◌, ◌<◌, ◌≡◌, ◌≢◌, refl, sym, ap, ◌∙◌, subst, Bool, true, false, not,
  ◌&&◌, ◌||◌, leb, Bool-cases, inl, inr, Option, none, some, List, [], ◌∷◌, ◌++◌, ltb, ◌==◌,
  ==_of_ne, if◌then◌else◌, if-true, if-false, length, set, replicate, All, arith,
}
use macac_os.Commands.{
  Typing, is_allowed_char, put_allowed, take_back, show_line, type_char, type_chars,
}

-- The keys that leave a character: the small letters, the bar, the space, the zero byte, the line end
-- and the tabulator.
abbrev pub writes : ℕ → Bool
writes c =
    if leb c 0x20
    then c == 0x20 || c == 0xA || c == 9 || c == 0
    else leb c 0x7A && leb 0x61 c || c == 0x7C

is_allowed_char-writes : (c : ℕ) → is_allowed_char c ≡ writes c
unfolding is_allowed_char
is_allowed_char-writes c = ground arith

-- The characters of a line, the last one first.
abbrev pub put_key : ℕ → List ℕ → List ℕ
put_key c r = if writes c then c ∷ r else if c == 0x7F then elim r [ [] ↦ [] | _ ∷ r' ↦ r' ] else r

abbrev pub typed_back : List ℕ → List ℕ → List ℕ
typed_back r [] = r
typed_back r (c ∷ cs) = typed_back (put_key c r) cs

-- `ys` behind the characters, in their order.
abbrev pub in_order : List ℕ → List ℕ → List ℕ
in_order [] ys = ys
in_order (x ∷ r) ys = in_order r (x ∷ ys)

pub in_order-append : (r xs ys : List ℕ) → in_order r (xs ++ ys) ≡ in_order r xs ++ ys
in_order-append [] xs ys = refl
in_order-append (x ∷ r) xs ys = in_order-append r (x ∷ xs) ys

set-in_order :
    (r ys : List ℕ) (i v : ℕ) → set (in_order r ys) (length r + i) v ≡ in_order r (set ys i v)
set-in_order [] ys i v = ap (λ n. set ys n v) (omega arith)
set-in_order (x ∷ r) ys i v =
    ap (λ n. set (in_order r (x ∷ ys)) n v) (omega arith) ∙ set-in_order r (x ∷ ys) (suc i) v

length-in_order : (r ys : List ℕ) → length (in_order r ys) ≡ length r + length ys
length-in_order [] ys = omega arith
length-in_order (x ∷ r) ys = length-in_order r (x ∷ ys) ∙ omega arith

-- The buffer holds the line, and zeros behind it.
abbrev pub Holds : List ℕ → ℕ → Typing → Type 0
Holds r room t = (t.buffer ≡ in_order r (replicate room 0)) × (t.letter ≡ length r)

put_allowed-Holds :
    (c room : ℕ) (r : List ℕ) (t : Typing)
    → is_allowed_char c ≡ true
    → Holds r (suc room) t
    → (t' : Typing) × (put_allowed c t ≡ some t') × Holds (c ∷ r) room t'
unfolding put_allowed
put_allowed-Holds c room r t ok (b, l) =
    let size = length-in_order r (replicate (suc room) 0) in
    let t' : Typing = record t { buffer = set t.buffer t.letter c; letter = t.letter + 1 } in
    let inside : ltb t.letter (length t.buffer) ≡ true =
      ground (arith, ap (λ (xs : List ℕ). length xs) b, size, l) in
    (
      t',
      if-true (is_allowed_char c) _ _ ok ∙ if-true (ltb t.letter (length t.buffer)) _ _ inside,
      (
        ap (λ xs. set xs t.letter c) b
            ∙ ap (λ n. set (in_order r (replicate (suc room) 0)) n c) (omega (arith, l))
            ∙ set-in_order r (replicate (suc room) 0) 0 c,
        omega (arith, l),
      ),
    )

put_allowed-none : (c : ℕ) (t : Typing) → is_allowed_char c ≡ false → put_allowed c t ≡ some t
unfolding put_allowed
put_allowed-none c t e = if-false (is_allowed_char c) _ _ e

allowed_plain : (c : ℕ) (b : Bool) → is_allowed_char c ≡ true → (c == 0x7F && b) ≡ false
unfolding is_allowed_char
allowed_plain c b ok = ground arith

take_back-kept : (c : ℕ) (t : Typing) → (c == 0x7F && ltb 0 t.letter) ≡ false → take_back c t ≡ t
unfolding take_back
take_back-kept c t e = if-false (c == 0x7F && ltb 0 t.letter) _ _ e

take_back-Holds :
    (c room : ℕ) (r : List ℕ) (t : Typing)
    → (c == 0x7F) ≡ true
    → Holds r room t
    → (left : ℕ) × (room ≤ left) × Holds (elim r [ [] ↦ [] | _ ∷ r' ↦ r' ]) left (take_back c t)
unfolding take_back
take_back-Holds c room [] t is h =
    (room, omega arith, subst (Holds [] room) (sym (take_back-kept c t (ground (arith, h.1)))) h)
take_back-Holds c room (x ∷ r) t is (b, l) =
    let t' : Typing = record t { buffer = set t.buffer (t.letter - 1) 0; letter = t.letter - 1 } in
    (
      suc room,
      omega arith,
      subst (Holds r (suc room))
          (sym (if-true (c == 0x7F && ltb 0 t.letter) t' t (ground (arith, l))))
          (
            ap (λ xs. set xs (t.letter - 1) 0) b
                ∙ ap (λ n. set (in_order r (x ∷ replicate room 0)) n 0) (omega (arith, l))
                ∙ set-in_order r (x ∷ replicate room 0) 0 0,
            omega (arith, l),
          ),
    )

show_line-none : (delim c : ℕ) (t : Typing) → show_line delim false c t ≡ some t
unfolding show_line
show_line-none delim c t = if-false (not (delim == 0xA) && c == 0xA && false) _ _ (ground arith)

-- A round of the loop, where the buffer has room left.
type_char-Holds :
    (delim c room : ℕ) (r : List ℕ) (t : Typing)
    → Holds r (suc room) t
    → (t' : Typing) × (left : ℕ) × (type_char delim false c t ≡ some t')
      × (room ≤ left)
      × Holds (put_key c r) left t'
unfolding type_char
type_char-Holds delim c room r t h =
    let behind : Option Typing → Option Typing =
      λ o. elim o [ none ↦ none | some t' ↦ show_line delim false c (take_back c t') ] in
    elim (Bool-cases (is_allowed_char c)) [
      | inl ok ↦
          let (t', e, h') = put_allowed-Holds c room r t ok h in
          let plain : (c == 0x7F && ltb 0 t'.letter) ≡ false =
            allowed_plain c (ltb 0 t'.letter) ok in
          (
            t',
            room,
            ap behind e
                ∙ show_line-none delim c (take_back c t')
                ∙ ap some (take_back-kept c t' plain),
            omega arith,
            subst (λ q. Holds q room t')
                (sym (if-true (writes c) _ _ (sym (is_allowed_char-writes c) ∙ ok))) h',
          )
      | inr other ↦
          let kept = put_allowed-none c t other in
          elim (Bool-cases (c == 0x7F)) [
            | inl back ↦
                let (left, le, h') = take_back-Holds c (suc room) r t back h in
                (
                  take_back c t,
                  left,
                  ap behind kept ∙ show_line-none delim c (take_back c t),
                  omega (arith, le),
                  subst (λ q. Holds q left (take_back c t))
                      (sym (
                        if-false (writes c) _ _ (sym (is_allowed_char-writes c) ∙ other)
                        ∙ if-true (c == 0x7F) _ _ back))
                      h',
                )
            | inr idle ↦ (
              t,
              suc room,
              ap behind kept
                  ∙ show_line-none delim c (take_back c t)
                  ∙ ap some (take_back-kept c t (ground arith)),
              omega arith,
              subst (λ q. Holds q (suc room) t)
                  (sym (
                    if-false (writes c) _ _ (sym (is_allowed_char-writes c) ∙ other)
                    ∙ if-false (c == 0x7F) _ _ idle))
                  h,
            )
          ]
    ]

-- The loop up to the character that ends it.
pub type_chars-Holds :
    (delim room : ℕ) (keys others r : List ℕ) (t : Typing)
    → All (λ c. c ≢ delim) keys
    → length keys < room
    → Holds r room t
    → (t' : Typing) × (left : ℕ) × (type_chars delim false (keys ++ delim ∷ others) t ≡ some t')
      × (room ≤ left + suc (length keys))
      × Holds (typed_back r (keys ++ delim ∷ [])) left t'
unfolding type_chars
type_chars-Holds delim zero keys others r t ne lt h = absurd (omega arith)
type_chars-Holds delim (suc room) [] others r t ne lt h =
    let (t', left, e, le, h') = type_char-Holds delim delim room r t h in
    let over : (delim == delim) ≡ true = ground arith in
    (
      t',
      left,
      ap
            (λ (o : Option Typing). elim o [
              | none ↦ none
              | some t' ↦ elim (delim == delim) [
                | true ↦ some t'
                | false ↦ type_chars delim false others t'
              ]
            ])
            e
          ∙ ap (λ (b : Bool). elim b [ true ↦ some t' | false ↦ type_chars delim false others t' ])
              over,
      omega (arith, le),
      h',
    )
type_chars-Holds delim (suc room) (c ∷ cs) others r t (ne, nes) lt h =
    let (t₁, left₁, e₁, le₁, h₁) = type_char-Holds delim c room r t h in
    let (t', left, e, le, h') =
      type_chars-Holds delim left₁ cs others (put_key c r) t₁ nes (omega (arith, le₁)) h₁ in
    (
      t',
      left,
      ap
            (λ (o : Option Typing). elim o [
              | none ↦ none
              | some t' ↦ elim (c == delim) [
                | true ↦ some t'
                | false ↦ type_chars delim false (cs ++ delim ∷ others) t'
              ]
            ])
            e₁
          ∙ ap
              (λ (b : Bool). elim b [
                | true ↦ some t₁
                | false ↦ type_chars delim false (cs ++ delim ∷ others) t₁
              ])
              (==_of_ne c delim ne)
          ∙ e,
      omega (arith, le, le₁),
      h',
    )
