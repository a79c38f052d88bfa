-- ===== src/Keyboard/Buffer.antt =====
-- The buffer of keyboard.c as a bounded FIFO of characters.
use native.Mathlib.Nat.{mod-add-mod}
use macac_os.Base.{
  ℕ, zero, suc, ◌+◌, ◌-◌, ◌%◌, ◌≤◌, ◌<◌, ◌≡◌, ◌≢◌, refl, sym, ap, ap₂, ◌∙◌, Bool, false, not, ◌&&◌,
  ◌||◌, Option, none, some, List, [], ◌∷◌, ◌++◌, returns, arith, inl, inr, Bool-cases, ltb, leb,
  ◌==◌, if◌then◌else◌, length, get_or, set, length-set, get_elem?-eq-get_or, if-true, if-false,
  eq_of_==, ==_of_ne, fault, hang,
}
use macac_os.Queue.Refine.{fifo_tail}
use macac_os.Queue.Ring.{slots, length-slots, slots-set_last}
use macac_os.Keyboard.{
  Keyboard, Console, buffer_size, char_hex_map, special_hex_chars, special_char, store_char,
  type_key, get_first_char, keyboard_handler,
}

-- The indices go round in the block of the buffer. `write_index` may stand at its end.
pub record IsRing (k : Keyboard) : Type 0 where
  pub storage : length k.buffer ≡ buffer_size
  pub read_in : k.read_index < buffer_size
  pub few : k.q_elements ≤ buffer_size
  pub write_in : k.write_index ≤ buffer_size
  pub write_behind : k.write_index % buffer_size ≡ (k.read_index + k.q_elements) % buffer_size

-- The characters that wait, the next one first.
abbrev pub typed : Keyboard → List ℕ
typed k = slots k.buffer buffer_size k.read_index k.q_elements

-- A FIFO of at most 1024 characters.
abbrev pub put : ℕ → List ℕ → List ℕ
put c cs = if length cs == buffer_size then cs else cs ++ c ∷ []

abbrev pub stored : ℕ → Keyboard → Keyboard
stored c k = record k {
  buffer = set k.buffer (k.write_index % buffer_size) c;
  q_elements = k.q_elements + 1;
  write_index = k.write_index % buffer_size + 1;
}

wrapped_index : (w : ℕ) → w ≤ buffer_size → (if leb buffer_size w then 0 else w) ≡ w % buffer_size
wrapped_index w h = ground arith

store_char-stored :
    (c : ℕ) (k : Keyboard)
    → IsRing k
    → k.q_elements < buffer_size
    → store_char c k ≡ returns tt (stored c k)
unfolding store_char
store_char-stored c k v room =
    if-false (leb buffer_size k.q_elements) _ _ (ground arith)
    ∙ rw (wrapped_index k.write_index v.write_in) (
        if-true (ltb (k.write_index % buffer_size) (length k.buffer)) _ _
          (ground (arith, v.storage)))

stored-IsRing : (c : ℕ) (k : Keyboard) → IsRing k → k.q_elements < buffer_size → IsRing (stored c k)
stored-IsRing c k v room = record {
  storage = length-set k.buffer (k.write_index % buffer_size) c ∙ v.storage;
  read_in = v.read_in;
  few = omega arith;
  write_in = omega arith;
  write_behind =
      ap (λ (w : ℕ). (w + 1) % buffer_size) v.write_behind
      ∙ mod-add-mod (k.read_index + k.q_elements) buffer_size 1
      ∙ ap (λ (n : ℕ). n % buffer_size) (omega arith);
}

typed-stored :
    (c : ℕ) (k : Keyboard)
    → IsRing k
    → k.q_elements < buffer_size
    → typed (stored c k) ≡ typed k ++ c ∷ []
typed-stored c k v room =
    let one : k.q_elements + 1 ≡ suc k.q_elements = omega arith in
    ap₂ (λ n w. slots (set k.buffer w c) buffer_size k.read_index n) one v.write_behind
    ∙ slots-set_last k.buffer buffer_size k.read_index k.q_elements c v.read_in room
        (omega (arith, v.storage))

store_char-put :
    (c : ℕ) (k : Keyboard)
    → IsRing k
    → (k' : Keyboard) × (store_char c k ≡ returns tt k') × IsRing k' × (typed k' ≡ put c (typed k))
unfolding store_char
store_char-put c k v = elim (Bool-cases (leb buffer_size k.q_elements)) [
  | inl full ↦ (
    k,
    if-true _ _ _ full,
    v,
    ground (arith, v.few, length-slots k.buffer buffer_size k.read_index k.q_elements),
  )
  | inr room ↦
      let less : k.q_elements < buffer_size = ground arith in
      (
        stored c k,
        store_char-stored c k v less,
        stored-IsRing c k v less,
        ground (
          arith,
          typed-stored c k v less,
          length-slots k.buffer buffer_size k.read_index k.q_elements,
        ),
      )
]

-- The character of a key, with Ctrl held or not; `none` for a key that types nothing.
abbrev pub key_char : Bool → ℕ → Option ℕ
key_char ctrl key =
    if ctrl && key == 0x02
    then some 124
    else if ctrl && key == 0x07
    then some 38
    else if ctrl && key == 0x20
    then some 0xFE
    else if ltb key 0x53
    then some (char_hex_map key)
    else none

abbrev pub put_key : Option ℕ → List ℕ → List ℕ
put_key none cs = cs
put_key (some c) cs = put c cs

-- `f` at the character of a key, or `x`.
abbrev typing : {X : Type 0} → (ℕ → X) → X → Option ℕ → X
typing f x none = x
typing f x (some c) = f c

key_char-special_char :
    {X : Type 0} (ctrl : Bool) (key : ℕ) (f : ℕ → X) (x : X)
    → (if ltb key 0x53 || not (special_char ctrl key == 0)
        then f (
            if special_char ctrl key == 0
            then char_hex_map key
            else special_hex_chars (special_char ctrl key))
        else x)
      ≡ typing f x (key_char ctrl key)
key_char-special_char ctrl key f x = ground arith

typed_key :
    (o : Option ℕ) (k : Keyboard)
    → IsRing k
    → (k' : Keyboard) × (typing (λ c. store_char c k) (returns tt k) o ≡ returns tt k')
      × IsRing k'
      × (typed k' ≡ put_key o (typed k))
typed_key none k v = (k, refl, v, refl)
typed_key (some c) k v = store_char-put c k v

-- With a valid buffer, a key other than Ctrl and Ctrl-C makes keyboard_handler return with the same
-- stack pointer and kernel; it appends the character of the key, if it has one, to the typed
-- characters unless 1024 of them wait, and the buffer stays valid.
pub keyboard_handler-typed :
    (rsp ss key : ℕ) (s : Console)
    → IsRing s.keyboard
    → key ≢ 0x1D
    → (s.keyboard.ctrl_pressed && key == 0x2E) ≡ false
    → (k : Keyboard) × (keyboard_handler rsp ss key s ≡ returns rsp (record s { keyboard = k }))
      × IsRing k
      × (typed k ≡ put_key (key_char s.keyboard.ctrl_pressed key) (typed s.keyboard))
unfolding keyboard_handler type_key
keyboard_handler-typed rsp ss key s v ne nc =
    let ctrl = s.keyboard.ctrl_pressed in
    let k₀ : Keyboard = record (s.keyboard) { ctrl_pressed = false } in
    let v₀ : IsRing k₀ = record {
      storage = v.storage;
      read_in = v.read_in;
      few = v.few;
      write_in = v.write_in;
      write_behind = v.write_behind;
    } in
    let (k, done, is, text) = typed_key (key_char ctrl key) k₀ v₀ in
    let stores : type_key key s.keyboard ≡ returns tt k =
      key_char-special_char ctrl key (λ c. store_char c k₀) (returns tt k₀) ∙ done in
    (
      k,
      if-false (key == 0x1D) _ _ (==_of_ne key 0x1D ne)
          ∙ if-false (ctrl && key == 0x2E) _ _ nc
          ∙ ap
              (λ o. elim o [
                | returns _ k ↦ returns rsp (record s { keyboard = k })
                | fault ↦ fault
                | hang ↦ hang
              ])
              stores,
      is,
      text,
    )

abbrev pub taken : Keyboard → Keyboard
taken k = record k { q_elements = k.q_elements - 1; read_index = (k.read_index + 1) % buffer_size }

abbrev pub first_or : ℕ → List ℕ → ℕ
first_or d [] = d
first_or d (c ∷ _) = c

slots-pos :
    (es : List ℕ) (n r k : ℕ)
    → 0 < k
    → slots es n r k ≡ get_or es r 0 ∷ slots es n ((r + 1) % n) (k - 1)
slots-pos es n r zero h = absurd (omega arith)
slots-pos es n r (suc k) h = ap (λ j. get_or es r 0 ∷ slots es n ((r + 1) % n) j) (omega arith)

get_first_char-taken :
    (k : Keyboard)
    → IsRing k
    → 0 < k.q_elements
    → get_first_char k ≡ returns (get_or k.buffer k.read_index 0) (taken k)
unfolding get_first_char
get_first_char-taken k v h =
    ground (arith, v.read_in, v.storage, get_elem?-eq-get_or k.buffer k.read_index 0)

taken-IsRing : (k : Keyboard) → IsRing k → 0 < k.q_elements → IsRing (taken k)
taken-IsRing k v h = record {
  storage = v.storage;
  read_in = omega arith;
  few = omega (arith, v.few);
  write_in = v.write_in;
  write_behind =
      v.write_behind
      ∙ ap (λ (n : ℕ). n % buffer_size) (omega arith)
      ∙ sym (mod-add-mod (k.read_index + 1) buffer_size (k.q_elements - 1));
}

-- With a valid buffer get_first_char returns the first typed character (0xFF if there is none) and
-- leaves the rest, and the buffer stays valid.
pub get_first_char-first :
    (k : Keyboard)
    → IsRing k
    → (k' : Keyboard) × (get_first_char k ≡ returns (first_or 0xFF (typed k)) k')
      × IsRing k'
      × (typed k' ≡ fifo_tail (typed k))
unfolding get_first_char
get_first_char-first k v = elim (Bool-cases (k.q_elements == 0)) [
  | inl y ↦
      let e : typed k ≡ [] =
        ap (slots k.buffer buffer_size k.read_index) (eq_of_== k.q_elements 0 y) in
      (k, if-true _ _ _ y ∙ rw e refl, v, rw e refl)
  | inr z ↦
      let h : 0 < k.q_elements = ground arith in
      let e = slots-pos k.buffer buffer_size k.read_index k.q_elements h in
      (taken k, rw e (get_first_char-taken k v h), taken-IsRing k v h, rw e refl)
]
