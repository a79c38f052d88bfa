-- ===== src/Shell/Arguments/Reserved.antt =====
-- What `copy_text` leaves on the heap: a text in a block of its own.
use macac_os.Base.{
  ℕ, zero, suc, ◌+◌, ◌≤◌, ◌<◌, ◌≡◌, ◌⊎◌, refl, sym, ap, ap₂, ◌∙◌, subst, Option, none, some, List,
  [], ◌∷◌, ◌++◌, inl, inr, get_elem?, length, arith,
}
use macac_os.Memory.{heap_start, heap_end, header_bytes}
use macac_os.Memory.Chain.{Block}
use macac_os.Memory.Live.{live, Within}
use macac_os.Memory.Regions.{Served}
use macac_os.KernelLib.{Bytes, put_byte}
use macac_os.SystemCalls.{read_run, write_run}
use macac_os.Shell.Arguments.{take}

-- Two blocks, by address and size, that do not overlap.
abbrev Apart : ℕ × ℕ → ℕ × ℕ → Type 0
Apart b r = (r.0 + r.1 ≤ b.0) ⊎ (b.0 + b.1 ≤ r.0)

pub elem-Within :
    (xs : List (ℕ × ℕ)) (lo hi i : ℕ) (r : ℕ × ℕ)
    → Within lo hi xs
    → get_elem? xs i ≡ some r
    → (lo ≤ r.0) × (r.0 + r.1 ≤ hi)
elem-Within [] lo hi i r w e = absurd (ground arith)
elem-Within (x ∷ xs) lo hi zero r (w, ws) e =
    subst (λ (o : Option (ℕ × ℕ)). elim o [ none ↦ Unit | some y ↦ (lo ≤ y.0) × (y.0 + y.1 ≤ hi) ])
      e w
elem-Within (x ∷ xs) lo hi (suc i) r (w, ws) e = elem-Within xs lo hi i r ws e

-- The element at an index after one more was put among the others.
inserted-elem :
    (before after : List (ℕ × ℕ)) (b r : ℕ × ℕ) (lo hi i : ℕ)
    → Within lo b.0 before
    → Within (b.0 + b.1) hi after
    → get_elem? (before ++ after) i ≡ some r
    → Apart b r × (j : ℕ) × (get_elem? (before ++ b ∷ after) j ≡ some r)
inserted-elem [] after b r lo hi i w v e =
    (inr (elem-Within after (b.0 + b.1) hi i r v e).0, suc i, e)
inserted-elem (x ∷ before) after b r lo hi zero (w, ws) v e =
    (inl (elem-Within (x ∷ before) lo b.0 0 r (w, ws) e).1, 0, e)
inserted-elem (x ∷ before) after b r lo hi (suc i) (w, ws) v e =
    let (apart, j, at) = inserted-elem before after b r lo hi i ws v e in (apart, suc j, at)

inserted-at :
    (before after : List (ℕ × ℕ)) (b : ℕ × ℕ)
    → (j : ℕ) × (get_elem? (before ++ b ∷ after) j ≡ some b)
inserted-at [] after b = (0, refl)
inserted-at (x ∷ before) after b = let (j, e) = inserted-at before after b in (suc j, e)

pub length-take : (n : ℕ) (xs : List ℕ) → length (take n xs) ≤ n
length-take zero xs = omega arith
length-take (suc n) [] = omega arith
length-take (suc n) (x ∷ xs) = omega (arith, length-take n xs)

write_run-outside :
    (cs : List ℕ) (p a : ℕ) (m : Bytes) → (a < p) ⊎ (p + length cs ≤ a) → write_run cs p m a ≡ m a
unfolding write_run
write_run-outside [] p a m out = refl
write_run-outside (c ∷ cs) p a m out =
    write_run-outside cs (p + 1) a (put_byte p c m)
      (elim out [ inl h ↦ inl (omega arith) | inr h ↦ inr (omega arith) ])
    ∙ ground arith

read_run-same :
    (n p : ℕ) (m m' : Bytes)
    → ((a : ℕ) → p ≤ a → a < p + n → m' a ≡ m a)
    → read_run n p m' ≡ read_run n p m
unfolding read_run
read_run-same zero p m m' same = refl
read_run-same (suc n) p m m' same =
    ap₂ (λ c cs. c ∷ cs) (same p (omega arith) (omega arith))
      (read_run-same n (p + 1) m m' (λ a h k. same a (omega arith) (omega arith)))

read_run-write_run :
    (cs : List ℕ) (p : ℕ) (m : Bytes) → read_run (length cs) p (write_run cs p m) ≡ cs
unfolding read_run write_run
read_run-write_run [] p m = refl
read_run-write_run (c ∷ cs) p m =
    ap₂ (λ c cs. c ∷ cs)
      (write_run-outside cs (p + 1) p (put_byte p c m) (inl (omega arith)) ∙ ground arith)
      (read_run-write_run cs (p + 1) (put_byte p c m))

-- The text stands at the address, in an allocated block behind its header.
pub record Held (bs : List Block) (bytes : Bytes) (ptr : ℕ) (text : List ℕ) : Type 0 where
  pub header_at : ℕ
  pub size : ℕ
  pub index : ℕ
  pub is_ptr : ptr ≡ header_at + header_bytes
  pub in_heap : heap_start ≤ header_at
  pub room : length text + header_bytes ≤ size
  pub is_live : get_elem? (live heap_start bs) index ≡ some (header_at, size)
  pub is_text : read_run (length text) ptr bytes ≡ text

-- The texts of the one state are held in the other.
abbrev pub Kept : List Block → Bytes → List Block → Bytes → Type 0
Kept bs bytes bs' bytes' =
    (ptr : ℕ) (text : List ℕ) → Held bs bytes ptr text → Held bs' bytes' ptr text

module _ (size ptr : ℕ) {bs new : List Block} (served : Served size ptr bs new) (cs : List ℕ)
    (fits : length cs ≤ size) (bytes : Bytes) where
  pub Served-Held : Held new (write_run cs ptr bytes) ptr cs
  Served-Held =
      let i = served.inserted in
      let (j, at) = inserted-at i.before i.after (served.header_at, i.bytes) in
      record {
        header_at = served.header_at;
        size = i.bytes;
        index = j;
        is_ptr = served.is_ptr;
        in_heap = served.in_heap;
        room = omega (arith, i.enough, fits);
        is_live = ap (λ l. get_elem? l j) i.new_is ∙ at;
        is_text = read_run-write_run cs ptr bytes;
      }

  pub Served-Kept : Kept bs bytes new (write_run cs ptr bytes)
  Served-Kept q text h =
      let i = served.inserted in
      let (apart, j, at) =
        inserted-elem i.before i.after (served.header_at, i.bytes) (h.header_at, h.size) heap_start
          heap_end h.index i.below i.above
          (ap (λ l. get_elem? l h.index) (sym i.old_is) ∙ h.is_live) in
      record {
        header_at = h.header_at;
        size = h.size;
        index = j;
        is_ptr = h.is_ptr;
        in_heap = h.in_heap;
        room = h.room;
        is_live = ap (λ l. get_elem? l j) i.new_is ∙ at;
        is_text =
            read_run-same (length text) q bytes (write_run cs ptr bytes) (λ a lo hi.
              write_run-outside cs ptr a bytes (elim apart [
                | inl below ↦ inl (omega (arith, h.is_ptr, h.room, served.is_ptr))
                | inr above ↦ inr (omega (arith, h.is_ptr, h.room, served.is_ptr, i.enough, fits))
              ]))
            ∙ h.is_text;
      }
