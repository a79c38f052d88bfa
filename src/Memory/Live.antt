-- ===== src/Memory/Live.antt =====
-- The memory that clients hold: where it lies, and what an allocation adds to it.
use macac_os.Base.{
  ℕ, ◌+◌, ◌-◌, ◌≤◌, ◌≡◌, refl, ap, false, not, ◌&&◌, some, List, [], ◌∷◌, ◌++◌, arith,
  if◌then◌else◌, ltb, Bool-cases, inl, inr, All,
}
use macac_os.Memory.{min_size}
use macac_os.Memory.Chain.{Block, total}
use macac_os.Memory.Find.{first_fit, first_fit-ge}
use macac_os.Memory.Place.{carve, placed}

-- Address of the header and size of each allocated block, from address `p` on.
abbrev pub live : ℕ → List Block → List (ℕ × ℕ)
live p [] = []
live p (b ∷ bs) = if b.allocated then (p, b.size) ∷ live (p + b.size) bs else live (p + b.size) bs

-- The blocks lie between two addresses.
abbrev pub Within : ℕ → ℕ → List (ℕ × ℕ) → Type 0
Within lo hi = All (λ (r : ℕ × ℕ). (lo ≤ r.0) × (r.0 + r.1 ≤ hi))

pub Within-weaken :
    (xs : List (ℕ × ℕ)) (lo hi lo' hi' : ℕ)
    → lo' ≤ lo
    → hi ≤ hi'
    → Within lo hi xs
    → Within lo' hi' xs
Within-weaken [] lo hi lo' hi' a b w = w
Within-weaken (x ∷ xs) lo hi lo' hi' a b (h, w) =
    ((omega arith, omega arith), Within-weaken xs lo hi lo' hi' a b w)

pub live-Within : (p : ℕ) (bs : List Block) → Within p (p + total bs) (live p bs)
live-Within p [] = tt
live-Within p (b ∷ bs) =
    let w =
      Within-weaken (live (p + b.size) bs) (p + b.size) (p + b.size + total bs) p
        (p + (b.size + total bs)) (omega arith) (omega arith) (live-Within (p + b.size) bs) in
    elim (Bool-cases b.allocated) [ inl y ↦ rw y ((omega arith, omega arith), w) | inr z ↦ rw z w ]

-- The live blocks `before` and `after` around a new one of `s` bytes at `q`.
pub record Inserted (n q lo hi : ℕ) (old new : List (ℕ × ℕ)) : Type 0 where
  pub before : List (ℕ × ℕ)
  pub after : List (ℕ × ℕ)
  pub bytes : ℕ
  pub old_is : old ≡ before ++ after
  pub new_is : new ≡ before ++ (q, bytes) ∷ after
  pub enough : n ≤ bytes
  pub below : Within lo q before
  pub above : Within (q + bytes) hi after

pub Inserted-weaken :
    {n q lo hi : ℕ} {old new : List (ℕ × ℕ)} (n' hi' : ℕ)
    → n' ≤ n
    → hi ≤ hi'
    → Inserted n q lo hi old new
    → Inserted n' q lo hi' old new
Inserted-weaken {n} {q} {lo} {hi} n' hi' a b i = record {
  before = i.before;
  after = i.after;
  bytes = i.bytes;
  old_is = i.old_is;
  new_is = i.new_is;
  enough = omega (arith, i.enough);
  below = i.below;
  above = Within-weaken i.after (q + i.bytes) hi (q + i.bytes) hi' (omega arith) b i.above;
}

Inserted-cons :
    {n q lo hi : ℕ} {old new : List (ℕ × ℕ)} (p : ℕ) (b : Block)
    → lo ≡ p + b.size
    → Inserted n q lo hi old new
    → lo ≤ q
    → Inserted n q p hi
        (if b.allocated then (p, b.size) ∷ old else old)
        (if b.allocated then (p, b.size) ∷ new else new)
Inserted-cons {n} {q} {lo} {hi} p b e i h = elim (Bool-cases b.allocated) [
  | inl y ↦ rw y (record {
    before = (p, b.size) ∷ i.before;
    after = i.after;
    bytes = i.bytes;
    old_is = ap (λ l. (p, b.size) ∷ l) i.old_is;
    new_is = ap (λ l. (p, b.size) ∷ l) i.new_is;
    enough = i.enough;
    below = (
      (omega arith, omega arith),
      Within-weaken i.before lo q p q (omega arith) (omega arith) i.below,
    );
    above = i.above;
  })
  | inr z ↦ rw z (record {
    before = i.before;
    after = i.after;
    bytes = i.bytes;
    old_is = i.old_is;
    new_is = i.new_is;
    enough = i.enough;
    below = Within-weaken i.before lo q p q (omega arith) (omega arith) i.below;
    above = i.above;
  })
]

carve-Inserted :
    (n p : ℕ) (b : Block) (bs : List Block)
    → b.allocated ≡ false
    → n ≤ b.size
    → Inserted n p p (p + total (carve n b bs)) (live p (b ∷ bs)) (live p (carve n b bs))
carve-Inserted n p b bs free fits = elim (Bool-cases (ltb (n + min_size) b.size)) [
  | inl wide ↦
      let next : p + n + (b.size - n) ≡ p + b.size = omega arith in
      rw (wide, free, next)
        (record {
          before = [];
          after = live (p + b.size) bs;
          bytes = n;
          old_is = refl;
          new_is = refl;
          enough = omega arith;
          below = tt;
          above =
              Within-weaken (live (p + b.size) bs) (p + b.size) (p + b.size + total bs) (p + n)
                (p + (n + (b.size - n + total bs))) (omega arith) (omega arith)
                (live-Within (p + b.size) bs);
        })
  | inr tight ↦
      rw (tight, free)
        (record {
          before = [];
          after = live (p + b.size) bs;
          bytes = b.size;
          old_is = refl;
          new_is = refl;
          enough = fits;
          below = tt;
          above =
              Within-weaken (live (p + b.size) bs) (p + b.size) (p + b.size + total bs) (p + b.size)
                (p + (b.size + total bs)) (omega arith) (omega arith) (live-Within (p + b.size) bs);
        })
]

pub placed-Inserted :
    (n p : ℕ) (bs : List Block) (q : ℕ)
    → first_fit n p bs ≡ some q
    → Inserted n q p (p + total (placed n bs)) (live p bs) (live p (placed n bs))
placed-Inserted n p [] q e =
    let at : q ≡ p = ground arith in
    rw at (record {
      before = [];
      after = [];
      bytes = n;
      old_is = refl;
      new_is = refl;
      enough = omega arith;
      below = tt;
      above = tt;
    })
placed-Inserted n p (b ∷ bs) q e = elim (Bool-cases (not b.allocated && not (ltb b.size n))) [
  | inl fit ↦
      let at : q ≡ p = ground arith in
      rw (at, fit) (carve-Inserted n p b bs (ground arith) (ground arith))
  | inr miss ↦
      let further : first_fit n (p + b.size) bs ≡ some q = ground arith in
      let sum : p + (b.size + total (placed n bs)) ≡ p + b.size + total (placed n bs) =
        omega arith in
      rw (miss, sum)
        (Inserted-cons p b refl (placed-Inserted n (p + b.size) bs q further)
          (first_fit-ge n (p + b.size) bs q further))
]
