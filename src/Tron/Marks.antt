-- ===== src/Tron/Marks.antt =====
-- The cells that a game marks.
use macac_os.Base.{ℕ, ◌≤◌, ◌≡◌, Bool, true, false, ◌&&◌, ◌==◌, arith, Bool-cases, inl, inr}
use macac_os.Tron.{Player, put_mark}

-- A place on which a player can stand, on a board of the given width and height.
abbrev pub Inside : ℕ → ℕ → Player → Type 0
Inside width height p = (2 ≤ p.pos_x) × (2 ≤ p.pos_y) × (p.pos_x ≤ width) × (p.pos_y ≤ height)

-- The cells that are marked in `b'` and not in `b` are within the borders.
abbrev pub MarkedInside : ℕ → ℕ → (ℕ → ℕ → Bool) → (ℕ → ℕ → Bool) → Type 0
MarkedInside width height b b' =
    (x y : ℕ) → b x y ≡ false → b' x y ≡ true → ((2 ≤ x) × (x ≤ width)) × ((2 ≤ y) × (y ≤ height))

pub MarkedInside-same : (width height : ℕ) (b : ℕ → ℕ → Bool) → MarkedInside width height b b
MarkedInside-same width height b x y e e' = ground arith

pub MarkedInside-trans :
    (width height : ℕ) (a b c : ℕ → ℕ → Bool)
    → MarkedInside width height a b
    → MarkedInside width height b c
    → MarkedInside width height a c
MarkedInside-trans width height a b c h k x y e e' = elim (Bool-cases (b x y)) [
  | inl marked_before ↦ h x y e marked_before
  | inr free ↦ k x y free e'
]

pub put_mark-MarkedInside :
    (p : Player) (width height : ℕ) (b : ℕ → ℕ → Bool)
    → Inside width height p
    → MarkedInside width height b (put_mark p.pos_x p.pos_y b)
put_mark-MarkedInside p width height b (a, c, d, f) x y e e' =
    elim (Bool-cases (x == p.pos_x && y == p.pos_y)) [
      | inl here ↦ ((ground arith, ground arith), (ground arith, ground arith))
      | inr elsewhere ↦ ground arith
    ]
