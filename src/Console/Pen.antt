-- ===== src/Console/Pen.antt =====
-- What painting leaves alone.
use macac_os.Base.{
  ℕ, zero, suc, ◌+◌, ◌*◌, ◌/◌, ◌%◌, ◌≡◌, refl, sym, ◌∙◌, subst, Bool-cases, inl, inr, ◌==◌, if-true,
  if-false,
}
use macac_os.Console.{Console, paint_run, paint_square, paint_bits, font_rows, put_color}

-- Two consoles that differ in pixels alone.
pub record SamePen (s s' : Console) : Type 0 where
  pub level : s'.level ≡ s.level
  pub pen_x : s'.pen_x ≡ s.pen_x
  pub pen_y : s'.pen_y ≡ s.pen_y
  pub width : s'.width ≡ s.width
  pub height : s'.height ≡ s.height

pub SamePen-refl : (s : Console) → SamePen s s
SamePen-refl s = record { level = refl; pen_x = refl; pen_y = refl; width = refl; height = refl }

SamePen-trans : (s t u : Console) → SamePen s t → SamePen t u → SamePen s u
SamePen-trans s t u a b = record {
  level = b.level ∙ a.level;
  pen_x = b.pen_x ∙ a.pen_x;
  pen_y = b.pen_y ∙ a.pen_y;
  width = b.width ∙ a.width;
  height = b.height ∙ a.height;
}

paint_run-SamePen : (n p : ℕ) (s : Console) → SamePen s (paint_run n p s)
unfolding paint_run put_color
paint_run-SamePen zero p s = SamePen-refl s
paint_run-SamePen (suc n) p s =
    SamePen-trans s _ _
      (record { level = refl; pen_x = refl; pen_y = refl; width = refl; height = refl })
      (paint_run-SamePen n (p + 3) (put_color p s.pen_color s))

paint_square-SamePen : (left n x y : ℕ) (s : Console) → SamePen s (paint_square left n x y s)
unfolding paint_square
paint_square-SamePen zero n x y s = SamePen-refl s
paint_square-SamePen (suc left) n x y s =
    SamePen-trans s _ _ (paint_run-SamePen n _ s) (paint_square-SamePen left n x (y + 1) _)

paint_bits-SamePen : (left n c y byte : ℕ) (s : Console) → SamePen s (paint_bits left n c y byte s)
unfolding paint_bits
paint_bits-SamePen zero n c y byte s = SamePen-refl s
paint_bits-SamePen (suc left) n c y byte s =
    SamePen-trans s _ _
      (elim (Bool-cases (byte % 2 == 1)) [
        | inl set ↦
            subst (SamePen s) (sym (if-true _ _ _ set)) (paint_square-SamePen n n (n * c) y s)
        | inr clear ↦ subst (SamePen s) (sym (if-false _ _ _ clear)) (SamePen-refl s)
      ])
      (paint_bits-SamePen left n (c + 1) y (byte / 2) _)

pub font_rows-SamePen :
    (left n h : ℕ) (font : ℕ → ℕ) (place : ℕ) (s : Console)
    → SamePen s (font_rows left n h font place s)
unfolding font_rows
font_rows-SamePen zero n h font place s = SamePen-refl s
font_rows-SamePen (suc left) n h font place s =
    SamePen-trans s _ _ (paint_bits-SamePen 8 n 0 (s.pen_y + h) (font place) s) (
      SamePen-trans _ _ _ (paint_bits-SamePen 1 n 8 (s.pen_y + h) (font (place + 1)) _)
        (font_rows-SamePen left n (h + s.level) font (place + 2) _))
