-- ===== src/Console/Grid.antt =====
-- Where printing leaves the pen: the cells of the screen.
use macac_os.Base.{
  ℕ, ◌+◌, ◌-◌, ◌*◌, ◌%◌, ◌^◌, ◌≤◌, ◌<◌, ◌≡◌, ◌≢◌, sym, ap, ◌∙◌, subst, true, not, ◌&&◌, Bool-cases,
  inl, inr, List, [], ◌∷◌, All, arith, ==_of_ne, ltb, leb, ◌==◌, if◌then◌else◌, if-true, if-false,
}
use macac_os.Console.{
  Console, char_width, char_height, first_char, last_char, ngc_font_size, ngc_print_new_line,
  scroll, advance, ngc_print_char, ngc_print,
}
use macac_os.Console.Pen.{SamePen, SamePen-refl, font_rows-SamePen}
use macac_os.Console.Cells.{
  IsGrid, AtCell, next_line, next_cell, cell_behind, row_fits, column_fits, column_in, row_step,
  column_step,
}

module _ (level width height columns rows top : ℕ)
    (g : IsGrid level width height columns rows top) where
  next_line-AtCell :
      (row : ℕ) (s : Console)
      → row ≤ rows
      → s.level ≡ level
      → s.width ≡ width
      → s.height ≡ height
      → s.pen_y ≡ top + char_height * level * row
      → AtCell level width height top 0 (next_line rows row).1 (ngc_print_new_line s)
  unfolding ngc_print_new_line scroll
  next_line-AtCell row s h l w t y =
      let fits = leb (s.pen_y + s.level * char_height + char_height * 3) s.height in
      let test : fits ≡ ltb row rows =
        ap (λ p. leb (p + s.level * char_height + char_height * 3) s.height) y
        ∙ ap
            (λ k.
              leb (top + char_height * level * row + k * char_height + char_height * 3) s.height)
            l
        ∙ ap (leb (top + char_height * level * row + level * char_height + char_height * 3)) t
        ∙ row_fits level width height columns rows top row g h in
      elim (Bool-cases (ltb row rows)) [
        | inl room ↦
            let inside : fits ≡ true = test ∙ room in
            let below : s.pen_y + s.level * char_height + char_height * 3 ≤ s.height =
              ground arith in
            let down : s.pen_y + s.level * char_height ≡ top + char_height * level * (row + 1) =
              omega (arith, y, ap (λ k. k * char_height) l, row_step level row) in
            subst (λ r. AtCell level width height top 0 r (ngc_print_new_line s))
              (sym (if-true (ltb row rows) (row + 1) row room))
              (subst (AtCell level width height top 0 (row + 1)) (sym (if-true fits _ _ inside))
                (record {
                  level_is = l;
                  width_is = w;
                  height_is = t;
                  x_is = omega arith;
                  y_is = omega (arith, below, down, t, g.height_in);
                }))
        | inr full ↦
            subst (λ r. AtCell level width height top 0 r (ngc_print_new_line s))
              (sym (if-false (ltb row rows) (row + 1) row full))
              (subst (AtCell level width height top 0 row) (sym (if-false fits _ _ (test ∙ full)))
                (record {
                  level_is = l;
                  width_is = w;
                  height_is = t;
                  x_is = omega arith;
                  y_is = y;
                }))
      ]

  advance-AtCell :
      (column row : ℕ) (s : Console)
      → column < columns
      → row ≤ rows
      → AtCell level width height top column row s
      → let at = if ltb (column + 1) columns then (column + 1, row) else next_line rows row in
        AtCell level width height top at.0 at.1 (advance s)
  unfolding advance
  advance-AtCell column row s c r v =
      let x = (s.pen_x + char_width * s.level) % 2 ^ 16 in
      let moved : Console = record s { pen_x = x } in
      let inside = column_in level width height columns rows top column g c in
      let step = column_step level column in
      let here : x ≡ char_width * level * (column + 1) =
        omega (arith, v.x_is, ap (λ k. char_width * k) v.level_is, step, inside, g.width_in) in
      let beyond = ltb s.width (x + char_width * s.level) in
      let test : beyond ≡ not (ltb (column + 1) columns) =
        ap (λ k. ltb k (x + char_width * s.level)) v.width_is
        ∙ ap (λ k. ltb width (k + char_width * s.level)) (here ∙ step)
        ∙ ap (λ k. ltb width (char_width * level * column + char_width * level + char_width * k))
            v.level_is
        ∙ column_fits level width height columns rows top column g c in
      elim (Bool-cases (ltb (column + 1) columns)) [
        | inl room ↦
            subst (λ (at : ℕ × ℕ). AtCell level width height top at.0 at.1 (advance s))
              (sym (if-true (ltb (column + 1) columns) (column + 1, row) (next_line rows row) room))
              (subst (AtCell level width height top (column + 1) row)
                (sym (if-false beyond _ _ (test ∙ ap not room)))
                (record {
                  level_is = v.level_is;
                  width_is = v.width_is;
                  height_is = v.height_is;
                  x_is = here;
                  y_is = v.y_is;
                }))
        | inr full ↦
            subst (λ (at : ℕ × ℕ). AtCell level width height top at.0 at.1 (advance s))
              (sym
                (if-false (ltb (column + 1) columns) (column + 1, row) (next_line rows row) full))
              (subst (AtCell level width height top 0 (next_line rows row).1)
                (sym (if-true beyond _ _ (test ∙ ap not full)))
                (next_line-AtCell row moved r v.level_is v.width_is v.height_is v.y_is))
      ]

  SamePen-AtCell :
      (column row : ℕ) (s s' : Console)
      → SamePen s s'
      → AtCell level width height top column row s
      → AtCell level width height top column row s'
  SamePen-AtCell column row s s' same v = record {
    level_is = same.level ∙ v.level_is;
    width_is = same.width ∙ v.width_is;
    height_is = same.height ∙ v.height_is;
    x_is = same.pen_x ∙ v.x_is;
    y_is = same.pen_y ∙ v.y_is;
  }

  -- Painting does not move the pen.
  drawn-SamePen :
      (font : ℕ → ℕ) (c : ℕ) (s : Console)
      → SamePen s (
          if leb 1 s.level && leb s.level 3
          then ngc_font_size s.level font (32 * (c - 33)) s
          else s)
  unfolding ngc_font_size
  drawn-SamePen font c s = elim (Bool-cases (leb 1 s.level && leb s.level 3)) [
    | inl sized ↦
        subst (SamePen s)
          (sym (
            if-true (leb 1 s.level && leb s.level 3) (ngc_font_size s.level font (32 * (c - 33)) s)
              s sized))
          (font_rows-SamePen char_height s.level 0 font (32 * (c - 33)) s)
    | inr unsized ↦
        subst (SamePen s)
          (sym (
            if-false (leb 1 s.level && leb s.level 3) (ngc_font_size s.level font (32 * (c - 33)) s)
              s unsized))
          (SamePen-refl s)
  ]

  placed-AtCell :
      (font : ℕ → ℕ) (c column row : ℕ) (s : Console)
      → column < columns
      → row ≤ rows
      → AtCell level width height top column row s
      → let at = if ltb (column + 1) columns then (column + 1, row) else next_line rows row in
        let drawn : Console =
          if leb 1 s.level && leb s.level 3
          then ngc_font_size s.level font (32 * (c - 33)) s
          else s in
        AtCell level width height top at.0 at.1
          (if leb first_char c && leb c last_char then advance drawn else advance s)
  placed-AtCell font c column row s inside below v =
      let drawn : Console =
        if leb 1 s.level && leb s.level 3
        then ngc_font_size s.level font (32 * (c - 33)) s
        else s in
      let at : ℕ × ℕ = if ltb (column + 1) columns then (column + 1, row) else next_line rows row in
      elim (Bool-cases (leb first_char c && leb c last_char)) [
        | inl picture ↦
            subst (AtCell level width height top at.0 at.1)
              (sym
                (if-true (leb first_char c && leb c last_char) (advance drawn) (advance s) picture))
              (advance-AtCell column row drawn inside below
                (SamePen-AtCell column row s drawn (drawn-SamePen font c s) v))
        | inr blank ↦
            subst (AtCell level width height top at.0 at.1)
              (sym
                (if-false (leb first_char c && leb c last_char) (advance drawn) (advance s) blank))
              (advance-AtCell column row s inside below v)
      ]

  ngc_print_char-AtCell :
      (font : ℕ → ℕ) (c column row : ℕ) (s : Console)
      → c ≢ 0x7F
      → column < columns
      → row ≤ rows
      → AtCell level width height top column row s
      → let at = next_cell columns rows c (column, row) in
        AtCell level width height top at.0 at.1 (ngc_print_char font c s)
  unfolding ngc_print_char
  ngc_print_char-AtCell font c column row s other inside below v =
      let further : ℕ × ℕ =
        if ltb (column + 1) columns then (column + 1, row) else next_line rows row in
      elim (Bool-cases (c == 0xA)) [
        | inl line ↦
            subst
              (λ (at : ℕ × ℕ). AtCell level width height top at.0 at.1 (ngc_print_char font c s))
              (sym (if-true (c == 0xA) (next_line rows row) further line))
              (subst (AtCell level width height top 0 (next_line rows row).1)
                (sym (if-true (c == 0xA) _ _ line))
                (next_line-AtCell row s below v.level_is v.width_is v.height_is v.y_is))
        | inr same ↦
            subst
              (λ (at : ℕ × ℕ). AtCell level width height top at.0 at.1 (ngc_print_char font c s))
              (sym (if-false (c == 0xA) (next_line rows row) further same))
              (subst (AtCell level width height top further.0 further.1)
                (sym
                  (if-false (c == 0xA) _ _ same ∙ if-false (c == 0x7F) _ _ (==_of_ne c 0x7F other)))
                (placed-AtCell font c column row s inside below v))
      ]

  next_cell-in :
      (c column row : ℕ)
      → column < columns
      → row ≤ rows
      → ((next_cell columns rows c (column, row)).0 < columns)
        × ((next_cell columns rows c (column, row)).1 ≤ rows)
  next_cell-in c column row inside below = (ground (arith, g.some_column), ground arith)

  -- On a screen divided into cells of a font size from 1 to 3, of a width below 2^16 - 2^8 and a
  -- height below 2^16, with the pen at a cell, text without backspace moves the pen from cell to
  -- cell: a character leads to the next column, a line end or a character in the last column to the
  -- start of the next line, and in the last line, below which only three lines of small characters
  -- are left, the pen keeps its line. It ends at a cell of the screen again.
  pub ngc_print-AtCell :
      (font : ℕ → ℕ) (string : List ℕ) (column row : ℕ) (s : Console)
      → All (λ c. c ≢ 0x7F) string
      → column < columns
      → row ≤ rows
      → AtCell level width height top column row s
      → let at = cell_behind columns rows string (column, row) in
        AtCell level width height top at.0 at.1 (ngc_print font string s)
        × (at.0 < columns)
        × (at.1 ≤ rows)
  unfolding ngc_print
  ngc_print-AtCell font [] column row s others inside below v = (v, inside, below)
  ngc_print-AtCell font (c ∷ cs) column row s (other, others) inside below v =
      let at = next_cell columns rows c (column, row) in
      let (inside', below') = next_cell-in c column row inside below in
      ngc_print-AtCell font cs at.0 at.1 (ngc_print_char font c s) others inside' below'
        (ngc_print_char-AtCell font c column row s other inside below v)
