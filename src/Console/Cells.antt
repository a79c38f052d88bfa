-- ===== src/Console/Cells.antt =====
-- The cells of the screen, and the place of the pen at one of them.
use macac_os.Base.{
  ℕ, zero, suc, ◌+◌, ◌-◌, ◌*◌, ◌^◌, ◌≤◌, ◌<◌, ◌≡◌, not, List, [], ◌∷◌, arith, ltb, leb, ◌==◌,
  if◌then◌else◌,
}
use macac_os.Console.{Console, char_width, char_height}

-- A screen divided into cells of the font size `level`: `columns` of them side by side, and `rows`
-- lines below the line at `top` until only three lines of small characters are left.
pub record IsGrid (level width height columns rows top : ℕ) : Type 0 where
  pub sized : 1 ≤ level
  pub small : level ≤ 3
  pub some_column : 1 ≤ columns
  pub wide : char_width * level * columns ≤ width
  pub no_wider : width < char_width * level * (columns + 1)
  pub width_in : width < 2 ^ 16 - 2 ^ 8
  pub height_in : height < 2 ^ 16
  pub tall : top + char_height * level * rows + char_height * 3 ≤ height
  pub no_taller : height < top + char_height * level * (rows + 1) + char_height * 3

-- The pen stands at a cell.
pub record AtCell (level width height top column row : ℕ) (s : Console) : Type 0 where
  pub level_is : s.level ≡ level
  pub width_is : s.width ≡ width
  pub height_is : s.height ≡ height
  pub x_is : s.pen_x ≡ char_width * level * column
  pub y_is : s.pen_y ≡ top + char_height * level * row

-- The cell behind a character: a line end, or a character at the end of a line, leads to the start of
-- the next line; at the last line the screen moves instead.
abbrev pub next_line : ℕ → ℕ → ℕ × ℕ
next_line rows row = (0, if ltb row rows then row + 1 else row)

abbrev pub next_cell : ℕ → ℕ → ℕ → ℕ × ℕ → ℕ × ℕ
next_cell columns rows c at =
    if c == 0xA
    then next_line rows at.1
    else if ltb (at.0 + 1) columns
    then (at.0 + 1, at.1)
    else next_line rows at.1

abbrev pub cell_behind : ℕ → ℕ → List ℕ → ℕ × ℕ → ℕ × ℕ
cell_behind columns rows [] at = at
cell_behind columns rows (c ∷ cs) at = cell_behind columns rows cs (next_cell columns rows c at)

pub row_fits :
    (level width height columns rows top row : ℕ)
    → IsGrid level width height columns rows top
    → row ≤ rows
    → leb (top + char_height * level * row + level * char_height + char_height * 3) height
      ≡ ltb row rows
row_fits zero width height columns rows top row g h = absurd (omega (arith, g.sized))
row_fits (suc zero) width height columns rows top row g h = ground (arith, g.tall, g.no_taller)
row_fits (suc (suc zero)) width height columns rows top row g h =
    ground (arith, g.tall, g.no_taller)
row_fits (suc (suc (suc zero))) width height columns rows top row g h =
    ground (arith, g.tall, g.no_taller)
row_fits (suc (suc (suc (suc n)))) width height columns rows top row g h =
    absurd (omega (arith, g.small))

pub column_fits :
    (level width height columns rows top column : ℕ)
    → IsGrid level width height columns rows top
    → column < columns
    → ltb width (char_width * level * column + char_width * level + char_width * level)
      ≡ not (ltb (column + 1) columns)
column_fits zero width height columns rows top column g h = absurd (omega (arith, g.sized))
column_fits (suc zero) width height columns rows top column g h = ground (arith, g.wide, g.no_wider)
column_fits (suc (suc zero)) width height columns rows top column g h =
    ground (arith, g.wide, g.no_wider)
column_fits (suc (suc (suc zero))) width height columns rows top column g h =
    ground (arith, g.wide, g.no_wider)
column_fits (suc (suc (suc (suc n)))) width height columns rows top column g h =
    absurd (omega (arith, g.small))

pub column_in :
    (level width height columns rows top column : ℕ)
    → IsGrid level width height columns rows top
    → column < columns
    → char_width * level * (column + 1) ≤ width
column_in zero width height columns rows top column g h = absurd (omega (arith, g.sized))
column_in (suc zero) width height columns rows top column g h = omega (arith, g.wide)
column_in (suc (suc zero)) width height columns rows top column g h = omega (arith, g.wide)
column_in (suc (suc (suc zero))) width height columns rows top column g h = omega (arith, g.wide)
column_in (suc (suc (suc (suc n)))) width height columns rows top column g h =
    absurd (omega (arith, g.small))

pub row_step :
    (level row : ℕ)
    → char_height * level * (row + 1) ≡ char_height * level * row + level * char_height
row_step level row = grind arith

pub column_step :
    (level column : ℕ)
    → char_width * level * (column + 1) ≡ char_width * level * column + char_width * level
column_step level column = grind arith
