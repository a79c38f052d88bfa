-- ===== src/Console/Tests.antt =====
-- Runs of the console on a screen of 1024 by 768 pixels.
use macac_os.Base.{◌<◌, ◌≤◌, refl, [], ◌∷◌, arith}
use macac_os.Console.{Console, ngc_print}
use macac_os.Console.Cells.{IsGrid, AtCell}
use macac_os.Console.Grid.{ngc_print-AtCell}

abbrev console : Console
console = record {
  level = 1;
  pen_x = 1008;
  pen_y = 720;
  last_pen_x = 0;
  pen_color = record { b = 0x7F; g = 0x7F; r = 0x7F };
  width = 1024;
  height = 768;
  frame_buffer = 0xFD000000;
  memory = λ a. 5;
}

console-IsGrid : IsGrid 1 1024 768 113 45 0
console-IsGrid = record {
  sized = omega arith;
  small = omega arith;
  some_column = omega arith;
  wide = omega arith;
  no_wider = omega arith;
  width_in = omega arith;
  height_in = omega arith;
  tall = omega arith;
  no_taller = omega arith;
}

-- The last cell of the line above the last one.
abbrev above : Console
above = record console { pen_y = 704 }

above-AtCell : AtCell 1 1024 768 0 112 44 above
above-AtCell = record {
  level_is = refl;
  width_is = refl;
  height_is = refl;
  x_is = refl;
  y_is = refl;
}

ngc_print-AtCell_example :
    AtCell 1 1024 768 0 1 45 (ngc_print (λ a. 0x18) (0x41 ∷ 0xA ∷ 0x42 ∷ []) above)
    × (1 < 113)
    × (45 ≤ 45)
ngc_print-AtCell_example =
    ngc_print-AtCell 1 1024 768 113 45 0 console-IsGrid (λ a. 0x18) (0x41 ∷ 0xA ∷ 0x42 ∷ []) 112 44
      above (omega arith, (omega arith, (omega arith, tt))) (omega arith) (omega arith) above-AtCell
