-- ===== src/Keyboard/Tests.antt =====
-- The keyboard with one character typed and Ctrl held.
use macac_os.Base.{◌≡◌, refl, true, [], ◌∷◌, replicate, returns, arith, set}
use macac_os.Memory.{end_header}
use macac_os.Keyboard.{Keyboard, Console, keyboard_handler, char_hex_map}
use macac_os.Keyboard.Buffer.{IsRing, typed, keyboard_handler-typed}

abbrev keyboard : Keyboard
keyboard = record {
  buffer = set (replicate 1024 0) 1023 97;
  q_elements = 1;
  read_index = 1023;
  write_index = 1024;
  ctrl_pressed = true;
}

keyboard-IsRing : IsRing keyboard
keyboard-IsRing = record {
  storage = refl;
  read_in = omega arith;
  few = omega arith;
  write_in = omega arith;
  write_behind = refl;
}

abbrev console : Console
console = record {
  keyboard = keyboard;
  kernel = record {
    family = record {
      children = [];
      scheduler = record {
        process_list = [];
        pid_value = 0;
        dim = 0;
        current_process_idx = 0;
        idle_pid = 1;
      };
    };
    memory = record {
      header = λ a. end_header;
      mem_info = record { allocated_bytes = 0; free_bytes = 0; allocated_blocks = 0 };
    };
    word = λ a. 0;
  };
}

-- Ctrl and the key 'd' type the end of a file.
keyboard_handler-typed_example :
    (k : Keyboard) × (keyboard_handler 64 8 0x20 console
      ≡ returns 64 (record console { keyboard = k }))
    × IsRing k
    × (typed k ≡ 97 ∷ 0xFE ∷ [])
keyboard_handler-typed_example =
    keyboard_handler-typed 64 8 0x20 console keyboard-IsRing (omega arith) refl

enter_key : char_hex_map 0x1C ≡ 10
unfolding char_hex_map
enter_key = refl

keys_of_a_row : (char_hex_map 0x1E ∷ char_hex_map 0x48 ∷ char_hex_map 0x50 ∷ []) ≡ 97 ∷ 85 ∷ 68 ∷ []
unfolding char_hex_map
keys_of_a_row = refl
