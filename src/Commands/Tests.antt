-- ===== src/Commands/Tests.antt =====
-- Runs of the commands.
use macac_os.Base.{ℕ, ◌≡◌, refl, false, some, List, [], ◌∷◌, ◌++◌, replicate, arith}
use macac_os.Strings.{str_len}
use macac_os.Commands.{
  is_allowed_char, is_not_vowel, check_mem, dump_bytes, change_font_size, cat, wc, filter, kill,
  with_pid, eof, max_buffer,
}
use macac_os.Commands.Words.{wc-edited}

-- "ab", a backspace, " c" and a line end.
abbrev keys : List ℕ
keys = 0x61 ∷ 0x62 ∷ 0x7F ∷ 0x20 ∷ 0x63 ∷ 0xA ∷ []

wc-edited_example :
    wc 0 (keys ++ eof ∷ []) (replicate max_buffer 0)
    ≡ some (record { words = 2; lines = 1; letter = 4 })
unfolding is_allowed_char
wc-edited_example =
    wc-edited 0 keys [] (omega arith)
      (omega arith, (omega arith, (omega arith, (omega arith, (omega arith, (omega arith, tt))))))
      (omega arith) (omega arith, (omega arith, (omega arith, (omega arith, tt))))

filtered : filter 0 (0x61 ∷ 0x62 ∷ 0xA ∷ []) (replicate max_buffer 0) ≡ some (0x62 ∷ 0xA ∷ [])
unfolding filter is_allowed_char is_not_vowel
filtered = refl

-- The line is shown when it ends.
two_lines :
    cat 0 (0x61 ∷ 0xA ∷ 0x62 ∷ 0xA ∷ eof ∷ []) (replicate max_buffer 0)
    ≡ some ((0x61 ∷ 0xA ∷ []) ∷ (0x62 ∷ 0xA ∷ []) ∷ [])
unfolding cat is_allowed_char
two_lines = refl

-- What the array holds behind the line is counted as well.
stale :
    wc 0 (0x61 ∷ eof ∷ []) (0x62 ∷ 0x62 ∷ 0 ∷ [])
    ≡ some (record { words = 1; lines = 0; letter = 2 })
unfolding wc is_allowed_char
stale = refl

address : check_mem (0x30 ∷ 0x78 ∷ 0x61 ∷ 0x67 ∷ 0 ∷ []) ≡ some false
unfolding check_mem str_len
address = refl

level : change_font_size (0x33 ∷ 0 ∷ []) (0x78 ∷ 0x79 ∷ []) ≡ some (some 3)
unfolding change_font_size str_len
level = refl

dumped :
    dump_bytes 15 (0xAB ∷ 1 ∷ [])
    ≡ 0x30 ∷ 0x78 ∷ 0x41 ∷ 0x42 ∷ 0x20 ∷ 0xA ∷ 0x30 ∷ 0x78 ∷ 0x30 ∷ 0x31 ∷ 0x20 ∷ 0xA ∷ []
unfolding dump_bytes
dumped = refl

-- The number that `kill` prints is the code of the call.
killed : kill 1 ≡ with_pid 1
unfolding kill
killed = refl
