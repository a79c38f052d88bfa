-- ===== src/Keyboard.antt =====
-- Kernel/keyboard.c: the keys that were pressed, as characters in a ring buffer, and the keys that are
-- read with Ctrl.
pub mod Buffer
mod Tests
use macac_os.Base.{
  ℕ, ◌+◌, ◌-◌, Bool, true, false, not, ◌&&◌, ◌||◌, List, [], ◌∷◌, Outcome, returns, fault, hang,
  Cmd, pure, fetch, get_state, modify, ◌>>=◌, ◌>>◌, ltb, leb, ◌==◌, if◌then◌else◌, get_elem?,
  get_or, set, length,
}
use macac_os.Scheduler.{max_processes, force_timer_tick}
use macac_os.Kernel.{Kernel, on_table}
use macac_os.Kernel.End.{kill_slots}

abbrev pub buffer_size : ℕ
buffer_size = 1024

abbrev pub key_table : List ℕ
key_table =
    0 ∷ 0 ∷ 49 ∷ 50 ∷ 51 ∷ 52 ∷ 53 ∷ 54 ∷ 55 ∷ 56 ∷ 57 ∷ 48 ∷ 45 ∷ 61 ∷ 127 ∷ 9 ∷ 113 ∷ 119 ∷ 101
    ∷ 114 ∷ 116 ∷ 121 ∷ 117 ∷ 105 ∷ 111 ∷ 112 ∷ 91 ∷ 93 ∷ 10 ∷ 124 ∷ 97 ∷ 115 ∷ 100 ∷ 102 ∷ 103
    ∷ 104 ∷ 106 ∷ 107 ∷ 108 ∷ 59 ∷ 34 ∷ 0 ∷ 0 ∷ 92 ∷ 122 ∷ 120 ∷ 99 ∷ 118 ∷ 98 ∷ 110 ∷ 109 ∷ 44 ∷ 46
    ∷ 47 ∷ 0 ∷ 42 ∷ 0 ∷ 32 ∷ 0 ∷ 0 ∷ 0 ∷ 0 ∷ 0 ∷ 0 ∷ 0 ∷ 0 ∷ 0 ∷ 0 ∷ 0 ∷ 0 ∷ 0 ∷ 0 ∷ 85 ∷ 0 ∷ 0 ∷ 76
    ∷ 0 ∷ 82 ∷ 0 ∷ 0 ∷ 68 ∷ []

-- The rest of the table is zero.
unfoldable pub char_hex_map : ℕ → ℕ
char_hex_map i = get_or key_table i 0

-- '&', '|' and the end of a file, from 1 on.
abbrev pub special_hex_chars : ℕ → ℕ
special_hex_chars i = if i == 1 then 38 else if i == 2 then 124 else if i == 3 then 0xFE else 0

pub record Keyboard : Type 0 where
  pub buffer : List ℕ
  pub q_elements : ℕ
  pub read_index : ℕ
  pub write_index : ℕ
  pub ctrl_pressed : Bool

-- The part of `keyboard_handler` that stores a character in the buffer.
unfoldable pub store_char : ℕ → Cmd Keyboard (Unit {0})
store_char c k =
    if leb buffer_size k.q_elements
    then returns tt k
    else (let write = if leb buffer_size k.write_index then 0 else k.write_index in
        if ltb write (length k.buffer)
        then returns tt (record k {
          buffer = set k.buffer write c;
          q_elements = k.q_elements + 1;
          write_index = write + 1;
        })
        else fault)

-- The special character of a key with Ctrl, 0 for none.
abbrev pub special_char : Bool → ℕ → ℕ
special_char ctrl key =
    if ctrl && key == 0x20
    then 3
    else if ctrl && key == 0x07
    then 1
    else if ctrl && key == 0x02
    then 2
    else 0

-- `keyboard_handler`, less Ctrl and Ctrl-C.
unfoldable pub type_key : ℕ → Cmd Keyboard (Unit {0})
type_key key k =
    let special = special_char k.ctrl_pressed key in
    let k' = record k { ctrl_pressed = false } in
    if ltb key 0x53 || not (special == 0)
    then store_char (if special == 0 then char_hex_map key else special_hex_chars special) k'
    else returns tt k'

-- The keyboard beside the rest of the kernel.
pub record Console : Type 0 where
  pub keyboard : Keyboard
  pub kernel : Kernel

-- Ctrl-C. If the process that was interrupted is killed it never runs on behind the switch, so the
-- flag is cleared only where it lives.
unfoldable pub ctrl_c : ℕ → ℕ → Cmd Console ℕ
ctrl_c rsp ss s = elim (kill_slots max_processes 0 false s.kernel) [
  | returns current_process_killed k ↦
      if current_process_killed
      then elim (on_table (force_timer_tick rsp ss) k) [
        | returns rsp' k' ↦ returns rsp' (record s { kernel = k' })
        | fault ↦ fault
        | hang ↦ hang
      ]
      else returns rsp
          (record { keyboard = record (s.keyboard) { ctrl_pressed = false }; kernel = k })
  | fault ↦ fault
  | hang ↦ hang
]

-- The stack pointer after the call, as Ctrl-C may switch processes.
unfoldable pub keyboard_handler : ℕ → ℕ → ℕ → Cmd Console ℕ
keyboard_handler rsp ss key s =
    if key == 0x1D
    then returns rsp (record s { keyboard = record (s.keyboard) { ctrl_pressed = true } })
    else if s.keyboard.ctrl_pressed && key == 0x2E
    then ctrl_c rsp ss s
    else elim (type_key key s.keyboard) [
      | returns _ k ↦ returns rsp (record s { keyboard = k })
      | fault ↦ fault
      | hang ↦ hang
    ]

unfoldable pub get_first_char : Cmd Keyboard ℕ
get_first_char k =
    if k.q_elements == 0
    then returns 0xFF k
    else (do
      to_return ← fetch (get_elem? k.buffer k.read_index)
      modify (λ k. record k { q_elements = k.q_elements - 1 })
      modify (λ k. record k { read_index = k.read_index + 1 })
      modify (λ k. if k.read_index == buffer_size then record k { read_index = 0 } else k)
      pure to_return)
        k
