-- ===== src/Boot/Exceptions.antt =====
-- Kernel/exceptionsDispatcher.c: the text that it prints, in one colour.
use macac_os.Base.{
  ℕ, zero, suc, ◌+◌, ◌/◌, ◌%◌, ltb, ◌==◌, if◌then◌else◌, Option, none, some, List, [], ◌∷◌, ◌++◌,
  Cmd, pure, fetch, ◌>>=◌,
}
use macac_os.Kernel.{Kernel}
use macac_os.Kernel.End.{end_process}

unfoldable pub hex_char : ℕ → ℕ
hex_char digit = if ltb digit 10 then 0x30 + digit else 0x37 + digit

-- The loop of `int_to_hex`, with the places that are left, in front of what is written.
unfoldable pub hex_places : ℕ → ℕ → List ℕ → List ℕ
hex_places zero num written = written
hex_places (suc i) num written = hex_places i (num / 16) (hex_char (num % 16) ∷ written)

unfoldable pub int_to_hex : ℕ → List ℕ
unfolding hex_places
int_to_hex num = hex_places 16 num []

-- The three characters of `register_names` (six of the last).
abbrev pub register_names : List (List ℕ)
register_names =
    (0x72 ∷ 0x69 ∷ 0x70 ∷ [])
    ∷ (0x72 ∷ 0x61 ∷ 0x78 ∷ [])
    ∷ (0x72 ∷ 0x62 ∷ 0x78 ∷ [])
    ∷ (0x72 ∷ 0x63 ∷ 0x78 ∷ [])
    ∷ (0x72 ∷ 0x64 ∷ 0x78 ∷ [])
    ∷ (0x72 ∷ 0x73 ∷ 0x69 ∷ [])
    ∷ (0x72 ∷ 0x64 ∷ 0x69 ∷ [])
    ∷ (0x72 ∷ 0x62 ∷ 0x70 ∷ [])
    ∷ (0x72 ∷ 0x73 ∷ 0x70 ∷ [])
    ∷ (0x72 ∷ 0x38 ∷ 0x20 ∷ [])
    ∷ (0x72 ∷ 0x39 ∷ 0x20 ∷ [])
    ∷ (0x72 ∷ 0x31 ∷ 0x30 ∷ [])
    ∷ (0x72 ∷ 0x31 ∷ 0x31 ∷ [])
    ∷ (0x72 ∷ 0x31 ∷ 0x32 ∷ [])
    ∷ (0x72 ∷ 0x31 ∷ 0x33 ∷ [])
    ∷ (0x72 ∷ 0x31 ∷ 0x34 ∷ [])
    ∷ (0x72 ∷ 0x31 ∷ 0x35 ∷ [])
    ∷ (0x72 ∷ 0x66 ∷ 0x6C ∷ 0x61 ∷ 0x67 ∷ 0x73 ∷ [])
    ∷ []

-- One line of `print_registers`.
unfoldable pub register_line : List ℕ → ℕ → List ℕ
unfolding int_to_hex
register_line name value =
    name ++ (0x20 ∷ 0x3A ∷ 0x20 ∷ []) ++ (0x30 ∷ 0x78 ∷ []) ++ int_to_hex value ++ (0xA ∷ [])

-- `none` is a read behind the array of values.
unfoldable pub print_registers_from : List (List ℕ) → List ℕ → Option (List ℕ)
print_registers_from [] values = some []
print_registers_from (name ∷ names) [] = none
print_registers_from (name ∷ names) (v ∷ vs) = elim (print_registers_from names vs) [
  | none ↦ none
  | some rest ↦ some (register_line name v ++ rest)
]

unfoldable pub print_registers : List ℕ → Option (List ℕ)
unfolding print_registers_from
print_registers reg = print_registers_from register_names reg

abbrev pub error_msg : List ℕ
error_msg =
    0x54 ∷ 0x68 ∷ 0x65 ∷ 0x20 ∷ 0x70 ∷ 0x72 ∷ 0x6F ∷ 0x67 ∷ 0x72 ∷ 0x61 ∷ 0x6D ∷ 0x20 ∷ 0x61 ∷ 0x62
    ∷ 0x6F ∷ 0x72 ∷ 0x74 ∷ 0x65 ∷ 0x64 ∷ 0x20 ∷ 0x64 ∷ 0x75 ∷ 0x65 ∷ 0x20 ∷ 0x74 ∷ 0x6F ∷ 0x20
    ∷ 0x61 ∷ 0x6E ∷ 0x20 ∷ 0x65 ∷ 0x78 ∷ 0x63 ∷ 0x65 ∷ 0x70 ∷ 0x74 ∷ 0x69 ∷ 0x6F ∷ 0x6E ∷ 0x3A
    ∷ 0x20 ∷ []

-- The array of seven texts; `none` is a read behind it.
unfoldable pub error_name : ℕ → Option (List ℕ)
error_name exception =
    if exception == 0
    then some (
        0x44 ∷ 0x69 ∷ 0x76 ∷ 0x69 ∷ 0x64 ∷ 0x65 ∷ 0x20 ∷ 0x62 ∷ 0x79 ∷ 0x20 ∷ 0x5A ∷ 0x65 ∷ 0x72
        ∷ 0x6F ∷ 0xA ∷ [])
    else if exception == 6
    then some (
        0x49 ∷ 0x6E ∷ 0x76 ∷ 0x61 ∷ 0x6C ∷ 0x69 ∷ 0x64 ∷ 0x20 ∷ 0x4F ∷ 0x70 ∷ 0x65 ∷ 0x72 ∷ 0x61
        ∷ 0x74 ∷ 0x69 ∷ 0x6F ∷ 0x6E ∷ 0x20 ∷ 0x43 ∷ 0x6F ∷ 0x64 ∷ 0x65 ∷ 0xA ∷ [])
    else if ltb exception 7
    then some []
    else none

-- The text that is printed, and the new stack pointer.
unfoldable pub exception_dispatcher : ℕ → ℕ → ℕ → List ℕ → Cmd Kernel (List ℕ × ℕ)
unfolding error_name print_registers
exception_dispatcher rsp ss exception regdata = do
  name ← fetch (error_name exception)
  registers ← fetch (print_registers regdata)
  rsp' ← end_process rsp ss
  pure (error_msg ++ name ++ registers, rsp')
