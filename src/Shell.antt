-- ===== src/Shell.antt =====
-- Userland/SampleCodeModule/shell.c: how the shell reads a line, and which processes it starts for it.
pub mod Parse
pub mod Line
pub mod Edit
pub mod Arguments
mod Tests
use macac_os.Base.{
  ℕ, zero, suc, ◌+◌, ◌-◌, ◌^◌, Bool, true, false, not, ◌&&◌, ◌||◌, Option, none, some, List, [],
  ◌∷◌, ◌++◌, leb, ◌==◌, if◌then◌else◌, length, get_elem?,
}
use macac_os.Base.Int.{ℤ, pos, negsuc, eq_ℤ}
use macac_os.Strings.{str_len, str_cmp}

abbrev pub max_parameters : ℕ
max_parameters = 5

abbrev pub length_parameters : ℕ
length_parameters = 256

abbrev pub buffer_length : ℕ
buffer_length = 256

-- The loops over spaces, on the bytes of the buffer that are left.
unfoldable pub skip_spaces : List ℕ → List ℕ
skip_spaces [] = []
skip_spaces (c ∷ cs) = let rest = skip_spaces cs in if c == 0x20 then rest else c ∷ cs

-- The loop that copies the command: the bytes that it copies, and those that are left.
unfoldable pub first_word : List ℕ → List ℕ × List ℕ
first_word [] = ([], [])
first_word (c ∷ cs) =
    let rest = first_word cs in
    if not (c == 0x20) && not (c == 0) then (c ∷ rest.0, rest.1) else ([], c ∷ cs)

-- The parameters that are written, and their number; `none` is the code -1.
pub record Parameters : Type 0 where
  pub written : List (List ℕ)
  pub size : Option ℕ

-- The loop over the parameters: `k`, the bytes of parameter `k - 1` and the parameters before it so
-- far, and the bytes of the buffer that are left. The outer `none` is a read behind the buffer, or
-- the end of the fuel; each round goes at least one byte on.
unfoldable pub read_params : ℕ → ℕ → List ℕ → List (List ℕ) → List ℕ → Option Parameters
read_params zero k cur before bytes = none
read_params (suc fuel) k cur before [] =
    some (record { written = before ++ cur ∷ []; size = some k })
read_params (suc fuel) k cur before (c ∷ cs) =
    if leb max_parameters k || leb length_parameters (length cur)
    then some (record { written = before ++ cur ∷ []; size = none })
    else if not (c == 0x20)
    then read_params fuel k (cur ++ c ∷ []) before cs
    else elim (skip_spaces cs) [
      | [] ↦ none
      | d ∷ ds ↦
          if d == 0
          then some (record { written = before ++ (cur ++ 0 ∷ []) ∷ []; size = some k })
          else read_params fuel (k + 1) [] (before ++ (cur ++ 0 ∷ []) ∷ []) (d ∷ ds)
    ]

-- The part of `parse_buffer` behind the spaces after the command.
unfoldable pub params_behind : List ℕ → Option Parameters
unfolding read_params
params_behind [] = none
params_behind (c ∷ cs) =
    if c == 0
    then some (record { written = []; size = some 0 })
    else read_params (suc (suc (length cs))) 1 [] [] (c ∷ cs)

-- The part of `parse_buffer` behind the command.
unfoldable pub parse_params : List ℕ → Option Parameters
parse_params rest = params_behind (skip_spaces rest)

-- The command with its zero byte, and the parameters.
unfoldable pub parse_buffer : List ℕ → Option (List ℕ × Parameters)
unfolding first_word parse_params
parse_buffer read_buffer =
    let split = first_word (skip_spaces read_buffer) in
    if leb buffer_length (length split.0)
    then none
    else elim (parse_params split.1) [ none ↦ none | some p ↦ some (split.0 ++ 0 ∷ [], p) ]

-- What the table says of a program, its name with the zero byte. The address of the function is left
-- out, and so is the text for a wrong number of parameters.
pub record ProgramInfo : Type 0 where
  pub name : List ℕ
  pub args_qty : ℕ
  pub pipeable : ℕ
  pub base_priority : ℕ

abbrev entry : List ℕ → ℕ → ℕ → ℕ → ProgramInfo
entry name args_qty pipeable base_priority = record {
  name = name;
  args_qty = args_qty;
  pipeable = pipeable;
  base_priority = base_priority;
}

abbrev pub programs : List ProgramInfo
programs =
    entry (0x68 ∷ 0x65 ∷ 0x6C ∷ 0x70 ∷ 0 ∷ []) 0 0 5
    ∷ entry
        (0x69 ∷ 0x6E ∷ 0x76 ∷ 0x61 ∷ 0x6C ∷ 0x69 ∷ 0x64 ∷ 0x6F ∷ 0x70 ∷ 0x63 ∷ 0x6F ∷ 0x64 ∷ 0x65
          ∷ 0 ∷ [])
        0 0 5
    ∷ entry
        (0x64 ∷ 0x69 ∷ 0x76 ∷ 0x69 ∷ 0x64 ∷ 0x65 ∷ 0x62 ∷ 0x79 ∷ 0x7A ∷ 0x65 ∷ 0x72 ∷ 0x6F ∷ 0 ∷ [])
        0 0 5
    ∷ entry (0x69 ∷ 0x6E ∷ 0x66 ∷ 0x6F ∷ 0x72 ∷ 0x65 ∷ 0x67 ∷ 0 ∷ []) 0 0 5
    ∷ entry (0x70 ∷ 0x72 ∷ 0x69 ∷ 0x6E ∷ 0x74 ∷ 0x6D ∷ 0x65 ∷ 0x6D ∷ 0 ∷ []) 1 0 5
    ∷ entry (0x74 ∷ 0x69 ∷ 0x6D ∷ 0x65 ∷ 0 ∷ []) 0 0 5
    ∷ entry
        (0x63 ∷ 0x68 ∷ 0x61 ∷ 0x6E ∷ 0x67 ∷ 0x65 ∷ 0x66 ∷ 0x6F ∷ 0x6E ∷ 0x74 ∷ 0x73 ∷ 0x69 ∷ 0x7A
          ∷ 0x65 ∷ 0 ∷ [])
        1 0 5
    ∷ entry (0x74 ∷ 0x72 ∷ 0x6F ∷ 0x6E ∷ 0 ∷ []) 0 0 5
    ∷ entry (0x63 ∷ 0x6C ∷ 0x65 ∷ 0x61 ∷ 0x72 ∷ 0 ∷ []) 0 0 5
    ∷ entry (0x74 ∷ 0x65 ∷ 0x73 ∷ 0x74 ∷ 0x6D ∷ 0x6D ∷ 0 ∷ []) 0 0 5
    ∷ entry (0x74 ∷ 0x65 ∷ 0x73 ∷ 0x74 ∷ 0x70 ∷ 0x72 ∷ 0x69 ∷ 0x6F ∷ 0 ∷ []) 0 0 1
    ∷ entry (0x74 ∷ 0x65 ∷ 0x73 ∷ 0x74 ∷ 0x73 ∷ 0x63 ∷ 0 ∷ []) 0 1 1
    ∷ entry (0x70 ∷ 0x73 ∷ 0 ∷ []) 0 1 5
    ∷ entry (0x6C ∷ 0x6F ∷ 0x6F ∷ 0x70 ∷ 0 ∷ []) 0 0 5
    ∷ entry (0x63 ∷ 0x61 ∷ 0x74 ∷ 0 ∷ []) 0 1 5
    ∷ entry (0x77 ∷ 0x63 ∷ 0 ∷ []) 0 1 5
    ∷ entry (0x66 ∷ 0x69 ∷ 0x6C ∷ 0x74 ∷ 0x65 ∷ 0x72 ∷ 0 ∷ []) 0 1 5
    ∷ entry (0x6B ∷ 0x69 ∷ 0x6C ∷ 0x6C ∷ 0 ∷ []) 1 0 5
    ∷ entry (0x6E ∷ 0x69 ∷ 0x63 ∷ 0x65 ∷ 0 ∷ []) 2 1 5
    ∷ entry (0x62 ∷ 0x6C ∷ 0x6F ∷ 0x63 ∷ 0x6B ∷ 0 ∷ []) 1 0 5
    ∷ entry (0x70 ∷ 0x68 ∷ 0x69 ∷ 0x6C ∷ 0x6F ∷ 0 ∷ []) 0 1 5
    ∷ entry (0x6D ∷ 0x65 ∷ 0x6D ∷ 0 ∷ []) 0 1 5
    ∷ entry
        (0x70 ∷ 0x69 ∷ 0x70 ∷ 0x65 ∷ 0x63 ∷ 0x6F ∷ 0x6D ∷ 0x6D ∷ 0x61 ∷ 0x6E ∷ 0x64 ∷ 0x73 ∷ 0 ∷ [])
        0 1 5
    ∷ entry (0x74 ∷ 0x68 ∷ 0x61 ∷ 0x6E ∷ 0x6B ∷ 0x73 ∷ 0 ∷ []) 0 1 5
    ∷ entry (0x74 ∷ 0x65 ∷ 0x73 ∷ 0x74 ∷ 0x73 ∷ 0x79 ∷ 0x6E ∷ 0x63 ∷ 0 ∷ []) 0 1 3
    ∷ []

-- The loop of `find_idx_command` over the first `COMMANDS_LENGTH` commands, which have the names of
-- the programs, from index `i` on.
unfoldable pub find_idx_from : List ℕ → ℕ → List ProgramInfo → Option ℤ
find_idx_from buff i [] = some (negsuc 0)
find_idx_from buff i (p ∷ ps) =
    let rest = find_idx_from buff (i + 1) ps in
    elim (str_cmp buff p.name) [
      | none ↦ none
      | some d ↦ if eq_ℤ d (pos 0) then some (pos i) else rest
    ]

unfoldable pub find_idx_command : List ℕ → Option ℤ
unfolding find_idx_from
find_idx_command buff = elim (str_len buff) [
  | none ↦ none
  | some len ↦ if len == 0 then some (negsuc 1) else find_idx_from buff 0 programs
]

-- The text is the one character and a zero byte.
unfoldable pub is_single : ℕ → List ℕ → Bool
is_single c [] = false
is_single c (a ∷ []) = false
is_single c (a ∷ b ∷ _) = a == c && b == 0

pub data Validity : Type 0 where
  background : Validity
  invalid : Validity
  valid : Validity

unfoldable pub validate_num_of_params : ℕ → ProgramInfo → List (List ℕ) → Option Validity
unfolding is_single
validate_num_of_params params_size program params =
    let last_is_ampersand : Option Bool = elim (get_elem? params (params_size - 1)) [
      | none ↦ none
      | some p ↦ some (is_single 0x26 p)
    ] in
    let plain : Validity = if params_size == program.args_qty then valid else invalid in
    if params_size == program.args_qty + 1
    then elim last_is_ampersand [
      | none ↦ none
      | some ampersand ↦ some (if ampersand then background else plain)
    ]
    else some plain

-- What `piped_process_handle` does: 0, -1 with one of the two messages, or a pipe between two
-- programs, by their indices.
pub data Piped : Type 0 where
  not_piped : Piped
  command_not_found : Piped
  not_pipeable : Piped
  piped : ℕ → ℕ → Piped

-- The tests behind the search for the two programs.
unfoldable pub pipe_programs : Option ℤ → Option ℤ → Option Piped
pipe_programs none second = none
pipe_programs (some first) none = none
pipe_programs (some (negsuc i)) (some second) = some command_not_found
pipe_programs (some (pos i)) (some (negsuc j)) = some command_not_found
pipe_programs (some (pos i)) (some (pos j)) = elim (get_elem? programs i) [
  | none ↦ none
  | some p ↦ some (if p.pipeable == 0 then not_pipeable else piped i j)
]

-- `none` is a read behind the parameters.
unfoldable pub piped_process_handle : List (List ℕ) → ℕ → Option Piped
unfolding is_single find_idx_command pipe_programs
piped_process_handle params params_size =
    if not (params_size == 2) then some not_piped else elim params [
      | [] ↦ none
      | bar ∷ others ↦ if not (is_single 0x7C bar) then some not_piped else elim others [
        | [] ↦ none
        | first ∷ more ↦ elim more [
          | [] ↦ none
          | second ∷ _ ↦ pipe_programs (find_idx_command first) (find_idx_command second)
        ]
      ]
    ]

-- The calls of `normal_process_handle` that start a process, in the background or as a child of the
-- shell, by the index of the program, its input and its output.
pub data Started : Type 0 where
  nothing : Started
  in_background : ℕ → ℕ → ℕ → Started
  as_child : ℕ → ℕ → ℕ → Started

-- `STDIN`, `STDOUT` and `BACKGROUND` are 0, 1 and 4.
unfoldable pub normal_process_handle : List (List ℕ) → ℕ → ℕ → Option Started
unfolding validate_num_of_params
normal_process_handle params params_size command_idx = elim (get_elem? programs command_idx) [
  | none ↦ none
  | some program ↦ elim (validate_num_of_params params_size program params) [
    | none ↦ none
    | some v ↦ elim v [
      | background ↦ some (in_background command_idx 0 4)
      | invalid ↦ some nothing
      | valid ↦ some (as_child command_idx 0 1)
    ]
  ]
]
