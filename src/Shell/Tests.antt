-- ===== src/Shell/Tests.antt =====
-- Lines that a user types.
use macac_os.Base.{
  Option, none, ◌⊎◌, returns, fault, hang, ℕ, ℕ, ◌≡◌, refl, some, [], ◌∷◌, ◌++◌, List, replicate,
  arith,
}
use macac_os.Base.Int.{pos}
use macac_os.Memory.{memory_init, memory_alloc, find_free_block, alloc_at, add_block}
use macac_os.Memory.Chain.{Block}
use macac_os.Memory.Alloc.{alloc_blocks, memory_init-IsHeap}
use macac_os.Kernel.Death.{IsParams}
use macac_os.Pipes.Samples.{pipes}
use macac_os.Shell.Arguments.{
  Reaction, Space, prepare_parameters, react, as_process, copy_text, zeros_behind,
}
use macac_os.Shell.Arguments.Copied.{After, RefusedOne}
use macac_os.Shell.Arguments.Built.{IsArray, prepare_parameters-IsArray}
use macac_os.Strings.{str_len, str_cmp}
use macac_os.Shell.{
  as_child, normal_process_handle, validate_num_of_params, parse_buffer, first_word, params_behind,
  parse_params, read_params, skip_spaces, find_idx_command, find_idx_from, piped_process_handle,
  pipe_programs, piped, is_single,
}
use macac_os.Shell.Edit.{buffer_action}
use macac_os.Shell.Edit.Typed.{buffer_action-edited}
use macac_os.Shell.Line.{spaced, parse_buffer-spaced}

abbrev nice : List ℕ
nice = 0x6E ∷ 0x69 ∷ 0x63 ∷ 0x65 ∷ []

abbrev cat : List ℕ
cat = 0x63 ∷ 0x61 ∷ 0x74 ∷ []

abbrev wc : List ℕ
wc = 0x77 ∷ 0x63 ∷ []

parse_buffer-spaced_example :
    parse_buffer (nice ++ spaced ((0x33 ∷ []) ∷ (0x35 ∷ []) ∷ []) (replicate 248 0))
    ≡ some (
      nice ++ 0 ∷ [],
      record { written = (0x33 ∷ 0 ∷ []) ∷ (0x35 ∷ replicate 248 0) ∷ []; size = some 2 },
    )
parse_buffer-spaced_example =
    parse_buffer-spaced nice ((0x33 ∷ []) ∷ (0x35 ∷ []) ∷ []) 247
      (
        omega arith,
        (
          (omega arith, omega arith),
          (
            (omega arith, omega arith),
            ((omega arith, omega arith), ((omega arith, omega arith), tt)),
          ),
        ),
      )
      (
        (omega arith, ((omega arith, omega arith), tt)),
        ((omega arith, ((omega arith, omega arith), tt)), tt),
      )
      (omega arith) (omega arith)

cat_found : find_idx_command (cat ++ 0 ∷ []) ≡ some (pos 14)
unfolding find_idx_command find_idx_from str_cmp str_len
cat_found = refl

-- The line "cat | wc": the parameters are the bar, the second word, and the command. Program 15, wc,
-- writes into the pipe that program 14, cat, reads.
bar_line :
    piped_process_handle ((0x7C ∷ 0 ∷ []) ∷ (wc ++ 0 ∷ []) ∷ (cat ++ 0 ∷ []) ∷ []) 2
    ≡ some (piped 15 14)
unfolding piped_process_handle pipe_programs find_idx_command find_idx_from str_cmp str_len
    is_single
bar_line = refl

-- "k 5 6 7" with the last four characters deleted: the byte behind the end counts as a parameter.
erased :
    parse_buffer (0x6B ∷ 0x20 ∷ 0x35 ∷ 0 ∷ 0x36 ∷ 0x20 ∷ 0x37 ∷ 0 ∷ [])
    ≡ some (
      0x6B ∷ 0 ∷ [],
      record { written = (0x35 ∷ 0 ∷ 0x36 ∷ 0 ∷ []) ∷ (0x37 ∷ 0 ∷ []) ∷ []; size = some 2 },
    )
unfolding parse_buffer parse_params params_behind read_params first_word skip_spaces
erased = refl

-- "ab", backspace, "c".
buffer_action-edited_example :
    (rest : List ℕ) × (buffer_action 5 (0x61 ∷ 0x62 ∷ 0x7F ∷ 0x63 ∷ 0xA ∷ []) (replicate 5 0)
      ≡ some (0x61 ∷ 0x63 ∷ 0 ∷ rest))
buffer_action-edited_example =
    buffer_action-edited (0x61 ∷ 0x62 ∷ 0x7F ∷ 0x63 ∷ []) [] (replicate 5 0)
      (omega arith, (omega arith, (omega arith, (omega arith, tt)))) (omega arith)

-- The kernel before there are processes, with the heap as memory_init leaves it.
abbrev space : Space
space = record {
  kernel = record (pipes.sync.kernel) { memory = memory_init pipes.sync.kernel.memory };
  bytes = λ a. 0;
}

abbrev no_blocks : List Block
no_blocks = []

-- The parameters of the line "nice 3 5".
prepare_parameters-IsArray_example :
    (o : Option ℕ) × (bs : List Block) × (s : Space) × (prepare_parameters
        ((0x33 ∷ 0 ∷ []) ∷ (0x35 ∷ 0 ∷ []) ∷ [])
        2
        (nice ++ 0 ∷ [])
        space
      ≡ returns o s)
    × After no_blocks bs space s
    × (((o ≡ none)
          × (((alloc_blocks 32 bs).0 ≡ none)
              ⊎ RefusedOne bs ((0x33 ∷ 0 ∷ []) ∷ (0x35 ∷ 0 ∷ []) ∷ (nice ++ 0 ∷ []) ∷ [])))
        ⊎ ((params : ℕ) × (o ≡ some params)
            × IsArray bs s params ((0x33 ∷ 0 ∷ []) ∷ (0x35 ∷ 0 ∷ []) ∷ (nice ++ 0 ∷ []) ∷ [])
            × IsParams s.kernel.word params 3))
unfolding str_len
prepare_parameters-IsArray_example =
    prepare_parameters-IsArray ((0x33 ∷ 0 ∷ []) ∷ (0x35 ∷ 0 ∷ []) ∷ []) (nice ++ 0 ∷ []) space
      (memory_init-IsHeap pipes.sync.kernel.memory refl refl) ((1, refl), ((1, refl), tt)) (4, refl)
      (omega arith)

-- What `react` does for a line, or `none` if it does not return.
abbrev reaction : List ℕ → Option Reaction
reaction line = elim (react line space) [ returns a s ↦ some a | fault ↦ none | hang ↦ none ]

nice_line :
    reaction (nice ++ spaced ((0x33 ∷ []) ∷ (0x35 ∷ []) ∷ []) (replicate 248 0))
    ≡ some (as_process (some 0xA00010) (as_child 18 0 1))
unfolding react parse_buffer skip_spaces params_behind find_idx_command str_len str_cmp memory_alloc
    find_free_block memory_init alloc_at zeros_behind copy_text add_block normal_process_handle
    piped_process_handle is_single validate_num_of_params find_idx_from
nice_line = refl

-- Behind five parameters the shell reads behind its array.
five_parameters : reaction (nice ++ spaced (replicate 5 (0x33 ∷ [])) (replicate 242 0)) ≡ none
unfolding react parse_buffer skip_spaces params_behind find_idx_command str_len str_cmp memory_alloc
    find_free_block memory_init alloc_at zeros_behind copy_text add_block
five_parameters = refl
