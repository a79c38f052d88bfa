-- ===== src/Shell/Arguments.antt =====
-- `prepare_parameters` of Userland/SampleCodeModule/shell.c: the copies of the parameters on the heap
-- that a process gets, and the part of the loop of `shell` behind the reading of a line. The
-- parameters are the rows of the array of the shell, as lists of bytes; a message is left out.
pub mod Reserved
pub mod Copied
pub mod Stored
pub mod Built
use macac_os.Base.{
  ℕ, zero, suc, ◌+◌, ◌-◌, ◌*◌, ◌^◌, Bool, true, false, Option, none, some, List, [], ◌∷◌, ◌++◌,
  returns, fault, Cmd, pure, fetch, modify, zoom, ◌>>=◌, ◌>>◌,
}
use macac_os.Base.Int.{ℤ, pos, negsuc}
use macac_os.Memory.{u64, memory_alloc}
use macac_os.Kernel.{Kernel, put_word}
use macac_os.KernelLib.{Bytes}
use macac_os.Strings.{str_len}
use macac_os.SystemCalls.{write_run}
use macac_os.Shell.{
  parse_buffer, find_idx_command, piped_process_handle, normal_process_handle, Piped, not_piped,
  command_not_found, not_pipeable, piped, Started, nothing, in_background, as_child,
}

-- The kernel, with the pointers among its words, and the bytes of the texts.
pub record Space : Type 0 where
  pub kernel : Kernel
  pub bytes : Bytes

abbrev pub sys_malloc : ℕ → Cmd Space (Option ℕ)
sys_malloc size =
    zoom (λ (s : Space). s.kernel) (λ (k : Kernel) s. record s { kernel = k })
      (zoom (λ (k : Kernel). k.memory) (λ m k. record k { memory = m }) (memory_alloc size))

-- The first `n` elements.
abbrev pub take : ℕ → List ℕ → List ℕ
take zero xs = []
take (suc n) [] = []
take (suc n) (x ∷ xs) = x ∷ take n xs

-- A copy of one text with its zero byte. `none` is NULL. The new block does not reach into the text,
-- so `mem_cpy` writes the bytes of the text.
unfoldable pub copy_text : List ℕ → Cmd Space (Option ℕ)
copy_text text = do
  len ← fetch (str_len text)
  allocated ← sys_malloc (len + 1)
  elim allocated [
    | none ↦ pure none
    | some param ↦ (do
      modify (λ s. record s { bytes = write_run (take (len + 1) text) param s.bytes })
      pure (some param))
  ]

-- `params[i] = param`
abbrev pub put_pointer : ℕ → ℕ → ℕ → Space → Space
put_pointer params i param s = record s {
  kernel = record (s.kernel) { word = put_word (u64 (params + 8 * i)) param s.kernel.word };
}

-- The loop, with the rounds and the rows that are left from `i` on: `false` if the heap is full.
unfoldable pub copy_parameters : ℕ → ℕ → List (List ℕ) → ℕ → Cmd Space Bool
copy_parameters zero i rows params = pure true
copy_parameters (suc left) i [] params = λ s. fault
copy_parameters (suc left) i (row ∷ rows) params = do
  copied ← copy_text row
  elim copied [
    | none ↦ pure false
    | some param ↦ (do
      modify (put_pointer params i param)
      copy_parameters left (i + 1) rows params)
  ]

-- The part of `prepare_parameters` behind the loop.
unfoldable pub copy_name : ℕ → ℕ → List ℕ → Cmd Space (Option ℕ)
copy_name params size name = do
  copied ← copy_text name
  elim copied [
    | none ↦ pure none
    | some name_param ↦ (do
      modify (put_pointer params size name_param)
      modify (put_pointer params (size + 1) 0)
      pure (some params))
  ]

unfoldable pub prepare_parameters : List (List ℕ) → ℕ → List ℕ → Cmd Space (Option ℕ)
unfolding copy_parameters copy_name
prepare_parameters parameters size name = do
  allocated ← sys_malloc (u64 ((size + 2) * 8))
  elim allocated [
    | none ↦ pure none
    | some params ↦ (do
      copied ← copy_parameters size 0 parameters params
      elim copied [ false ↦ pure none | true ↦ copy_name params size name ])
  ]

-- What the shell does for a line: nothing, the message that there is no such command, or a pipe or a
-- process with the array of parameters (`none` is NULL).
pub data Reaction : Type 0 where
  no_command : Reaction
  unknown_command : Reaction
  in_pipe : Option ℕ → Piped → Reaction
  as_process : Option ℕ → Started → Reaction

-- For a process in the background, the array ends in front of the ampersand. The search for it read
-- the array, so it is not NULL here.
unfoldable pub end_array : Option ℕ → ℕ → Started → Space → Space
end_array params size nothing s = s
end_array params size (as_child idx input output) s = s
end_array none size (in_background idx input output) s = s
end_array (some a) size (in_background idx input output) s = put_pointer a (size - 1) 0 s

-- The part of the loop behind the search for the command.
unfoldable pub run_command : ℕ → List ℕ → List (List ℕ) → ℕ → Cmd Space Reaction
unfolding prepare_parameters end_array
run_command command_idx command parameters size = do
  params ← prepare_parameters parameters size command
  let texts : List (List ℕ) = elim params [ none ↦ [] | some _ ↦ parameters ++ command ∷ [] ]
  handled ← fetch (piped_process_handle texts size)
  elim handled [
    | not_piped ↦ (do
      started ← fetch (normal_process_handle texts size command_idx)
      modify (end_array params size started)
      pure (as_process params started))
    | command_not_found ↦ pure (in_pipe params command_not_found)
    | not_pipeable ↦ pure (in_pipe params not_pipeable)
    | piped i j ↦ pure (in_pipe params (piped i j))
  ]

-- The array of the shell held zeros before the bytes that `parse_buffer` writes.
unfoldable pub zeros_behind : List (List ℕ) → List (List ℕ)
zeros_behind [] = []
zeros_behind (row ∷ rows) = (row ++ 0 ∷ []) ∷ zeros_behind rows

-- One round of the loop of `shell`, from the line on that `buffer_action` leaves. The number of
-- parameters is -1, 2 ^ 64 - 1 where it is unsigned, if `parse_buffer` reports too many.
unfoldable pub react : List ℕ → Cmd Space Reaction
unfolding run_command
react buff_command = do
  parsed ← fetch (parse_buffer buff_command)
  command_idx ← fetch (find_idx_command parsed.0)
  let size : ℕ = elim parsed.1.size [ none ↦ 2 ^ 64 - 1 | some n ↦ n ]
  elim command_idx [
    | negsuc zero ↦ pure unknown_command
    | negsuc (suc _) ↦ pure no_command
    | pos i ↦ run_command i parsed.0 (zeros_behind parsed.1.written) size
  ]
