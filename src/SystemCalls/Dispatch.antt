-- ===== src/SystemCalls/Dispatch.antt =====
-- The table of system calls.
use macac_os.Base.{
  ℕ, zero, suc, ◌+◌, ◌-◌, ◌%◌, ◌^◌, true, false, Option, none, some, List, [], ◌∷◌, fault, Cmd,
  pure, get_state, modify, zoom, ◌>>=◌, ◌>>◌, ltb, ◌==◌, if◌then◌else◌, get_elem?,
}
use macac_os.KernelLib.{Bytes}
use macac_os.Memory.{memory_alloc, memory_init}
use macac_os.Scheduler.{
  Process, current_process, get_pid, change_priority, block_or_unblock, force_next_process,
}
use macac_os.Children.{wait_for_children}
use macac_os.Kernel.{code, on_family, free, create_process, create_child_process}
use macac_os.Kernel.End.{Killed, killed, cant_kill_immortal_process, no_process, kill_process}
use macac_os.Console.{
  change_font_size, ngc_print_color, ngc_paint_screen, ngc_print_pixels, delete_last_char,
}
use macac_os.Semaphore.{Sync, create_sem, create_sem_by_id, open_sem}
use macac_os.Semaphore.Calls.{Waited, switched, wait_sem, post_sem, close_sem}
use macac_os.Pipes.{
  on_sync, PipeCode, success, invalid_pipe_id, max_pipes_reached, no_space_for_pipe, NewPipe, id_of,
  refused, create_pipe_available, delete_pipe,
}
use macac_os.SystemCalls.{
  System, Answer, answer, on_pipes, on_kernel, on_processes, on_console, sys_write_handler,
  sys_read_handler, sys_time_handler, sys_inforeg_handler, sys_screen_data_handler,
  sys_beeper_handler, sys_get_mem_info, sys_get_all_processes, wait,
}

-- The bits of what the handlers return.
abbrev pub killed_code : Killed → ℕ
killed_code killed = 1
killed_code cant_kill_immortal_process = 2 ^ 32 - 4
killed_code no_process = 2 ^ 32 - 1

abbrev pub pipe_code : PipeCode → ℕ
pipe_code success = 0
pipe_code invalid_pipe_id = 2 ^ 32 - 1
pipe_code max_pipes_reached = 2 ^ 32 - 2
pipe_code no_space_for_pipe = 2 ^ 32 - 3

abbrev pub new_pipe_code : NewPipe → ℕ
new_pipe_code (id_of id) = id
new_pipe_code (refused c) = pipe_code c

abbrev pub pointer : Option ℕ → ℕ
pointer none = 0
pointer (some p) = p

-- The 64 bits of an `int` that an `unsigned long` is converted to.
abbrev pub extended : ℕ → ℕ
extended n = let w = n % 2 ^ 32 in if ltb w (2 ^ 31) then w else w + (2 ^ 64 - 2 ^ 32)

-- The text at an address: the bytes before its zero byte. The index of `ngc_print` is an `int`, which
-- has no room for more characters than the fuel has rounds.
unfoldable pub text_at : ℕ → ℕ → Bytes → Option (List ℕ)
text_at zero p m = none
text_at (suc fuel) p m = elim (m p == 0) [
  | true ↦ some []
  | false ↦ elim (text_at fuel (p + 1) m) [ none ↦ none | some cs ↦ some (m p ∷ cs) ]
]

unfoldable pub sys_print_color_handler : (ℕ → ℕ) → ℕ → ℕ → Cmd System (Unit {0})
unfolding text_at
sys_print_color_handler font buffer color s = elim (text_at (2 ^ 31) buffer s.console.memory) [
  | none ↦ fault
  | some text ↦ on_console (ngc_print_color font text color) s
]

-- The arguments in rdi, rsi, rdx, rcx and r8.
abbrev pub Handler : Type 0
Handler = ℕ → ℕ → ℕ → ℕ → ℕ → Cmd System Answer

-- `font` is the array of font.h and `end_process` the address of that function; `rsp` and `ss` are the
-- stack pointer and segment of the process that calls.
module _ (font : ℕ → ℕ) (end_process rsp ss : ℕ) where
  -- A handler that returns a value, and one that returns none.
  abbrev with_value : Cmd System ℕ → Cmd System Answer
  with_value m = do v ← m; pure (answer (some v) rsp)

  abbrev without_value : Cmd System (Unit {0}) → Cmd System Answer
  without_value m = do m; pure (answer none rsp)

  -- A handler that may give the turn to another process.
  abbrev switching : Cmd System ℕ → Cmd System Answer
  switching m = do rsp' ← m; pure (answer none rsp')

  abbrev on_sem : {A : Type 0} → Cmd Sync A → Cmd System A
  on_sem m = on_pipes (on_sync m)

  abbrev malloc : ℕ → Cmd System ℕ
  malloc len = do
    p ← on_kernel (zoom (λ k. k.memory) (λ m k. record k { memory = m }) (memory_alloc len))
    pure (pointer p)

  abbrev change_priority_of : ℕ → ℕ → Cmd System Answer
  change_priority_of pid priority = with_value (do
    r ← on_processes (change_priority (pid % 2 ^ 32) (priority % 2 ^ 8))
    elim r [ none ↦ pure (2 ^ 8 - 1) | some _ ↦ pure 1 ])

  abbrev of_current : (Process → ℕ) → Cmd System ℕ
  of_current f = do p ← on_processes current_process; pure (f p)

  -- The handlers by their numbers.
  unfoldable pub syscalls : List Handler
  syscalls =
      (λ rdi rsi rdx rcx r8. sys_read_handler rsp ss rsi rdx)
      ∷ (λ rdi rsi rdx rcx r8. sys_write_handler font rsp ss rsi rdx)
      ∷ (λ rdi rsi rdx rcx r8. with_value (do s ← get_state; pure (sys_time_handler s)))
      ∷ (λ rdi rsi rdx rcx r8. with_value (sys_inforeg_handler rdi))
      ∷ (λ rdi rsi rdx rcx r8. without_value (on_console (change_font_size rdi)))
      ∷ (λ rdi rsi rdx rcx r8. without_value (sys_print_color_handler font rdi rsi))
      ∷ (λ rdi rsi rdx rcx r8. without_value (on_console (ngc_paint_screen rdi)))
      ∷ (λ rdi rsi rdx rcx r8. without_value (sys_screen_data_handler rdi))
      ∷ (λ rdi rsi rdx rcx r8.
          without_value (on_console (ngc_print_pixels rdi rsi (rdx % 2 ^ 16) (rcx % 2 ^ 16) r8)))
      ∷ (λ rdi rsi rdx rcx r8. with_value (do s ← get_state; pure (extended s.ticks)))
      ∷ (λ rdi rsi rdx rcx r8. without_value (sys_beeper_handler rdi rsi))
      ∷ (λ rdi rsi rdx rcx r8. with_value (malloc rdi))
      ∷ (λ rdi rsi rdx rcx r8. without_value (on_kernel (modify (free rdi))))
      ∷ (λ rdi rsi rdx rcx r8.
          without_value (on_kernel (modify (λ k. record k { memory = memory_init k.memory }))))
      ∷ (λ rdi rsi rdx rcx r8. with_value (do
        r ←
            on_kernel
              (create_process end_process rdi (rsi % 2 ^ 8) (rdx % 2 ^ 8) (rcx % 2 ^ 8) false r8)
        pure (code r)))
      ∷ (λ rdi rsi rdx rcx r8. do
        r ← on_kernel (kill_process rsp ss (rdi % 2 ^ 32))
        pure (answer (some (killed_code r.0)) r.1))
      ∷ (λ rdi rsi rdx rcx r8. do
        r ← on_processes (block_or_unblock rsp ss (rdi % 2 ^ 32))
        elim r [
          | none ↦ pure (answer (some (2 ^ 32 - 1)) rsp)
          | some rsp' ↦ pure (answer (some 1) rsp')
        ])
      ∷ (λ rdi rsi rdx rcx r8. with_value (do
        r ←
            on_kernel
              (create_child_process end_process rdi (rsi % 2 ^ 8) (rdx % 2 ^ 8) (rcx % 2 ^ 8) r8)
        pure (code r)))
      ∷ (λ rdi rsi rdx rcx r8. switching (on_kernel (on_family (wait_for_children rsp ss))))
      ∷ (λ rdi rsi rdx rcx r8. without_value (wait rdi))
      ∷ (λ rdi rsi rdx rcx r8. change_priority_of rdi rsi)
      ∷ (λ rdi rsi rdx rcx r8. with_value (on_processes get_pid))
      ∷ (λ rdi rsi rdx rcx r8. with_value (sys_get_all_processes rdi))
      ∷ (λ rdi rsi rdx rcx r8. without_value (sys_get_mem_info rdi))
      ∷ (λ rdi rsi rdx rcx r8. without_value (on_console delete_last_char))
      ∷ (λ rdi rsi rdx rcx r8. change_priority_of rdi rsi)
      ∷ (λ rdi rsi rdx rcx r8.
          with_value (do r ← on_pipes create_pipe_available; pure (new_pipe_code r)))
      ∷ (λ rdi rsi rdx rcx r8. without_value (do on_pipes (delete_pipe (rdi % 2 ^ 32)); pure tt))
      ∷ (λ rdi rsi rdx rcx r8. with_value (of_current (λ p. p.output)))
      ∷ (λ rdi rsi rdx rcx r8. with_value (of_current (λ p. p.output)))
      ∷ (λ rdi rsi rdx rcx r8. with_value (on_sem (create_sem rdi)))
      ∷ (λ rdi rsi rdx rcx r8. with_value (on_sem (create_sem_by_id rdi rsi)))
      ∷ (λ rdi rsi rdx rcx r8. with_value (on_sem (open_sem rdi rsi)))
      ∷ (λ rdi rsi rdx rcx r8. do
        w ← on_sem (wait_sem rsp ss rdi)
        elim w [
          | Waited.code n ↦ pure (answer (some n) rsp)
          | switched rsp' ↦ pure (answer (some 0) rsp')
        ])
      ∷ (λ rdi rsi rdx rcx r8. with_value (on_sem (post_sem rdi)))
      ∷ (λ rdi rsi rdx rcx r8. with_value (on_sem (close_sem rdi)))
      ∷ (λ rdi rsi rdx rcx r8. switching (on_processes (force_next_process rsp ss)))
      ∷ []

  -- The number is not tested: one behind the table is a jump to what stands there.
  unfoldable pub syscall_dispatcher : ℕ → ℕ → ℕ → ℕ → ℕ → ℕ → Cmd System Answer
  unfolding syscalls
  syscall_dispatcher rdi rsi rdx rcx r8 rax = elim (get_elem? syscalls rax) [
    | none ↦ (λ s. fault)
    | some handler ↦ handler rdi rsi rdx rcx r8
  ]
