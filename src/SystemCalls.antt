-- ===== src/SystemCalls.antt =====
-- Kernel/syscall_handler.c: what the system calls do to the parts of the kernel. Buffers that a process
-- hands over lie in the bytes of the memory, apart from the kernel's own words, headers and pipes.
pub mod Dispatch
pub mod Turn
pub mod Listed
pub mod Keys
pub mod Through
mod Tests
use macac_os.Base.{
  ℕ, zero, suc, ◌+◌, ◌-◌, ◌*◌, ◌/◌, ◌%◌, ◌^◌, Bool, true, false, Option, none, some, List, [], ◌∷◌,
  ◌++◌, Outcome, returns, fault, hang, Cmd, pure, get_state, modify, zoom, ◌>>=◌, ◌>>◌, ltb, ◌==◌,
  if◌then◌else◌, length, ◌||◌, get_elem?,
}
use macac_os.Base.Int.{ℤ, pos, eq_ℤ, signed8}
use macac_os.KernelLib.{Bytes, put_byte}
use macac_os.Scheduler.{Process, Scheduler, current_process}
use macac_os.Children.{Family}
use macac_os.Kernel.{Kernel, on_family, on_table, free}
use macac_os.Kernel.Listing.{ProcessInfo, get_all_processes}
use macac_os.Keyboard.{Keyboard, get_first_char}
use macac_os.Console.{Console, ngc_print_char, ngc_print}
use macac_os.Semaphore.{Sync}
use macac_os.Pipes.{Pipes, on_sync}
use macac_os.Pipes.Transfer.{Progress, finished, suspended, write_pipe, read_pipe}

-- The parts of the kernel. The clock of the machine shows `hours`, `mins` and `seconds`, and its
-- speaker gets the divisor `speaker`, 0 while it is off. `info` are the registers of the last
-- screenshot, where one was taken.
pub record System : Type 0 where
  pub pipes : Pipes
  pub keyboard : Keyboard
  pub console : Console
  pub ticks : ℕ
  pub hours : ℕ
  pub mins : ℕ
  pub seconds : ℕ
  pub speaker : ℕ
  pub screenshot : ℕ
  pub info : List ℕ

abbrev pub on_pipes : {A : Type 0} → Cmd Pipes A → Cmd System A
on_pipes = zoom (λ s. s.pipes) (λ p s. record s { pipes = p })

abbrev pub on_keyboard : {A : Type 0} → Cmd Keyboard A → Cmd System A
on_keyboard = zoom (λ s. s.keyboard) (λ k s. record s { keyboard = k })

abbrev pub on_kernel : {A : Type 0} → Cmd Kernel A → Cmd System A
on_kernel m = on_pipes (on_sync (macac_os.Semaphore.on_kernel m))

abbrev pub on_processes : {A : Type 0} → Cmd Scheduler A → Cmd System A
on_processes m = on_kernel (on_table m)

abbrev pub on_console : (Console → Console) → Cmd System (Unit {0})
on_console f = modify (λ s. record s { console = f s.console })

-- How a call ends: with the value of its handler, if it has one, and the stack pointer behind it, or
-- inside a transfer that waits.
pub data Answer : Type 0 where
  answer : Option ℕ → ℕ → Answer
  waits : ℕ → Answer

-- The `n` bytes from `p` on, and a write of bytes there.
unfoldable pub read_run : ℕ → ℕ → Bytes → List ℕ
read_run zero p m = []
read_run (suc n) p m = m p ∷ read_run n (p + 1) m

unfoldable pub write_run : List ℕ → ℕ → Bytes → Bytes
write_run [] p m = m
write_run (c ∷ cs) p m = write_run cs (p + 1) (put_byte p c m)

abbrev pub store_run : List ℕ → ℕ → Cmd System (Unit {0})
store_run cs p = on_console (λ (c : Console). record c { memory = write_run cs p c.memory })

-- The bytes of an unsigned integer of `n` bytes, the lowest first.
unfoldable pub little_endian : ℕ → ℕ → List ℕ
little_endian zero v = []
little_endian (suc n) v = v % 2 ^ 8 ∷ little_endian n (v / 2 ^ 8)

abbrev pub stdin : ℕ
stdin = 0

abbrev pub stdout : ℕ
stdout = 1

abbrev pub background : ℕ
background = 4

-- The loop of `sys_write_handler` over the bytes of the buffer.
unfoldable pub print_bytes : (ℕ → ℕ) → List ℕ → Console → Console
print_bytes font [] s = s
print_bytes font (c ∷ cs) s = print_bytes font cs (ngc_print_char font c s)

-- How a transfer through a pipe ends, as an answer with the value `v` of what it returns.
abbrev pub of_progress : ℕ → Progress → Answer
of_progress rsp (finished n) = answer (some n) rsp
of_progress rsp (suspended rsp') = waits rsp'

-- The first argument is overwritten. `bytes` is the `unsigned int` of a pipe.
unfoldable pub sys_write_handler : (ℕ → ℕ) → ℕ → ℕ → ℕ → ℕ → Cmd System Answer
unfolding print_bytes read_run
sys_write_handler font rsp ss buffer bytes = do
  p ← on_processes current_process
  s ← get_state
  if p.output == stdout
      then (do
        on_console (print_bytes font (read_run bytes buffer s.console.memory))
        pure (answer none rsp))
      else if p.output == background
      then pure (answer none rsp)
      else (do
        r ←
            on_pipes
              (write_pipe rsp ss p.output (read_run (bytes % 2 ^ 32) buffer s.console.memory))
        elim r [
          | none ↦ pure (answer none rsp)
          | some q ↦ elim q [
            | finished n ↦ pure (answer none rsp)
            | suspended rsp' ↦ pure (waits rsp')
          ]
        ])

-- The loop of `sys_read_handler` for the bytes that are left. A `char` is signed, and compared as an
-- `int`.
unfoldable pub read_chars : ℕ → Cmd Keyboard (List ℕ)
read_chars zero = pure []
read_chars (suc left) = do
  c ← get_first_char
  if eq_ℤ (signed8 c) (pos 0xFF) then pure [] else (do rest ← read_chars left; pure (c ∷ rest))

-- The value of `read_pipe` is -1, as an `int`, for an id that no pipe has.
unfoldable pub sys_read_handler : ℕ → ℕ → ℕ → ℕ → Cmd System Answer
unfolding read_chars
sys_read_handler rsp ss buffer bytes = do
  p ← on_processes current_process
  if p.input == stdin || p.input == background
      then (do
        cs ← on_keyboard (read_chars bytes)
        store_run cs buffer
        pure (answer (some (length cs)) rsp))
      else (do
        r ← on_pipes (read_pipe rsp ss p.input (bytes % 2 ^ 32))
        elim r [
          | none ↦ pure (answer (some (2 ^ 64 - 1)) rsp)
          | some q ↦ (do store_run q.0 buffer; pure (of_progress rsp q.1))
        ])

-- Values of three bytes.
unfoldable pub sys_time_handler : System → ℕ
sys_time_handler s = s.hours + s.mins * 2 ^ 8 + s.seconds * 2 ^ 16

unfoldable pub sys_inforeg_handler : ℕ → Cmd System ℕ
unfolding little_endian
sys_inforeg_handler reg_vec s =
    (if s.screenshot == 0
        then pure s.screenshot
        else (do store_words s.info reg_vec; pure s.screenshot))
      s
  where
    store_words : List ℕ → ℕ → Cmd System (Unit {0})
    store_words [] p = pure tt
    store_words (w ∷ ws) p = do store_run (little_endian 8 w) p; store_words ws (p + 8)

unfoldable pub sys_screen_data_handler : ℕ → Cmd System (Unit {0})
unfolding little_endian
sys_screen_data_handler data_at = do
  s ← get_state
  store_run (little_endian 2 s.console.width) data_at
  store_run (little_endian 2 s.console.height) (data_at + 2)

-- `beep` divides by the frequency, and `_beep_start` gets the quotient.
unfoldable pub beep : ℕ → Cmd System (Unit {0})
beep n_frequency =
    if n_frequency == 0
    then (λ s. fault)
    else modify (λ s. record s { speaker = 1193180 / n_frequency })

unfoldable pub stop_beep : Cmd System (Unit {0})
stop_beep = modify (λ s. record s { speaker = 0 })

-- The loop of `wait` counts in an `int`, which has to reach `interval`.
unfoldable pub wait : ℕ → Cmd System (Unit {0})
wait interval = if ltb interval (2 ^ 31) then pure tt else (λ s. fault)

unfoldable pub sys_beeper_handler : ℕ → ℕ → Cmd System (Unit {0})
unfolding beep wait stop_beep
sys_beeper_handler frequency interval = do beep frequency; wait interval; stop_beep

unfoldable pub sys_get_mem_info : ℕ → Cmd System (Unit {0})
unfolding little_endian
sys_get_mem_info buffer = do
  s ← get_state
  let info = s.pipes.sync.kernel.memory.mem_info
  store_run (little_endian 8 ((info.allocated_bytes + info.free_bytes) % 2 ^ 64)) buffer
  store_run (little_endian 8 info.allocated_bytes) (buffer + 8)
  store_run (little_endian 8 info.free_bytes) (buffer + 2 * 8)
  store_run (little_endian 8 info.allocated_blocks) (buffer + 3 * 8)

-- A `process_info` at its address. The name of a process without parameters is not written.
unfoldable pub store_process_info : ProcessInfo → ℕ → Cmd System (Unit {0})
unfolding little_endian
store_process_info i p = do
  elim i.name [ none ↦ pure tt | some name ↦ store_run (little_endian 8 name) p ]
  store_run (little_endian 4 i.pid ++ i.priority ∷ i.state ∷ []) (p + 8)
  store_run (little_endian 8 i.stack_start) (p + 16)
  store_run (little_endian 8 i.stack_end) (p + 24)
  store_run (little_endian 8 i.stack_pointer ++ i.output ∷ []) (p + 32)
  store_run (little_endian 4 i.assigned_ticks) (p + 44)

-- `sizeof(process_info)`
abbrev pub process_info_size : ℕ
process_info_size = 48

unfoldable pub store_processes : List ProcessInfo → ℕ → Cmd System (Unit {0})
unfolding store_process_info
store_processes [] p = pure tt
store_processes (i ∷ is) p = do store_process_info i p; store_processes is (p + process_info_size)

unfoldable pub sys_get_all_processes : ℕ → Cmd System ℕ
unfolding store_processes
sys_get_all_processes processes = do
  s ← get_state
  let listed = get_all_processes s.pipes.sync.kernel
  store_processes listed processes
  pure (length listed % 2 ^ 8)
