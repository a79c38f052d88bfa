-- ===== src/SystemCalls/Tests.antt =====
-- Runs of system calls: a process that reads the keyboard and writes to a pipe, and one that reads the
-- pipe.
use macac_os.Base.{ℕ, ◌≡◌, refl, false, some, none, [], ◌∷◌, arith, returns, fault, replicate, set}
use macac_os.KernelLib.{Bytes}
use macac_os.Scheduler.{Process, Scheduler, ready}
use macac_os.Kernel.Start.{blank_process}
use macac_os.Keyboard.{Keyboard}
use macac_os.Keyboard.Buffer.{IsRing, typed}
use macac_os.Pipes.{Pipe}
use macac_os.Pipes.Refine.{IsPipe, content}
use macac_os.Pipes.Samples.{drained, drained_pipes, drained-IsPipe}
use macac_os.Print.Clock.{do_get_time, do_get_time-digits}
use macac_os.SystemCalls.{System, answer, read_run, write_run, sys_time_handler}
use macac_os.SystemCalls.Dispatch.{syscalls, syscall_dispatcher}
use macac_os.SystemCalls.Keys.{syscall_dispatcher-typed}
use macac_os.SystemCalls.Listed.{SameOutside, syscall_dispatcher-Listed}
use macac_os.SystemCalls.Through.{
  with_table, pipes_with, IsPipe-pipes_with, syscall_dispatcher-piped,
}

abbrev process : ℕ → ℕ → ℕ → Process
process pid input output = record blank_process {
  pid = pid;
  state = ready;
  input = input;
  output = output;
}

-- Process `current` has the turn.
abbrev table : ℕ → Scheduler
table current = record {
  process_list = process 0 0 10 ∷ process 1 10 1 ∷ replicate 98 blank_process;
  pid_value = 2;
  dim = 2;
  current_process_idx = current;
  idle_pid = 1;
}

abbrev keyboard : Keyboard
keyboard = record {
  buffer = set (replicate 1024 0) 1023 97;
  q_elements = 1;
  read_index = 1023;
  write_index = 1024;
  ctrl_pressed = false;
}

abbrev system : System
system = record {
  pipes = pipes_with (table 0) drained_pipes;
  keyboard = keyboard;
  console = record {
    level = 1;
    pen_x = 0;
    pen_y = 0;
    last_pen_x = 0;
    pen_color = record { b = 0x7F; g = 0x7F; r = 0x7F };
    width = 1024;
    height = 768;
    frame_buffer = 0xFD000000;
    memory = λ a. a;
  };
  ticks = 7;
  hours = 0x23;
  mins = 0x59;
  seconds = 1;
  speaker = 0;
  screenshot = 0;
  info = replicate 17 0;
}

syscall_dispatcher-piped_example :
    (s' : System) × (s'' : System) × (p'' : Pipe) × (syscall_dispatcher
        (λ a. 0)
        0
        64
        8
        1
        100
        3
        0
        0
        1
        system
      ≡ returns (answer none 64) s')
    × (syscall_dispatcher (λ a. 0) 0 32 8 0 200 3 0 0 0 (with_table (table 1) s')
        ≡ returns (answer (some 3) 32) s'')
    × (s''.console.memory ≡ write_run (read_run 3 100 (λ a. a)) 200 (λ a. a))
    × IsPipe 10 0 p'' s''.pipes
    × (content p'' ≡ [])
syscall_dispatcher-piped_example =
    syscall_dispatcher-piped 10 0 (λ a. 0) 0 64 8 32 8 100 200 3 drained system (process 0 0 10)
      (process 1 10 1) (table 1)
      (IsPipe-pipes_with (table 0) 10 0 drained drained_pipes drained-IsPipe) refl (omega arith)
      refl refl refl refl (omega arith) (omega arith) (omega arith)

keyboard-IsRing : IsRing keyboard
keyboard-IsRing = record {
  storage = refl;
  read_in = omega arith;
  few = omega arith;
  write_in = omega arith;
  write_behind = refl;
}

-- Two characters are asked for, and one is typed.
syscall_dispatcher-typed_example :
    (k : Keyboard) × (syscall_dispatcher (λ a. 0) 0 64 8 0 200 2 0 0 0 system
      ≡ returns (answer (some 2) 64) (record system {
        keyboard = k;
        console = record (system.console) { memory = write_run (97 ∷ 0xFF ∷ []) 200 (λ a. a) };
      }))
    × IsRing k
    × (typed k ≡ [])
syscall_dispatcher-typed_example =
    syscall_dispatcher-typed (λ a. 0) 0 64 8 200 2 system (process 0 0 10) keyboard-IsRing refl refl

syscall_dispatcher-Listed_example :
    (after : Bytes) × (syscall_dispatcher (λ a. 0) 0 64 8 0x500 0 0 0 0 22 system
      ≡ returns
          (answer (some 2) 64)
          (record system { console = record (system.console) { memory = after } }))
    × SameOutside 0x500 96 (λ a. a) after
syscall_dispatcher-Listed_example =
    syscall_dispatcher-Listed (λ a. 0) 0 64 8 0x500 system (record { slots = refl; counts = refl })

-- A number behind the table.
unknown_call : syscall_dispatcher (λ a. 0) 0 64 8 0 0 0 0 0 37 system ≡ fault
unfolding syscall_dispatcher syscalls
unknown_call = refl

do_get_time-digits_example :
    read_run 9 200 (do_get_time (sys_time_handler system) 200 (λ a. a))
    ≡ 0x32 ∷ 0x33 ∷ 0x3A ∷ 0x35 ∷ 0x39 ∷ 0x3A ∷ 0x30 ∷ 0x31 ∷ 0 ∷ []
do_get_time-digits_example =
    do_get_time-digits system 200 (λ a. a) (omega arith, omega arith) (omega arith, omega arith)
      (omega arith, omega arith)
