-- ===== src/Lib.antt =====
-- Verification of the kernel of MACAC-OS.
--
-- Parts and files. Each parent file holds the state and the operations of a source file, its
-- child modules what is proved of them, and `Tests` runs them on concrete states.
--
-- - Base: names, list and number helpers shared by all parts, and `Outcome` (Base/Effects): C code
--   that changes state is a function from the state before to `returns` with a result and the state
--   behind, `fault` where the C code would read or write outside an array or divide by zero, or
--   `hang` where a bounded loop ran out of rounds. Base/Int has the signed numbers that C's integer
--   promotions yield.
-- - Queue, for Kernel/utils/queue.c: the ring buffer of process ids. `elements` is the block that
--   the pointer `elements` points to, and every access is checked against it. `create_queue` takes
--   the block that `memory_alloc` returned as an argument.
-- - Memory, for Kernel/memory_manager.c: the heap. Memory is seen as the header stored at each
--   address, which is all that the allocator reads and writes; pointers are addresses and wrap at
--   2 ^ 64. The search of `find_free_block` runs on fuel, as many rounds as the heap has bytes: a
--   block has at least 18 bytes, so a chain inside the heap ends earlier.
-- - Scheduler, for Kernel/scheduler.c: the process table, lookups, priorities, ticks and the
--   context switch `next_process`. `get_process_idx` keeps the `uint8_t` it returns, and the
--   comparisons with NO_PROCESS_FOUND are those of the promoted value. `force_timer_tick` is the
--   decision that the timer interrupt of Kernel/asm/interrupts.asm takes; it receives the stack
--   pointer and segment of the interrupted process and returns the new stack pointer.
-- - Children, for Kernel/child_processes.c: the table of children beside the process table. The
--   functions that it calls in scheduler.c are those of Scheduler.
-- - Kernel, for the rest of Kernel/scheduler.c and `create_child_process`: processes are created
--   and destroyed over the process table, the table of children, the heap and the other words of
--   the memory together. Words are read and written at 8-byte addresses and lie apart from block
--   headers. Kernel/End has the functions that end processes. `free_params` runs on fuel, as many
--   rounds as the heap has bytes, more than an array of pointers in the heap has entries.
-- - Keyboard, for Kernel/keyboard.c: the buffer of typed characters and the state of Ctrl. The
--   handler works on the keyboard and the kernel together, as Ctrl-C kills processes.
-- - Strings, for Userland/SampleCodeModule/string_util.c: text is the list of bytes from a pointer
--   on, and `none` a read behind them. The count of digits of `itoa` runs on ten rounds, the digits
--   of the largest `int`.
--
-- - Semaphore, for Kernel/utils/semaphore.c and lock.c: the table of semaphores, on the queue, the
--   scheduler and the heap. `waiters` is a pointer that nothing sets, so one queue at address 0 is
--   shared by all of them. A call of `wait_sem` that blocks ends in `switched`, with the new stack
--   pointer. `find_free_sem` runs on 31 rounds, one more than there are semaphores whose ids it may
--   have to pass; the loop of `lock` never ends on a lock that is taken.
-- - Pipes, for Kernel/utils/pipes.c: the table of pipes, on the semaphores and the heap. The loops of
--   `write_pipe` and `read_pipe` end with a number of bytes, or `suspended` in a `wait_sem`.
-- - KernelLib, for Kernel/lib.c and string.c: routines on the bytes of the memory.
-- - Boot, for Kernel/idt_loader.c, module_loader.c, time.c and irq_dispatcher.c, with
--   Boot/Exceptions for Kernel/exceptionsDispatcher.c. The handlers in Kernel/asm/interrupts.asm are
--   addresses that `load_idt` is given; the masks of the interrupt controllers and the interrupt
--   flag are fields of the state.
-- - Console, for Kernel/naive_graphics_console.c: the pen, and the pixels as bytes of the memory. The
--   array of Kernel/include/font.h is an argument of the functions that draw with it.
--
-- - Philo, for Userland/SampleCodeModule/phylo.c: the arrays of the dining philosophers, and sequences
--   of critical sections as a relation between states. The waits for `MUTEX`, `s[i]` and `safe[i]` are
--   not modelled.
-- - Shell, for Userland/SampleCodeModule/shell.c: lines, parameters, commands, and which processes a
--   line starts. The loop over the parameters has as much fuel as the buffer has bytes left, and each
--   round goes at least one byte on. Shell/Edit is `buffer_action` of inout.c there.
--   Shell/Arguments is `prepare_parameters`, on the heap of Memory, and one round of the loop of
--   `shell`; the pointers are words of the Kernel and the texts bytes.
-- - Tron, for Userland/SampleCodeModule/tron.c: the players, the board as a function into Booleans
--   with its bounds tested, and `play`, the rounds of `play_tron` for the characters that are read.
--   What the game paints and the wait for the next tick are left out.
-- - Print, for `printf` and `print_to_fd` of Userland/SampleCodeModule/inout.c: the bytes written for
--   a format and its arguments; the descriptor is left out. A missing argument, one of another type
--   and a read behind the format are `none`. Print/Clock is `do_get_time`, on the bytes of the memory.
-- - SystemCalls, for Kernel/syscall_handler.c and speaker.c: the state of all parts of the kernel
--   together, the handlers, and the table of calls (SystemCalls/Dispatch). Buffers of processes are
--   bytes of the memory of Console. Kernel/Listing and Kernel/Start have `get_all_processes`,
--   `scheduler_init` and `main` of Kernel/kernel.c.
-- - Commands, for Userland/SampleCodeModule/commands.c: the commands on text, with the keys that are
--   read and what a local array holds before as arguments.
--
-- The parts interact as the files do: Children calls Scheduler by `on_scheduler`, Kernel calls Children,
-- Scheduler and Memory by `on_family`, `on_table` and `free`, and Queue is given
-- the block that Memory serves. Semaphore calls Queue, Scheduler and Memory by `on_waiters`,
-- `on_processes` and `on_kernel`, Pipes calls Semaphore by `on_sync`, and Console and Boot use the
-- copies of KernelLib. SystemCalls calls them by `on_pipes`, `on_keyboard`, `on_processes` and
-- `on_console`.
--
-- Bounds. A table has 100 slots and a queue at most 2 ^ 31, so the 32-bit sums of queue.c do not
-- wrap. Loops over arrays are recursions on the list that holds the array.
--
-- Not modelled: the other drivers, what the commands print besides, the test programs, the boot loader,
-- the build tools, and the buddy allocator, which is not built and calls functions that no file
-- declares. Interrupts between two C statements are not modelled either: each function runs to its
-- end, as the kernel does with interrupts off.
pub mod Base
pub mod Queue
pub mod Memory
pub mod Scheduler
pub mod Children
pub mod Kernel
pub mod Keyboard
pub mod Strings
pub mod Semaphore
pub mod Pipes
pub mod KernelLib
pub mod Boot
pub mod Console
pub mod Philo
pub mod Shell
pub mod Tron
pub mod Print
pub mod SystemCalls
pub mod Commands
