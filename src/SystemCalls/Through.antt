-- ===== src/SystemCalls/Through.antt =====
-- A pipe between two processes, by system calls: one has it as its output, the other as its input.
use macac_os.Base.{
  ℕ, zero, suc, ◌+◌, ◌-◌, ◌%◌, ◌^◌, ◌≤◌, ◌≡◌, ◌≢◌, refl, sym, ap, ◌∙◌, false, ◌||◌, ◌==◌, ==_of_ne,
  if-false, none, some, List, [], ◌++◌, length, returns, Cmd, arith,
}
use macac_os.Kernel.Lift.{next-step, zoom-returns}
use macac_os.Scheduler.{Process, Scheduler}
use macac_os.Semaphore.{Semaphore, Sync, find_sem}
use macac_os.Semaphore.Slots.{OpenAt}
use macac_os.Pipes.{Pipe, Pipes, pipe_size, find_pipe}
use macac_os.Pipes.Counts.{Counts}
use macac_os.Pipes.Refine.{content, IsPipe, write_pipe-append}
use macac_os.Pipes.Take.{take, drop, content-none, read_pipe-take}
use macac_os.Pipes.RoundTrip.{take_all, drop_all}
use macac_os.Pipes.Transfer.{finished, write_pipe, read_pipe}
use macac_os.SystemCalls.Dispatch.{syscalls, syscall_dispatcher}
use macac_os.SystemCalls.Turn.{table_of, HasTurn, current_process-returns}
use macac_os.SystemCalls.{
  System, Answer, answer, on_pipes, read_run, write_run, stdin, stdout, background,
  sys_write_handler, sys_read_handler,
}

-- Another process table.
abbrev pub with_scheduler : Scheduler → Sync → Sync
with_scheduler t s = record s {
  kernel = record (s.kernel) { family = record (s.kernel.family) { scheduler = t } };
}

abbrev pub pipes_with : Scheduler → Pipes → Pipes
pipes_with t s = record s { sync = with_scheduler t s.sync }

abbrev pub with_table : Scheduler → System → System
with_table t s = record s { pipes = pipes_with t s.pipes }

module _ (t : Scheduler) where
  OpenAt-with_scheduler :
      (id slot : ℕ) (sem : Semaphore) (s : Sync)
      → OpenAt id slot sem s
      → OpenAt id slot sem (with_scheduler t s)
  unfolding find_sem
  OpenAt-with_scheduler id slot sem s o = record {
    nonempty = o.nonempty;
    found = o.found;
    in_slot = o.in_slot;
    in_table = o.in_table;
    unlocked = o.unlocked;
  }

  Counts-with_scheduler :
      (id id' n n' : ℕ) (s : Sync) → Counts id id' n n' s → Counts id id' n n' (with_scheduler t s)
  Counts-with_scheduler id id' n n' s c = record {
    slot = c.slot;
    slot' = c.slot';
    sem = c.sem;
    sem' = c.sem';
    opened = OpenAt-with_scheduler id c.slot c.sem s c.opened;
    opened' = OpenAt-with_scheduler id' c.slot' c.sem' s c.opened';
    counts = c.counts;
    counts' = c.counts';
    apart = c.apart;
    nobody = c.nobody;
  }

  -- A pipe does not depend on which processes there are.
  pub IsPipe-pipes_with :
      (id slot : ℕ) (p : Pipe) (s : Pipes) → IsPipe id slot p s → IsPipe id slot p (pipes_with t s)
  unfolding find_pipe
  IsPipe-pipes_with id slot p s v = record {
    found = v.found;
    in_slot = v.in_slot;
    storage = v.storage;
    read_in = v.read_in;
    held = v.held;
    write_behind = v.write_behind;
    counted =
        Counts-with_scheduler p.write_sem_id p.read_sem_id (pipe_size - p.current_pipe_size)
          p.current_pipe_size s.sync v.counted;
  }

length-read_run : (n p : ℕ) (m : ℕ → ℕ) → length (read_run n p m) ≡ n
unfolding read_run
length-read_run zero p m = refl
length-read_run (suc n) p m = ap suc (length-read_run n (p + 1) m)

abbrev pub stored_at : List ℕ → ℕ → System → System
stored_at cs p s = record s {
  console = record (s.console) { memory = write_run cs p s.console.memory };
}

on_pipes-returns :
    {A : Type 0} (m : Cmd Pipes A) (s : System) {a : A} {t : Pipes}
    → m s.pipes ≡ returns a t
    → on_pipes m s ≡ returns a (record s { pipes = t })
on_pipes-returns m s e =
    zoom-returns (λ (s : System). s.pipes) (λ (t : Pipes) s. record s { pipes = t }) m s e

module _ (id slot : ℕ) where
  -- A process whose output is an open pipe writes to it.
  sys_write_handler-piped :
      (font : ℕ → ℕ) (rsp ss buffer n : ℕ) (p : Pipe) (s : System) (a : Process)
      → IsPipe id slot p s.pipes
      → p.current_pipe_size + n ≤ pipe_size
      → HasTurn a (table_of s)
      → a.output ≡ id
      → id ≢ stdout
      → id ≢ background
      → (t : Pipes) × (p' : Pipe) × (sys_write_handler font rsp ss buffer n s
          ≡ returns (answer none rsp) (record s { pipes = t }))
        × IsPipe id slot p' t
        × (content p' ≡ content p ++ read_run n buffer s.console.memory)
  unfolding sys_write_handler
  sys_write_handler-piped font rsp ss buffer n p s a v room turn out ne ne' =
      let bytes = read_run n buffer s.console.memory in
      let len : length bytes ≡ n = length-read_run n buffer s.console.memory in
      let (t, p', done, v', holds) =
        write_pipe-append rsp ss id slot bytes p s.pipes v (omega (arith, room, len)) in
      let small : n % 2 ^ 32 ≡ n = omega (arith, room) in
      let same : write_pipe rsp ss a.output (read_run (n % 2 ^ 32) buffer s.console.memory) s.pipes
          ≡ returns (some (finished (length bytes))) t =
        ap (λ i. write_pipe rsp ss i (read_run (n % 2 ^ 32) buffer s.console.memory) s.pipes) out
        ∙ ap (λ i. write_pipe rsp ss id (read_run i buffer s.console.memory) s.pipes) small
        ∙ done in
      (
        t,
        p',
        next-step _ (current_process-returns s a turn) (
            ap (λ (m : Cmd System Answer). m s)
              (if-false (a.output == stdout) _ _ (==_of_ne a.output stdout (λ e. ne (sym out ∙ e))))
            ∙ ap (λ (m : Cmd System Answer). m s)
                (if-false (a.output == background) _ _
                  (==_of_ne a.output background (λ e. ne' (sym out ∙ e))))
            ∙ next-step _
                (on_pipes-returns
                  (write_pipe rsp ss a.output (read_run (n % 2 ^ 32) buffer s.console.memory)) s
                  same)
                refl),
        v',
        holds,
      )

  -- A process whose input is an open pipe reads what it holds.
  sys_read_handler-piped :
      (rsp ss buffer n : ℕ) (p : Pipe) (s : System) (b : Process) (bytes : List ℕ)
      → IsPipe id slot p s.pipes
      → n ≤ pipe_size
      → content p ≡ bytes
      → length bytes ≡ n
      → HasTurn b (table_of s)
      → b.input ≡ id
      → id ≢ stdin
      → id ≢ background
      → (t : Pipes) × (p' : Pipe) × (sys_read_handler rsp ss buffer n s
          ≡ returns (answer (some n) rsp) (stored_at bytes buffer (record s { pipes = t })))
        × IsPipe id slot p' t
        × (content p' ≡ [])
  unfolding sys_read_handler
  sys_read_handler-piped rsp ss buffer n p s b bytes v fits held len turn input ne ne' =
      let (t, p', read, v', rest) = read_pipe-take rsp ss id slot n p s.pipes v in
      let all : take n (content p) ≡ bytes =
        ap (take n) held ∙ ap (λ i. take i bytes) (sym len) ∙ take_all bytes in
      let small : n % 2 ^ 32 ≡ n = omega (arith, fits) in
      let same : read_pipe rsp ss b.input (n % 2 ^ 32) s.pipes
          ≡ returns (some (bytes, finished n)) t =
        ap (λ i. read_pipe rsp ss i (n % 2 ^ 32) s.pipes) input
        ∙ ap (λ i. read_pipe rsp ss id i s.pipes) small
        ∙ read
        ∙ ap (λ l. returns (some (l, finished (length l))) t) all
        ∙ ap (λ i. returns (some (bytes, finished i)) t) len in
      let off : (b.input == stdin || b.input == background) ≡ false =
        ap (λ i. i == stdin || i == background) input
        ∙ ground (arith, ==_of_ne id stdin ne, ==_of_ne id background ne') in
      (
        t,
        p',
        next-step _ (current_process-returns s b turn) (
            ap (λ (m : Cmd System Answer). m s)
              (if-false (b.input == stdin || b.input == background) _ _ off)
            ∙ next-step _ (on_pipes-returns (read_pipe rsp ss b.input (n % 2 ^ 32)) s same) refl),
        v',
        rest ∙ ap (drop n) held ∙ ap (λ i. drop i bytes) (sym len) ∙ drop_all bytes,
      )

  -- Where a process writes at most 1024 bytes by the write call, its output being an open and empty
  -- pipe, while no process waits for any semaphore, and then, whatever the process table has
  -- become, a process with the turn whose input is that pipe reads as many by the read call, both
  -- calls go through without blocking, the bytes of the buffer written from are in the buffer read
  -- into, and the pipe is open and empty again.
  pub syscall_dispatcher-piped :
      (font : ℕ → ℕ) (end_process rsp ss rsp' ss' src dst n : ℕ) (p : Pipe) (s : System)
      (a b : Process) (table : Scheduler)
      → IsPipe id slot p s.pipes
      → p.current_pipe_size ≡ 0
      → n ≤ pipe_size
      → HasTurn a (table_of s)
      → a.output ≡ id
      → HasTurn b table
      → b.input ≡ id
      → id ≢ stdin
      → id ≢ stdout
      → id ≢ background
      → (s' : System) × (s'' : System) × (p'' : Pipe) × (syscall_dispatcher font end_process rsp ss
            stdout src n 0 0 1 s
          ≡ returns (answer none rsp) s')
        × (syscall_dispatcher font end_process rsp' ss' stdin dst n 0 0 0 (with_table table s')
            ≡ returns (answer (some n) rsp') s'')
        × (s''.console.memory ≡ write_run (read_run n src s.console.memory) dst s.console.memory)
        × IsPipe id slot p'' s''.pipes
        × (content p'' ≡ [])
  unfolding syscall_dispatcher syscalls
  syscall_dispatcher-piped font end_process rsp ss rsp' ss' src dst n p s a b table v none_held fits
        turn out turn' input ne₀ ne₁ ne₄ =
      let bytes = read_run n src s.console.memory in
      let (t, p', wrote, v', holds) =
        sys_write_handler-piped font rsp ss src n p s a v (omega (arith, fits, none_held)) turn out
          ne₁ ne₄ in
      let s' : System = record s { pipes = t } in
      let (t', p'', read, v'', rest) =
        sys_read_handler-piped rsp' ss' dst n p' (with_table table s') b bytes
          (IsPipe-pipes_with table id slot p' t v') fits
          (holds ∙ ap (λ l. l ++ bytes) (content-none p none_held))
          (length-read_run n src s.console.memory) turn' input ne₀ ne₄ in
      (s', stored_at bytes dst (record s { pipes = t' }), p'', wrote, read, refl, v'', rest)
