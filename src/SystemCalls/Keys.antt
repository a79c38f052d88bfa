-- ===== src/SystemCalls/Keys.antt =====
-- Reading from the keyboard by a system call.
use macac_os.Base.{
  ℕ, zero, suc, ◌≡◌, refl, ap, ◌∙◌, true, false, ◌||◌, ◌==◌, if-true, if-false, some, List, [], ◌∷◌,
  length, returns, Cmd, arith,
}
use macac_os.Base.Int.{pos, eq_ℤ, signed8}
use macac_os.Kernel.Lift.{next-step, zoom-returns}
use macac_os.Scheduler.{Process}
use macac_os.Queue.Refine.{fifo_tail}
use macac_os.Keyboard.{Keyboard}
use macac_os.Keyboard.Buffer.{IsRing, typed, first_or, get_first_char-first}
use macac_os.SystemCalls.Dispatch.{syscalls, syscall_dispatcher}
use macac_os.SystemCalls.Turn.{table_of, HasTurn, current_process-returns}
use macac_os.SystemCalls.{
  System, Answer, answer, on_keyboard, read_chars, write_run, sys_read_handler, stdin, background,
}

-- The characters that a process reads, with 0xFF for each that was not typed, and what is left.
abbrev pub first_chars : ℕ → List ℕ → List ℕ
first_chars zero cs = []
first_chars (suc n) cs = first_or 0xFF cs ∷ first_chars n (fifo_tail cs)

abbrev pub left_over : ℕ → List ℕ → List ℕ
left_over zero cs = cs
left_over (suc n) cs = left_over n (fifo_tail cs)

length-first_chars : (n : ℕ) (cs : List ℕ) → length (first_chars n cs) ≡ n
length-first_chars zero cs = refl
length-first_chars (suc n) cs = ap suc (length-first_chars n (fifo_tail cs))

-- No `char` is 0xFF.
never_end : (c : ℕ) → eq_ℤ (signed8 c) (pos 0xFF) ≡ false
never_end c = ground arith

read_chars-typed :
    (n : ℕ) (k : Keyboard)
    → IsRing k
    → (k' : Keyboard) × (read_chars n k ≡ returns (first_chars n (typed k)) k')
      × IsRing k'
      × (typed k' ≡ left_over n (typed k))
unfolding read_chars
read_chars-typed zero k v = (k, refl, v, refl)
read_chars-typed (suc n) k v =
    let (k₁, one, v₁, rest₁) = get_first_char-first k v in
    let (k₂, more, v₂, rest₂) = read_chars-typed n k₁ v₁ in
    let c = first_or 0xFF (typed k) in
    (
      k₂,
      next-step _ one (
          ap (λ (m : Cmd Keyboard (List ℕ)). m k₁)
            (if-false (eq_ℤ (signed8 c) (pos 0xFF)) _ _ (never_end c))
          ∙ next-step _ more (ap (λ cs. returns (c ∷ first_chars n cs) k₂) rest₁)),
      v₂,
      rest₂ ∙ ap (left_over n) rest₁,
    )

sys_read_handler-typed :
    (rsp ss buffer bytes : ℕ) (s : System) (p : Process)
    → IsRing s.keyboard
    → HasTurn p (table_of s)
    → (p.input == stdin || p.input == background) ≡ true
    → (k : Keyboard) × (sys_read_handler rsp ss buffer bytes s
        ≡ returns (answer (some bytes) rsp) (record s {
          keyboard = k;
          console = record (s.console) {
            memory = write_run (first_chars bytes (typed s.keyboard)) buffer s.console.memory;
          };
        }))
      × IsRing k
      × (typed k ≡ left_over bytes (typed s.keyboard))
unfolding sys_read_handler
sys_read_handler-typed rsp ss buffer bytes s p v turn keys =
    let (k, chars, v', rest) = read_chars-typed bytes s.keyboard v in
    let s₁ : System = record s { keyboard = k } in
    let through : on_keyboard (read_chars bytes) s
        ≡ returns (first_chars bytes (typed s.keyboard)) s₁ =
      zoom-returns (λ (s : System). s.keyboard) (λ k s. record s { keyboard = k })
        (read_chars bytes) s chars in
    (
      k,
      next-step _ (current_process-returns s p turn) (
          ap (λ (m : Cmd System Answer). m s)
            (if-true (p.input == stdin || p.input == background) _ _ keys)
          ∙ next-step _ through (
              ap
                (λ n. returns (answer (some n) rsp) (record s₁ {
                  console = record (s.console) {
                    memory =
                        write_run (first_chars bytes (typed s.keyboard)) buffer s.console.memory;
                  };
                }))
                (length-first_chars bytes (typed s.keyboard)))),
      v',
      rest,
    )

-- With a valid keyboard buffer, the read call of a process whose input is the keyboard, or that
-- runs in the background, always returns the number of bytes asked for. It stores the typed
-- characters in their order, and 0xFF for each that was not typed, and takes them from the
-- keyboard, whose buffer stays valid.
pub syscall_dispatcher-typed :
    (font : ℕ → ℕ) (end_process rsp ss buffer bytes : ℕ) (s : System) (p : Process)
    → IsRing s.keyboard
    → HasTurn p (table_of s)
    → (p.input == stdin || p.input == background) ≡ true
    → (k : Keyboard) × (syscall_dispatcher font end_process rsp ss stdin buffer bytes 0 0 0 s
        ≡ returns (answer (some bytes) rsp) (record s {
          keyboard = k;
          console = record (s.console) {
            memory = write_run (first_chars bytes (typed s.keyboard)) buffer s.console.memory;
          };
        }))
      × IsRing k
      × (typed k ≡ left_over bytes (typed s.keyboard))
unfolding syscall_dispatcher syscalls
syscall_dispatcher-typed font end_process rsp ss buffer bytes s p v turn keys =
    sys_read_handler-typed rsp ss buffer bytes s p v turn keys
