-- ===== src/Kernel/Frame.antt =====
-- The stack that `build_stack` prepares, as the interrupt return finds it.
use macac_os.Base.{
  ℕ, zero, suc, ◌+◌, ◌-◌, ◌*◌, ◌%◌, ◌^◌, ◌<◌, ◌≤◌, ◌≡◌, ◌≢◌, ◌⊎◌, refl, ◌∙◌, ◌==◌, if◌then◌else◌,
  arith, ltb, Bool-cases, inl, inr, ne_of_==,
}
use macac_os.Memory.{sub64}
use macac_os.Kernel.{put_word, clear_registers, stack_words, build_stack, stack_size}

-- The loop changes no word but the ones from the `i`th to before the `i + left`th below the start,
-- less the twelfth.
clear_registers-else :
    (left i a start : ℕ) (w : ℕ → ℕ)
    → 8 * (i + left) ≤ start
    → start < 2 ^ 64
    → ((j : ℕ) → i ≤ j → j < i + left → j ≢ 12 → a ≢ start - 8 * j)
    → clear_registers left i start w a ≡ w a
unfolding clear_registers
clear_registers-else zero i a start w r t n = refl
clear_registers-else (suc left) i a start w r t n =
    let rest =
      clear_registers-else left (i + 1) a start
        (if i == 12 then w else put_word (sub64 start (i * 8)) 0 w) (omega arith) t
        (λ j p q. n j (omega arith) (omega arith)) in
    let here = n i (omega arith) (omega arith) in rest ∙ ground arith

-- It puts zeros into those.
clear_registers-zero :
    (left i j start : ℕ) (w : ℕ → ℕ)
    → 8 * (i + left) ≤ start
    → start < 2 ^ 64
    → i ≤ j
    → j < i + left
    → j ≢ 12
    → clear_registers left i start w (start - 8 * j) ≡ 0
unfolding clear_registers
clear_registers-zero zero i j start w r t a b n = absurd (omega arith)
clear_registers-zero (suc left) i j start w r t a b n =
    let w' = if i == 12 then w else put_word (sub64 start (i * 8)) 0 w in
    elim (Bool-cases (i == j)) [
      | inl y ↦
          let same : i ≡ j = ground arith in
          clear_registers-else left (i + 1) (start - 8 * j) start w' (omega arith) t
            (λ h p q m. omega arith)
          ∙ ground arith
      | inr z ↦
          clear_registers-zero left (i + 1) j start w' (omega arith) t (ground arith) (omega arith)
            n
    ]

-- What the stack of a new process holds: `k` words below its start.
abbrev pub frame_word : ℕ → ℕ → ℕ → ℕ → ℕ → ℕ
frame_word end_process entry_point params start k =
    if k == 1
    then end_process
    else if k == 2
    then 0
    else if k == 3
    then start - 8
    else if k == 4
    then 0x202
    else if k == 5
    then 8
    else if k == 6
    then entry_point
    else if k == 12
    then params
    else 0

same_word :
    (start i k : ℕ)
    → 8 * i ≤ start
    → 8 * k ≤ start
    → start < 2 ^ 64
    → (start - 8 * k == sub64 start (i * 8)) ≡ (k == i)
same_word start i k a b t = ground arith

cleared_word :
    (start params : ℕ) (w : ℕ → ℕ) (k : ℕ)
    → 168 ≤ start
    → start < 2 ^ 64
    → 7 ≤ k
    → k ≤ 20
    → clear_registers 14 7 start (put_word (sub64 start (12 * 8)) params w) (start - 8 * k)
      ≡ (if k == 12 then params else 0)
cleared_word start params w k s t lo hi =
    let w' = put_word (sub64 start (12 * 8)) params w in
    elim (Bool-cases (k == 12)) [
      | inl y ↦
          clear_registers-else 14 7 (start - 8 * k) start w' (omega arith) t
            (λ j p q m. ground arith)
          ∙ ground (arith, same_word start 12 k (omega arith) (omega arith) t)
      | inr z ↦
          rw z (
            clear_registers-zero 14 7 k start w' (omega arith) t lo (omega arith) (ne_of_== k 12 z))
    ]

stack_words-frame_word :
    (start end_process entry_point params : ℕ) (w : ℕ → ℕ) (k : ℕ)
    → 168 ≤ start
    → start < 2 ^ 64
    → 1 ≤ k
    → k ≤ 20
    → stack_words start end_process entry_point params w (start - 8 * k)
      ≡ frame_word end_process entry_point params start k
unfolding stack_words
stack_words-frame_word start end_process entry_point params w k s t lo hi =
    rw
      (
        same_word start 1 k (omega arith) (omega arith) t,
        same_word start 2 k (omega arith) (omega arith) t,
        same_word start 3 k (omega arith) (omega arith) t,
        same_word start 4 k (omega arith) (omega arith) t,
        same_word start 5 k (omega arith) (omega arith) t,
        same_word start 6 k (omega arith) (omega arith) t,
      )
      (elim (Bool-cases (ltb k 7)) [
        | inl y ↦ ground arith
        | inr z ↦ rw (cleared_word start params w k s t (ground arith) hi) (ground arith)
      ])

stack_words-else :
    (start end_process entry_point params : ℕ) (w : ℕ → ℕ) (a : ℕ)
    → 168 ≤ start
    → start < 2 ^ 64
    → ((j : ℕ) → 1 ≤ j → j ≤ 20 → a ≢ start - 8 * j)
    → stack_words start end_process entry_point params w a ≡ w a
unfolding stack_words
stack_words-else start end_process entry_point params w a s t n =
    let w' = put_word (sub64 start (12 * 8)) params w in
    ground (
      arith,
      n 1 (omega arith) (omega arith),
      n 2 (omega arith) (omega arith),
      n 3 (omega arith) (omega arith),
      n 4 (omega arith) (omega arith),
      n 5 (omega arith) (omega arith),
      n 6 (omega arith) (omega arith),
      n 12 (omega arith) (omega arith),
      clear_registers-else 14 7 a start w' (omega arith) t
          (λ j p q m. n j (omega arith) (omega arith)),
    )

-- Where the stack block ends below 2^64, build_stack puts the start of the stack at the end of its
-- block, but for the bytes that align it to 8. Below it are, from the start down: the address of
-- end_process, the stack segment, the stack pointer, the flags, the code segment, the entry point,
-- and the fourteen saved registers that are written, all 0 but rdi, which is the parameters. Memory
-- outside the block is as before.
pub build_stack-frame :
    (end_process entry_point stack_end params : ℕ) (w : ℕ → ℕ)
    → stack_end + stack_size < 2 ^ 64
    → (start : ℕ) × (w' : ℕ → ℕ) × (build_stack end_process entry_point stack_end params w
        ≡ (start, w'))
      × (start ≤ stack_end + stack_size)
      × (stack_end + stack_size < start + 8)
      × (start % 8 ≡ 0)
      × ((k : ℕ)
          → 1 ≤ k
          → k ≤ 20
          → w' (start - 8 * k) ≡ frame_word end_process entry_point params start k)
      × ((a : ℕ) → (a < stack_end ⊎ stack_end + stack_size ≤ a) → w' a ≡ w a)
unfolding build_stack
build_stack-frame end_process entry_point stack_end params w t = (
  _,
  _,
  refl,
  omega arith,
  omega arith,
  omega arith,
  λ k lo hi.
      stack_words-frame_word _ end_process entry_point params w k (omega arith) (omega arith) lo hi,
  λ a out.
      stack_words-else _ end_process entry_point params w a (omega arith) (omega arith)
        (λ j p q. ground arith),
)
