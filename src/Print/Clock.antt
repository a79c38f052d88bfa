-- ===== src/Print/Clock.antt =====
-- `do_get_time` of Userland/SampleCodeModule/inout.c: the time of day as text, on the bytes of the
-- memory.
use macac_os.Base.{
  ℕ, ◌+◌, ◌/◌, ◌%◌, ◌^◌, ◌<◌, ◌≡◌, refl, ap, ap₂, ◌∙◌, [], ◌∷◌, List, inl, inr, arith, Bool-cases,
  ltb, ◌++◌,
}
use macac_os.KernelLib.{Bytes, put_byte}
use macac_os.Print.{get_format}
use macac_os.Strings.{itoa, count_digits, int_size, write_digits, write_number}
use macac_os.SystemCalls.{System, sys_time_handler, read_run, write_run}

unfoldable pub do_get_time : ℕ → ℕ → Bytes → Bytes
unfolding get_format
do_get_time time buffer m =
    let hours = write_run (itoa (get_format (time % 2 ^ 8))).1 buffer m in
    let minutes =
      write_run (itoa (get_format (time / 2 ^ 8 % 2 ^ 8))).1 (buffer + 3)
        (put_byte (buffer + 2) 0x3A hours) in
    put_byte (buffer + 8) 0 (
      write_run (itoa (get_format (time / 2 ^ 16 % 2 ^ 8))).1 (buffer + 6)
        (put_byte (buffer + 5) 0x3A minutes))

tens : (n : ℕ) → n < 10 → n / 10 ≡ 0
tens n h = omega arith

count_digits_one : (n : ℕ) → 0 < n → n < 10 → count_digits 10 n ≡ 1
unfolding count_digits
count_digits_one n a b = ground arith

-- Below 100, itoa writes two digits in any case.
itoa_two : (n : ℕ) → n < 100 → (itoa n).1 ≡ (n / 10 + 48) ∷ (n % 10 + 48) ∷ 0 ∷ []
unfolding itoa write_number write_digits count_digits
itoa_two n small =
    let size : int_size (n / 10) ≡ n / 10 = ground arith in
    elim (Bool-cases (ltb n 10)) [
      | inl one ↦
          let digits : 1 + count_digits 10 (int_size (n / 10)) ≡ 1 =
            ap (λ k. 1 + count_digits 10 k) (size ∙ tens n (ground arith)) in
          ap (λ d. (write_number d n).1) digits ∙ ground arith
      | inr more ↦
          let digits : 1 + count_digits 10 (int_size (n / 10)) ≡ 2 =
            ap (λ k. 1 + count_digits 10 k) size
            ∙ ap (λ c. 1 + c) (count_digits_one (n / 10) (ground arith) (ground arith)) in
          ap (λ d. (write_number d n).1) digits ∙ ground arith
    ]

-- A byte in binary coded decimal: two digits of four bits.
abbrev pub IsBcd : ℕ → Type 0
IsBcd n = (n / 2 ^ 4 < 10) × (n % 2 ^ 4 < 10)

-- The two digits.
abbrev pub digits_of : ℕ → List ℕ
digits_of n = (n / 2 ^ 4 + 48) ∷ (n % 2 ^ 4 + 48) ∷ []

itoa-get_format :
    (n : ℕ) → IsBcd n → (itoa (get_format n)).1 ≡ (n / 2 ^ 4 + 48) ∷ (n % 2 ^ 4 + 48) ∷ 0 ∷ []
unfolding get_format
itoa-get_format n (high, low) =
    itoa_two (get_format n) (omega arith)
    ∙ ap₂ (λ a b. (a + 48) ∷ (b + 48) ∷ 0 ∷ []) (omega arith) (omega arith)

-- The writes of three texts and of the bytes between and behind them.
abbrev written : List ℕ → List ℕ → List ℕ → ℕ → Bytes → Bytes
written x y z buffer m = put_byte (buffer + 8) 0 (
    write_run z (buffer + 6) (
      put_byte (buffer + 5) 0x3A
        (write_run y (buffer + 3) (put_byte (buffer + 2) 0x3A (write_run x buffer m)))))

written-pairs :
    (a b c d e f buffer : ℕ) (m : Bytes)
    → read_run 9 buffer (written (a ∷ b ∷ 0 ∷ []) (c ∷ d ∷ 0 ∷ []) (e ∷ f ∷ 0 ∷ []) buffer m)
      ≡ a ∷ b ∷ 0x3A ∷ c ∷ d ∷ 0x3A ∷ e ∷ f ∷ 0 ∷ []
unfolding read_run write_run
written-pairs a b c d e f buffer m =
    let l = λ (x : ℕ) (xs : List ℕ). x ∷ xs in
    ap₂ l (ground arith) (
      ap₂ l (ground arith) (
        ap₂ l (ground arith) (
          ap₂ l (ground arith) (
            ap₂ l (ground arith) (
              ap₂ l (ground arith)
                (ap₂ l (ground arith) (ap₂ l (ground arith) (ap₂ l (ground arith) refl))))))))

-- Where the clock shows hours, minutes and seconds in binary coded decimal, do_get_time writes
-- their two digits each, with colons between them and a zero byte behind them.
pub do_get_time-digits :
    (s : System) (buffer : ℕ) (m : Bytes)
    → IsBcd s.hours
    → IsBcd s.mins
    → IsBcd s.seconds
    → read_run 9 buffer (do_get_time (sys_time_handler s) buffer m)
      ≡ digits_of s.hours ++ 0x3A ∷ digits_of s.mins ++ 0x3A ∷ digits_of s.seconds ++ 0 ∷ []
unfolding do_get_time sys_time_handler
do_get_time-digits s buffer m (h, h') (n, n') (k, k') =
    let time = sys_time_handler s in
    let text = λ (n : ℕ). (itoa (get_format n)).1 in
    let hours : time % 2 ^ 8 ≡ s.hours = omega arith in
    let mins : time / 2 ^ 8 % 2 ^ 8 ≡ s.mins = omega arith in
    let seconds : time / 2 ^ 16 % 2 ^ 8 ≡ s.seconds = omega arith in
    ap
      (λ x.
        read_run 9 buffer
          (written x (text (time / 2 ^ 8 % 2 ^ 8)) (text (time / 2 ^ 16 % 2 ^ 8)) buffer m))
      (ap text hours ∙ itoa-get_format s.hours (h, h'))
    ∙ ap
        (λ y.
          read_run 9 buffer
            (written (digits_of s.hours ++ 0 ∷ []) y (text (time / 2 ^ 16 % 2 ^ 8)) buffer m))
        (ap text mins ∙ itoa-get_format s.mins (n, n'))
    ∙ ap
        (λ z.
          read_run 9 buffer
            (written (digits_of s.hours ++ 0 ∷ []) (digits_of s.mins ++ 0 ∷ []) z buffer m))
        (ap text seconds ∙ itoa-get_format s.seconds (k, k'))
    ∙ written-pairs (s.hours / 2 ^ 4 + 48) (s.hours % 2 ^ 4 + 48) (s.mins / 2 ^ 4 + 48)
        (s.mins % 2 ^ 4 + 48) (s.seconds / 2 ^ 4 + 48) (s.seconds % 2 ^ 4 + 48) buffer m
