-- ===== src/SystemCalls/Listed.antt =====
-- Where `sys_get_all_processes` writes.
use macac_os.Base.{
  ℕ, zero, suc, ◌+◌, ◌*◌, ◌/◌, ◌%◌, ◌^◌, ◌≤◌, ◌<◌, ◌≡◌, ◌⊎◌, inl, inr, refl, ap, ◌∙◌, Option, none,
  some, List, [], ◌∷◌, length, returns, Cmd, pure, ◌>>◌, arith, length-append,
}
use macac_os.Kernel.Lift.{next-step}
use macac_os.Kernel.Count.{IsCounted, live_slots-le}
use macac_os.Kernel.Listing.{ProcessInfo, get_all_processes, length-get_all_processes}
use macac_os.KernelLib.{Bytes}
use macac_os.SystemCalls.{
  System, answer, write_run, store_run, little_endian, store_process_info, store_processes,
  process_info_size, sys_get_all_processes,
}
use macac_os.SystemCalls.Dispatch.{syscalls, syscall_dispatcher}
use macac_os.SystemCalls.Turn.{table_of}

-- The bytes outside `n` bytes from `p` on are the same.
abbrev pub SameOutside : ℕ → ℕ → Bytes → Bytes → Type 0
SameOutside p n m m' = (a : ℕ) → a < p ⊎ p + n ≤ a → m' a ≡ m a

-- A command that changes nothing but `n` bytes from `p` on.
abbrev pub Writes : ℕ → ℕ → Cmd System (Unit {0}) → Type 0
Writes p n m =
    (s : System)
    → (after : Bytes) × (m s
        ≡ returns tt (record s { console = record (s.console) { memory = after } }))
      × SameOutside p n s.console.memory after

write_run-SameOutside :
    (cs : List ℕ) (p : ℕ) (m : Bytes) → SameOutside p (length cs) m (write_run cs p m)
unfolding write_run
write_run-SameOutside [] p m a out = refl
write_run-SameOutside (c ∷ cs) p m a (inl h) =
    write_run-SameOutside cs (p + 1) _ a (inl (omega arith)) ∙ ground arith
write_run-SameOutside (c ∷ cs) p m a (inr h) =
    write_run-SameOutside cs (p + 1) _ a (inr (omega arith)) ∙ ground arith

length-little_endian : (n v : ℕ) → length (little_endian n v) ≡ n
unfolding little_endian
length-little_endian zero v = refl
length-little_endian (suc n) v = ap suc (length-little_endian n (v / 2 ^ 8))

-- A write inside a wider range, and two writes one behind the other.
store_run-Writes :
    (p n q : ℕ) (cs : List ℕ) → p ≤ q → q + length cs ≤ p + n → Writes p n (store_run cs q)
store_run-Writes p n q cs h h' s = (
  write_run cs q s.console.memory,
  refl,
  λ a out.
      write_run-SameOutside cs q s.console.memory a
        (elim out [ inl b ↦ inl (omega arith) | inr b ↦ inr (omega arith) ]),
)

pub >>-Writes :
    (p n : ℕ) (m k : Cmd System (Unit {0})) → Writes p n m → Writes p n k → Writes p n (m >> k)
>>-Writes p n m k first second s =
    let (m₁, e₁, same₁) = first s in
    let (m₂, e₂, same₂) = second (record s { console = record (s.console) { memory = m₁ } }) in
    (m₂, next-step _ e₁ e₂, λ a out. same₂ a out ∙ same₁ a out)

Writes-wider :
    (p n q k : ℕ) (m : Cmd System (Unit {0})) → p ≤ q → q + k ≤ p + n → Writes q k m → Writes p n m
Writes-wider p n q k m h h' w s =
    let (after, e, same) = w s in
    (after, e, λ a out. same a (elim out [ inl b ↦ inl (omega arith) | inr b ↦ inr (omega arith) ]))

name_written-Writes :
    (p : ℕ) (o : Option ℕ)
    → Writes p process_info_size
        (elim o [ none ↦ pure tt | some name ↦ store_run (little_endian 8 name) p ])
name_written-Writes p none s = (s.console.memory, refl, λ a out. refl)
name_written-Writes p (some name) s =
    store_run-Writes p process_info_size p (little_endian 8 name) (omega arith)
      (omega (arith, length-little_endian 8 name)) s

store_process_info-Writes :
    (i : ProcessInfo) (p : ℕ) → Writes p process_info_size (store_process_info i p)
unfolding store_process_info
store_process_info-Writes i p =
    let w : (q : ℕ) (cs : List ℕ)
        → p ≤ q
        → q + length cs ≤ p + process_info_size
        → Writes p process_info_size (store_run cs q) =
      store_run-Writes p process_info_size in
    let l = length-little_endian in
    >>-Writes p process_info_size _ _ (name_written-Writes p i.name) (
      >>-Writes p process_info_size _ _
        (w (p + 8) _ (omega arith) (
          omega
            (arith, l 4 i.pid, length-append (little_endian 4 i.pid) (i.priority ∷ i.state ∷ []))))
        (>>-Writes p process_info_size _ _
          (w (p + 16) _ (omega arith) (omega (arith, l 8 i.stack_start)))
          (>>-Writes p process_info_size _ _
            (w (p + 24) _ (omega arith) (omega (arith, l 8 i.stack_end)))
            (>>-Writes p process_info_size _ _
              (w (p + 32) _ (omega arith) (
                omega (
                  arith,
                  l 8 i.stack_pointer,
                  length-append (little_endian 8 i.stack_pointer) (i.output ∷ []),
                )))
              (w (p + 44) _ (omega arith) (omega (arith, l 4 i.assigned_ticks)))))))

store_processes-Writes :
    (is : List ProcessInfo) (p : ℕ)
    → Writes p (length is * process_info_size) (store_processes is p)
unfolding store_processes
store_processes-Writes [] p s = (s.console.memory, refl, λ a out. refl)
store_processes-Writes (i ∷ is) p s =
    >>-Writes p (length (i ∷ is) * process_info_size) _ _
      (Writes-wider p (length (i ∷ is) * process_info_size) p process_info_size
        (store_process_info i p) (omega arith) (omega arith) (store_process_info-Writes i p))
      (Writes-wider p (length (i ∷ is) * process_info_size) (p + process_info_size)
        (length is * process_info_size) (store_processes is (p + process_info_size)) (omega arith)
        (omega arith) (store_processes-Writes is (p + process_info_size)))
      s

sys_get_all_processes-Writes :
    (processes : ℕ) (s : System)
    → IsCounted (table_of s)
    → (after : Bytes) × (sys_get_all_processes processes s
        ≡ returns (table_of s).dim (record s { console = record (s.console) { memory = after } }))
      × SameOutside processes ((table_of s).dim * process_info_size) s.console.memory after
unfolding sys_get_all_processes
sys_get_all_processes-Writes processes s c =
    let k = s.pipes.sync.kernel in
    let many : length (get_all_processes k) ≡ (table_of s).dim = length-get_all_processes k c in
    let (after, e, same) = store_processes-Writes (get_all_processes k) processes s in
    let few = live_slots-le (table_of s).process_list in
    let small : length (get_all_processes k) % 2 ^ 8 ≡ (table_of s).dim =
      omega (arith, many, few, c.counts, c.slots) in
    (
      after,
      next-step _ e (
          ap (λ n. returns n (record s { console = record (s.console) { memory = after } })) small),
      λ a out. same a (elim out [ inl b ↦ inl b | inr b ↦ inr (omega (arith, many)) ]),
    )

-- On a table that dim counts the call that lists the processes returns dim and changes nothing but
-- 48 bytes for each process from the address that it is given on.
pub syscall_dispatcher-Listed :
    (font : ℕ → ℕ) (end_process rsp ss processes : ℕ) (s : System)
    → IsCounted (table_of s)
    → (after : Bytes) × (syscall_dispatcher font end_process rsp ss processes 0 0 0 0 22 s
        ≡ returns
            (answer (some (table_of s).dim) rsp)
            (record s { console = record (s.console) { memory = after } }))
      × SameOutside processes ((table_of s).dim * process_info_size) s.console.memory after
unfolding syscall_dispatcher syscalls
syscall_dispatcher-Listed font end_process rsp ss processes s c =
    let (after, e, same) = sys_get_all_processes-Writes processes s c in
    (after, next-step _ e refl, same)
