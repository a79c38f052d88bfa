-- ===== src/Shell/Arguments/Copied.antt =====
-- What `copy_text` returns, on a well-formed heap.
use macac_os.Base.{
  ℕ, ◌+◌, ◌≡◌, ◌⊎◌, refl, sym, ap, ◌∙◌, subst, Option, none, some, List, [], inl, inr, returns,
  fetch, get_elem?, arith, Option-cases, zoom, Bool-cases, ◌==◌, ltb, ◌||◌,
}
use macac_os.Memory.{Memory, heap_start, max_size, memory_alloc, true_size_of}
use macac_os.Memory.Find.{first_fit}
use macac_os.Memory.Chain.{Block, IsHeap}
use macac_os.Memory.Alloc.{alloc_blocks, memory_alloc-blocks}
use macac_os.Memory.Regions.{Served, memory_alloc-Served}
use macac_os.Kernel.{Kernel}
use macac_os.Kernel.Lift.{next-step, zoom-returns}
use macac_os.Strings.{str_len}
use macac_os.SystemCalls.{write_run}
use macac_os.Shell.Arguments.{Space, sys_malloc, take, copy_text}
use macac_os.Shell.Arguments.Reserved.{Held, Kept, Served-Held, Served-Kept, length-take}

-- The text at the start of a row, with its zero byte.
abbrev pub text_of : List ℕ → List ℕ
text_of row = elim (str_len row) [ none ↦ [] | some len ↦ take (len + 1) row ]

-- The row has a zero byte.
abbrev pub HasEnd : List ℕ → Type 0
HasEnd row = (len : ℕ) × (str_len row ≡ some len)

abbrev pub with_heap : Memory → Space → Space
with_heap m s = record s { kernel = record (s.kernel) { memory = m } }

sys_malloc-returns :
    (size : ℕ) (s : Space) {r : Option ℕ} {m : Memory}
    → memory_alloc size s.kernel.memory ≡ returns r m
    → sys_malloc size s ≡ returns r (with_heap m s)
sys_malloc-returns size s e =
    zoom-returns (λ (s : Space). s.kernel) (λ (k : Kernel) s. record s { kernel = k })
      (zoom (λ (k : Kernel). k.memory) (λ (m : Memory) k. record k { memory = m })
        (memory_alloc size))
      s
      (zoom-returns (λ (k : Kernel). k.memory) (λ (m : Memory) k. record k { memory = m })
        (memory_alloc size) s.kernel e)

-- The heap does not serve the request for the text of the row, or for that of one of the rows.
abbrev pub Refused : List Block → List ℕ → Type 0
Refused bs row = (len : ℕ) × (str_len row ≡ some len) × ((alloc_blocks (len + 1) bs).0 ≡ none)

abbrev pub RefusedOne : List Block → List (List ℕ) → Type 0
RefusedOne bs rows = (i : ℕ) × (row : List ℕ) × (get_elem? rows i ≡ some row) × Refused bs row

-- What is true after `copy_text` and after the loop: the heap is well formed, and all texts are where
-- they were.
pub record After (bs bs' : List Block) (s s' : Space) : Type 0 where
  pub heap : IsHeap s'.kernel.memory bs'
  pub kept : Kept bs s.bytes bs' s'.bytes

alloc_blocks-none :
    (size : ℕ) (bs : List Block) → (alloc_blocks size bs).0 ≡ none → (alloc_blocks size bs).1 ≡ bs
alloc_blocks-none size bs e = elim (Bool-cases (size == 0 || ltb max_size size)) [
  | inl refused ↦ rw refused refl
  | inr valid ↦ elim (Option-cases (first_fit (true_size_of size) heap_start bs)) [
    | inl none_fits ↦ rw (valid, none_fits) refl
    | inr (q, fit) ↦ absurd (ground arith)
  ]
]

pub sys_malloc-Served :
    (size : ℕ) (s : Space) {bs : List Block}
    → IsHeap s.kernel.memory bs
    → (o : Option ℕ) × (m : Memory) × (bs' : List Block) × (sys_malloc size s
        ≡ returns o (with_heap m s))
      × IsHeap m bs'
      × (((o ≡ none) × (bs' ≡ bs) × ((alloc_blocks size bs').0 ≡ none))
          ⊎ ((ptr : ℕ) × (o ≡ some ptr) × Served size ptr bs bs'))
sys_malloc-Served size s {bs} v =
    let (m, done, w) = memory_alloc-blocks size v in
    elim (Option-cases (alloc_blocks size bs).0) [
      | inl e ↦ (
        none,
        m,
        bs,
        sys_malloc-returns size s (done ∙ ap (λ o. returns o m) e),
        rw (alloc_blocks-none size bs e) at w,
        inl (refl, refl, e),
      )
      | inr (ptr, e) ↦
          let is = done ∙ ap (λ o. returns o m) e in
          let (new, w', served) = memory_alloc-Served size ptr v is in
          (some ptr, m, new, sys_malloc-returns size s is, w', inr (ptr, refl, served))
    ]

pub copy_text-Held :
    (text : List ℕ) (s : Space) {bs : List Block}
    → IsHeap s.kernel.memory bs
    → HasEnd text
    → (o : Option ℕ) × (bs' : List Block) × (s' : Space) × (copy_text text s ≡ returns o s')
      × After bs bs' s s'
      × (s'.kernel.word ≡ s.kernel.word)
      × (((o ≡ none) × Refused bs' text)
          ⊎ ((ptr : ℕ) × (o ≡ some ptr) × Held bs' s'.bytes ptr (text_of text)))
unfolding copy_text
copy_text-Held text s {bs} v (len, e) =
    let (o, m, bs', done, w, outcome) = sys_malloc-Served (len + 1) s v in
    let start = ap (λ o. fetch o s) e in
    elim outcome [
      | inl (refused, same, short) ↦ (
        none,
        bs',
        with_heap m s,
        next-step _ start (next-step _ (done ∙ ap (λ o. returns o (with_heap m s)) refused) refl),
        record {
          heap = w;
          kept = subst (λ b. Kept bs s.bytes b s.bytes) (sym same) (λ ptr t h. h);
        },
        refl,
        inl (refl, (len, e, short)),
      )
      | inr (ptr, yes_some, served) ↦ (
        some ptr,
        bs',
        record (with_heap m s) { bytes = write_run (take (len + 1) text) ptr s.bytes },
        next-step _ start (next-step _ (done ∙ ap (λ o. returns o (with_heap m s)) yes_some) refl),
        record {
          heap = w;
          kept =
              Served-Kept (len + 1) ptr served (take (len + 1) text) (length-take (len + 1) text)
                s.bytes;
        },
        refl,
        inr (
          ptr,
          refl,
          rw (e, text_of)
              (Served-Held (len + 1) ptr served (take (len + 1) text) (length-take (len + 1) text)
                s.bytes),
        ),
      )
    ]
