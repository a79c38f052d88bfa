-- ===== src/Shell/Arguments/Built.antt =====
-- The array that `prepare_parameters` returns, and that the end of the process frees.
use macac_os.Base.{
  ℕ, zero, suc, ◌+◌, ◌*◌, ◌^◌, ◌≤◌, ◌<◌, ◌≡◌, ◌≢◌, ◌⊎◌, refl, sym, ap, ◌∙◌, subst, Option, none,
  some, List, [], ◌∷◌, ◌++◌, inl, inr, returns, get_elem?, length, All, arith, length-append,
  length-replicate, replicate,
}
use macac_os.Memory.{Memory, heap_start, heap_end, heap_size, u64}
use macac_os.Memory.Chain.{Block, IsHeap, total}
use macac_os.Memory.Alloc.{alloc_blocks}
use macac_os.Memory.Live.{live, live-Within}
use macac_os.Memory.Regions.{Served}
use macac_os.Kernel.Lift.{next-step}
use macac_os.Kernel.Death.{IsParams}
use macac_os.SystemCalls.{write_run}
use macac_os.Shell.{max_parameters}
use macac_os.Shell.Arguments.{Space, put_pointer, copy_name, prepare_parameters}
use macac_os.Shell.Arguments.Reserved.{Held, Kept, Served-Held, Served-Kept, elem-Within}
use macac_os.Shell.Arguments.Copied.{
  text_of, HasEnd, with_heap, Refused, RefusedOne, After, sys_malloc-Served, copy_text-Held,
}
use macac_os.Shell.Arguments.Stored.{
  Same, Stored, put_pointer_self, put_pointer_other, copy_parameters-Stored, Stored-Kept,
}

Stored-append :
    (bs : List Block) (s : Space) (params i : ℕ) (rows : List (List ℕ)) (row : List ℕ)
    → Stored bs s params i rows
    → Held bs s.bytes (s.kernel.word (u64 (params + 8 * (i + length rows)))) (text_of row)
    → Stored bs s params i (rows ++ row ∷ [])
unfolding Stored
Stored-append bs s params i [] row t h = (
  subst (λ k. Held bs s.bytes (s.kernel.word (u64 (params + 8 * k))) (text_of row)) (omega arith) h,
  tt,
)
Stored-append bs s params i (r ∷ rows) row (g, gs) h = (
  g,
  Stored-append bs s params (i + 1) rows row gs (
      subst (λ k. Held bs s.bytes (s.kernel.word (u64 (params + 8 * k))) (text_of row))
        (omega arith) h),
)

elem-append :
    (rows : List (List ℕ)) (name row : List ℕ) (i : ℕ)
    → get_elem? rows i ≡ some row
    → get_elem? (rows ++ name ∷ []) i ≡ some row
elem-append [] name row i e = absurd (ground arith)
elem-append (r ∷ rows) name row zero e = e
elem-append (r ∷ rows) name row (suc i) e = elem-append rows name row i e

elem-last :
    (rows : List (List ℕ)) (name : List ℕ) → get_elem? (rows ++ name ∷ []) (length rows) ≡ some name
elem-last [] name = refl
elem-last (r ∷ rows) name = elem-last rows name

-- The array at the address: pointers to copies of the texts, then NULL.
pub record IsArray (bs : List Block) (s : Space) (params : ℕ) (rows : List (List ℕ)) : Type 0 where
  pub texts : Stored bs s params 0 rows
  pub end_null : s.kernel.word (u64 (params + 8 * length rows)) ≡ 0

copy_name-IsArray :
    (params : ℕ) (rows : List (List ℕ)) (name : List ℕ) (s : Space) {bs : List Block}
    → IsHeap s.kernel.memory bs
    → HasEnd name
    → Stored bs s params 0 rows
    → params + 8 * (length rows + 1) < 2 ^ 64
    → (o : Option ℕ) × (bs' : List Block) × (s' : Space) × (copy_name params (length rows) name s
        ≡ returns o s')
      × After bs bs' s s'
      × (((o ≡ none) × Refused bs' name)
          ⊎ ((o ≡ some params) × IsArray bs' s' params (rows ++ name ∷ [])))
unfolding copy_name
copy_name-IsArray params rows name s {bs} v t stored small =
    let (o, bs₁, s₁, done, after, word, outcome) = copy_text-Held name s v t in
    let n = length rows in
    elim outcome [
      | inl (full, short) ↦ (
        none,
        bs₁,
        s₁,
        next-step _ (done ∙ ap (λ o. returns o s₁) full) refl,
        after,
        inl (refl, short),
      )
      | inr (ptr, given, held) ↦
          let s₂ : Space = put_pointer params n ptr s₁ in
          let s₃ : Space = put_pointer params (n + 1) 0 s₂ in
          let entry : s₃.kernel.word (u64 (params + 8 * n)) ≡ ptr =
            put_pointer_other params (n + 1) n 0 s₂ (omega arith) (omega arith) (omega arith)
            ∙ put_pointer_self params n ptr s₁ in
          let same : Same params 0 (0 + n) s s₃ = λ k a b.
            put_pointer_other params (n + 1) k 0 s₂ (omega arith) (omega arith) (omega arith)
            ∙ put_pointer_other params n k ptr s₁ (omega arith) (omega arith) (omega arith)
            ∙ ap (λ w. w (u64 (params + 8 * k))) word in
          let before : Stored bs₁ s₃ params 0 rows =
            Stored-Kept bs bs₁ s s₃ params 0 rows after.kept same stored in
          let here : Held bs₁ s₃.bytes (s₃.kernel.word (u64 (params + 8 * n))) (text_of name) =
            subst (λ p. Held bs₁ s₁.bytes p (text_of name)) (sym entry) held in
          (
            some params,
            bs₁,
            s₃,
            next-step _ (done ∙ ap (λ o. returns o s₁) given) refl,
            record { heap = after.heap; kept = after.kept },
            inr (
              refl,
              record {
                texts = Stored-append bs₁ s₃ params 0 rows name before (
                    subst
                      (λ k.
                        Held bs₁ s₃.bytes (s₃.kernel.word (u64 (params + 8 * k))) (text_of name))
                      (omega arith) here);
                end_null =
                    ap (λ k. s₃.kernel.word (u64 (params + 8 * k))) (length-append rows (name ∷ []))
                    ∙ put_pointer_self params (n + 1) 0 s₂;
              },
            ),
          )
    ]

-- The block of the array ends before the end of the heap.
Served-below :
    (size ptr : ℕ) {bs new : List Block} {m : Memory}
    → IsHeap m new
    → Served size ptr bs new
    → ptr + size ≤ heap_end
Served-below size ptr {bs} {new} v served =
    let free : List ℕ = replicate size 0 in
    let len : length free ≡ size = length-replicate size 0 in
    let held : Held new (write_run free ptr (λ a. 0)) ptr free =
      Served-Held size ptr served free (omega (arith, len)) (λ a. 0) in
    let (_, below) =
      elem-Within (live heap_start new) heap_start (heap_start + total new) held.index
        (held.header_at, held.size) (live-Within heap_start new) held.is_live in
    omega (arith, below, held.room, held.is_ptr, len, v.fits)

Stored-pointers :
    (bs : List Block) (s : Space) (params i j : ℕ) (rows : List (List ℕ))
    → Stored bs s params i rows
    → j < length rows
    → s.kernel.word (u64 (params + 8 * (i + j))) ≢ 0
unfolding Stored
Stored-pointers bs s params i j [] t lt = absurd (omega arith)
Stored-pointers bs s params i zero (row ∷ rows) (h, hs) lt =
    let here : i ≡ i + 0 = omega arith in
    subst (λ k. s.kernel.word (u64 (params + 8 * k)) ≢ 0) here
      (λ null. omega (arith, h.is_ptr, h.in_heap, null))
Stored-pointers bs s params i (suc j) (row ∷ rows) (h, hs) lt =
    let next : i + 1 + j ≡ i + suc j = omega arith in
    subst (λ k. s.kernel.word (u64 (params + 8 * k)) ≢ 0) next
      (Stored-pointers bs s params (i + 1) j rows hs (omega arith))

add_zero_left : (n : ℕ) → 0 + n ≡ n
add_zero_left n = omega arith

IsArray-IsParams :
    (bs : List Block) (s : Space) (params : ℕ) (rows : List (List ℕ))
    → IsArray bs s params rows
    → length rows < heap_size
    → IsParams s.kernel.word params (length rows)
IsArray-IsParams bs s params rows is few = record {
  pointers = λ j lt.
      subst (λ k. s.kernel.word (u64 (params + 8 * k)) ≢ 0) (add_zero_left j)
        (Stored-pointers bs s params 0 j rows is.texts lt);
  end_null = is.end_null;
  few = few;
}

-- On a well-formed heap, and for fewer than MAX_PARAMETERS rows that have a zero byte, as the name
-- has, prepare_parameters always returns. It returns NULL where the heap does not serve the request
-- for the array or for one of the texts; or an array of pointers to copies of the texts of the rows
-- and of the name, each in an allocated block, with NULL behind them, as the end of a process frees
-- it. The heap stays well formed, and every text in an allocated block stays where it was.
pub prepare_parameters-IsArray :
    (rows : List (List ℕ)) (name : List ℕ) (s : Space) {bs : List Block}
    → IsHeap s.kernel.memory bs
    → All HasEnd rows
    → HasEnd name
    → length rows < max_parameters
    → (o : Option ℕ) × (bs' : List Block) × (s' : Space) × (prepare_parameters rows
          (length rows)
          name
          s
        ≡ returns o s')
      × After bs bs' s s'
      × (((o ≡ none)
            × (((alloc_blocks (u64 ((length rows + 2) * 8)) bs').0 ≡ none)
                ⊎ RefusedOne bs' (rows ++ name ∷ [])))
          ⊎ ((params : ℕ) × (o ≡ some params)
              × IsArray bs' s' params (rows ++ name ∷ [])
              × IsParams s'.kernel.word params (length rows + 1)))
unfolding prepare_parameters write_run
prepare_parameters-IsArray rows name s {bs} v ts t few =
    let n = length rows in
    let size : u64 ((n + 2) * 8) ≡ (n + 2) * 8 = omega arith in
    let (o, m, bs₁, done, w, outcome) = sys_malloc-Served (u64 ((n + 2) * 8)) s v in
    elim outcome [
      | inl (refused, same, short) ↦ (
        none,
        bs₁,
        with_heap m s,
        next-step _ (done ∙ ap (λ o. returns o (with_heap m s)) refused) refl,
        record {
          heap = w;
          kept = subst (λ b. Kept bs s.bytes b s.bytes) (sym same) (λ ptr t h. h);
        },
        inl (refl, inl short),
      )
      | inr (params, given, served) ↦
          let below = Served-below (u64 ((n + 2) * 8)) params w served in
          let start = done ∙ ap (λ o. returns o (with_heap m s)) given in
          let (b, bs₂, s₂, looped, after, _, outcome₂) =
            copy_parameters-Stored rows 0 params (with_heap m s) w ts
              (omega (arith, below, size)) in
          let first : Kept bs s.bytes bs₁ s.bytes =
            Served-Kept (u64 ((n + 2) * 8)) params served [] (omega arith) s.bytes in
          elim outcome₂ [
            | inl (full, (i, row, at, short)) ↦ (
              none,
              bs₂,
              s₂,
              next-step _ start (next-step _ (looped ∙ ap (λ b. returns b s₂) full) refl),
              record { heap = after.heap; kept = λ p t h. after.kept p t (first p t h) },
              inl (refl, inr (i, row, elem-append rows name row i at, short)),
            )
            | inr (all, stored) ↦
                let (o₃, bs₃, s₃, named, later, outcome₃) =
                  copy_name-IsArray params rows name s₂ after.heap t stored
                    (omega (arith, below, size)) in
                (
                  o₃,
                  bs₃,
                  s₃,
                  next-step _ start (next-step _ (looped ∙ ap (λ b. returns b s₂) all) named),
                  record {
                    heap = later.heap;
                    kept = λ p t h. later.kept p t (after.kept p t (first p t h));
                  },
                  elim outcome₃ [
                    | inl (full, short) ↦ inl (full, inr (n, name, elem-last rows name, short))
                    | inr (made, is) ↦ inr (
                      params,
                      made,
                      is,
                      subst (IsParams s₃.kernel.word params) (length-append rows (name ∷ [])) (
                          IsArray-IsParams bs₃ s₃ params (rows ++ name ∷ []) is
                            (omega (arith, length-append rows (name ∷ [])))),
                    )
                  ],
                )
          ]
    ]
