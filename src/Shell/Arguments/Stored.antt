-- ===== src/Shell/Arguments/Stored.antt =====
-- The array of parameters that `prepare_parameters` builds, up to the NULL at its end.
use macac_os.Base.{
  ℕ, suc, ◌+◌, ◌*◌, ◌^◌, ◌≤◌, ◌<◌, ◌≡◌, ◌≢◌, ◌⊎◌, refl, sym, ap, ◌∙◌, subst, Bool, true, false,
  List, [], ◌∷◌, inl, inr, returns, length, All, arith,
}
use macac_os.Memory.{u64}
use macac_os.Memory.Chain.{Block, IsHeap}
use macac_os.Kernel.Lift.{next-step}
use macac_os.Shell.Arguments.{Space, put_pointer, copy_parameters}
use macac_os.Shell.Arguments.Reserved.{Held, Kept}
use macac_os.Shell.Arguments.Copied.{text_of, HasEnd, RefusedOne, After, copy_text-Held}

-- From entry `i` of the array on stand pointers to copies of the texts.
unfoldable pub Stored : List Block → Space → ℕ → ℕ → List (List ℕ) → Type 0
Stored bs s params i [] = Unit
Stored bs s params i (row ∷ rows) =
    Held bs s.bytes (s.kernel.word (u64 (params + 8 * i))) (text_of row)
    × Stored bs s params (i + 1) rows

-- The entries of the array from `i` on up to `j` are the same.
abbrev pub Same : ℕ → ℕ → ℕ → Space → Space → Type 0
Same params i j s s' =
    (k : ℕ)
    → i ≤ k
    → k < j
    → s'.kernel.word (u64 (params + 8 * k)) ≡ s.kernel.word (u64 (params + 8 * k))

pub Stored-Kept :
    (bs bs' : List Block) (s s' : Space) (params i : ℕ) (rows : List (List ℕ))
    → Kept bs s.bytes bs' s'.bytes
    → Same params i (i + length rows) s s'
    → Stored bs s params i rows
    → Stored bs' s' params i rows
unfolding Stored
Stored-Kept bs bs' s s' params i [] kept same t = tt
Stored-Kept bs bs' s s' params i (row ∷ rows) kept same (h, hs) = (
  subst (λ p. Held bs' s'.bytes p (text_of row)) (sym (same i (omega arith) (omega arith)))
      (kept _ _ h),
  Stored-Kept bs bs' s s' params (i + 1) rows kept (λ k a b. same k (omega arith) (omega arith)) hs,
)

-- A write to one entry of the array.
pub put_pointer_self :
    (params i ptr : ℕ) (s : Space)
    → (put_pointer params i ptr s).kernel.word (u64 (params + 8 * i)) ≡ ptr
put_pointer_self params i ptr s = ground arith

pub put_pointer_other :
    (params i k ptr : ℕ) (s : Space)
    → params + 8 * i < 2 ^ 64
    → params + 8 * k < 2 ^ 64
    → i ≢ k
    → (put_pointer params i ptr s).kernel.word (u64 (params + 8 * k))
      ≡ s.kernel.word (u64 (params + 8 * k))
put_pointer_other params i k ptr s a b ne = ground arith

pub copy_parameters-Stored :
    (rows : List (List ℕ)) (i params : ℕ) (s : Space) {bs : List Block}
    → IsHeap s.kernel.memory bs
    → All HasEnd rows
    → params + 8 * (i + length rows) < 2 ^ 64
    → (b : Bool) × (bs' : List Block) × (s' : Space) × (copy_parameters
          (length rows)
          i
          rows
          params
          s
        ≡ returns b s')
      × After bs bs' s s'
      × Same params 0 i s s'
      × (((b ≡ false) × RefusedOne bs' rows) ⊎ ((b ≡ true) × Stored bs' s' params i rows))
unfolding copy_parameters Stored
copy_parameters-Stored [] i params s {bs} v t small =
    (true, bs, s, refl, record { heap = v; kept = λ ptr t h. h }, (λ k a b. refl), inr (refl, tt))
copy_parameters-Stored (row ∷ rows) i params s {bs} v (t, ts) small =
    let (o, bs₁, s₁, done, after, word, outcome) = copy_text-Held row s v t in
    elim outcome [
      | inl (full, short) ↦ (
        false,
        bs₁,
        s₁,
        next-step _ (done ∙ ap (λ o. returns o s₁) full) refl,
        after,
        (λ k a b. ap (λ w. w (u64 (params + 8 * k))) word),
        inl (refl, (0, row, refl, short)),
      )
      | inr (ptr, given, held) ↦
          let s₂ : Space = put_pointer params i ptr s₁ in
          let (b, bs', s', rest, later, same, outcome') =
            copy_parameters-Stored rows (i + 1) params s₂ after.heap ts (omega arith) in
          (
            b,
            bs',
            s',
            next-step _ (done ∙ ap (λ o. returns o s₁) given) rest,
            record { heap = later.heap; kept = λ p t h. later.kept p t (after.kept p t h) },
            (λ k a c.
                same k a (omega arith)
                ∙ put_pointer_other params i k ptr s₁ (omega arith) (omega arith) (omega arith)
                ∙ ap (λ w. w (u64 (params + 8 * k))) word),
            elim outcome' [
              | inl (stop, (j, r, at, short)) ↦ inl (stop, (suc j, r, at, short))
              | inr (all, stored) ↦ inr (
                all,
                (
                  subst (λ p. Held bs' s'.bytes p (text_of row))
                      (sym (same i (omega arith) (omega arith) ∙ put_pointer_self params i ptr s₁))
                      (later.kept ptr (text_of row) held),
                  stored,
                ),
              )
            ],
          )
    ]
