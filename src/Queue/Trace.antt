-- ===== src/Queue/Trace.antt =====
-- Sequences of calls on a queue.
use macac_os.Base.{
  ℕ, ◌≡◌, refl, ap, ap₂, ◌∙◌, and_then, List, [], ◌∷◌, returns, Cmd, pure, ◌>>=◌, ◌>>◌,
}
use macac_os.Queue.{Queue, enqueue, dequeue}
use macac_os.Queue.Refine.{
  IsValid, waiting, fifo_put, fifo_head, fifo_tail, enqueue-put, dequeue-head,
}

pub data Call : Type 0 where
  put : ℕ → Call
  take : Call

-- The calls in order, and what each `dequeue` returns.
unfoldable pub run : List Call → Cmd Queue (List ℕ)
run [] = pure []
run (put x ∷ calls) = do enqueue x; run calls
run (take ∷ calls) = do x ← dequeue; xs ← run calls; pure (x ∷ xs)

-- The same calls on a FIFO of at most `n` elements.
unfoldable pub fifo_run : ℕ → List Call → List ℕ → List ℕ
fifo_run n [] xs = []
fifo_run n (put x ∷ calls) xs = fifo_run n calls (fifo_put n x xs)
fifo_run n (take ∷ calls) xs = fifo_head xs ∷ fifo_run n calls (fifo_tail xs)

-- No sequence of enqueue and dequeue calls on a valid queue makes an access outside its block, and
-- the values that it returns are those of a FIFO bounded by the size of the queue.
pub run-fifo :
    (calls : List Call) {q : Queue}
    → IsValid q
    → (q' : Queue) × (run calls q ≡ returns (fifo_run q.size calls (waiting q)) q') × IsValid q'
unfolding run fifo_run
run-fifo [] {q} v = (q, refl, v)
run-fifo (put x ∷ calls) {q} v =
    let (q₁, e, v₁, w, s) = enqueue-put x v in
    let (q₂, e₂, v₂) = run-fifo calls v₁ in
    (
      q₂,
      ap (λ o. and_then o (λ _. run calls)) e
          ∙ e₂
          ∙ ap₂ (λ n xs. returns (fifo_run n calls xs) q₂) s w,
      v₂,
    )
run-fifo (take ∷ calls) {q} v =
    let (q₁, e, v₁, w, s) = dequeue-head v in
    let (q₂, e₂, v₂) = run-fifo calls v₁ in
    (
      q₂,
      ap (λ o. and_then o (λ x. run calls >>= λ xs. pure (x ∷ xs))) e
          ∙ ap (λ o. and_then o (λ xs. pure (fifo_head (waiting q) ∷ xs))) e₂
          ∙ ap₂ (λ n xs. returns (fifo_head (waiting q) ∷ fifo_run n calls xs) q₂) s w,
      v₂,
    )
