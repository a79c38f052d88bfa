-- ===== src/Memory/Find.antt =====
-- `find_free_block` is a first-fit search.
use macac_os.Base.{
  ℕ, zero, suc, ◌+◌, ◌*◌, ◌%◌, ◌^◌, ◌≤◌, ◌<◌, ◌≡◌, true, not, ◌&&◌, ◌||◌, Option, none, some,
  returns, List, [], ◌∷◌, arith, if◌then◌else◌, ltb, length, ◌∙◌, Bool-cases, inl, inr,
}
use macac_os.Memory.{
  Memory, heap_size, heap_start, heap_end, header_bytes, end_header, even_part, find_block_from,
  find_free_block,
}
use macac_os.Memory.Chain.{Block, IsSize, Chain, total, IsHeap, length-le-total}

-- The first block that is free and holds `n` bytes, or the end of the chain if the test of the
-- code lets the heap grow.
abbrev pub first_fit : ℕ → ℕ → List Block → Option ℕ
first_fit n p [] =
    if ltb heap_end (p + header_bytes * n + header_bytes * header_bytes) then none else some p
first_fit n p (b ∷ bs) =
    if not b.allocated && not (ltb b.size n) then some p else first_fit n (p + b.size) bs

-- The fit lies in the chain.
pub first_fit-ge : (n p : ℕ) (bs : List Block) (q : ℕ) → first_fit n p bs ≡ some q → p ≤ q
first_fit-ge n p [] q e = ground arith
first_fit-ge n p (b ∷ bs) q e = ground (arith, first_fit-ge n (p + b.size) bs q)

pub first_fit-le :
    (n p : ℕ) (bs : List Block) (q : ℕ) → first_fit n p bs ≡ some q → q ≤ p + total bs
first_fit-le n p [] q e = ground arith
first_fit-le n p (b ∷ bs) q e = ground (arith, first_fit-le n (p + b.size) bs q)

find_block_from-cons :
    (fuel n p : ℕ) (b : Block) (m : Memory)
    → m.header p ≡ b
    → IsSize b.size
    → p + b.size ≤ heap_end
    → find_block_from (suc fuel) n p m ≡ (
        if b.allocated || ltb b.size n
        then find_block_from fuel n (p + b.size) m
        else returns (some p) m)
unfolding find_block_from
find_block_from-cons fuel n p b m e s t =
    let pos : ltb 0 (even_part b.size) ≡ true = ground arith in
    let step : (p + even_part b.size) % 2 ^ 64 ≡ p + b.size = omega arith in
    rw (e, pos, step, s.0)
      (elim (Bool-cases (b.allocated || ltb b.size n)) [ inl y ↦ rw y | inr z ↦ rw z ])

find_block_from-nil :
    (fuel n p : ℕ) (m : Memory)
    → m.header p ≡ end_header
    → p ≤ heap_end
    → n ≤ 2 * heap_size
    → find_block_from (suc fuel) n p m ≡ returns (first_fit n p []) m
unfolding find_block_from
find_block_from-nil fuel n p m c t s =
    let last = p + header_bytes * n + header_bytes * header_bytes in
    let step : last % 2 ^ 64 ≡ last = omega arith in
    rw (c, step) (elim (Bool-cases (ltb heap_end last)) [ inl y ↦ rw y | inr z ↦ rw z ])

find_block_from-first_fit :
    (fuel n p : ℕ) (bs : List Block) (m : Memory)
    → Chain m.header p bs
    → length bs < fuel
    → p + total bs ≤ heap_end
    → n ≤ 2 * heap_size
    → find_block_from fuel n p m ≡ returns (first_fit n p bs) m
find_block_from-first_fit zero n p bs m c f t s = absurd (omega arith)
find_block_from-first_fit (suc fuel) n p [] m c f t s =
    find_block_from-nil fuel n p m c (omega arith) s
find_block_from-first_fit (suc fuel) n p (b ∷ bs) m (e, z, c) f t s =
    find_block_from-cons fuel n p b m e z (omega arith)
    ∙ ground
        (arith, find_block_from-first_fit fuel n (p + b.size) bs m c (omega arith) (omega arith) s)

-- On a well-formed heap the search of find_free_block ends, for a size of at most twice the heap,
-- and finds the first fit.
pub find_free_block-first_fit :
    (n : ℕ) {bs : List Block} {m : Memory}
    → IsHeap m bs
    → n ≤ 2 * heap_size
    → find_free_block n m ≡ returns (first_fit n heap_start bs) m
unfolding find_free_block
find_free_block-first_fit n {bs} {m} v s =
    find_block_from-first_fit heap_size n heap_start bs m v.chain
      (omega (arith, length-le-total bs m.header heap_start v.chain, v.fits))
      (omega (arith, v.fits)) s
