-- ===== src/Memory/Place.antt =====
-- `add_block` on the chain of blocks.
use macac_os.Base.{
  ℕ, ◌+◌, ◌-◌, ◌*◌, ◌≤◌, ◌<◌, ◌≡◌, ◌∙◌, true, false, not, ◌&&◌, some, List, [], ◌∷◌, arith,
  if◌then◌else◌, ltb, ltb→lt, Bool-cases, inl, inr,
}
use macac_os.Memory.{Memory, heap_size, heap_end, min_size, end_header, add_block}
use macac_os.Memory.Chain.{Block, block, IsSize, Chain, total, Chain-frame}
use macac_os.Memory.Find.{first_fit, first_fit-ge, first_fit-le}

-- The bytes that a request for `n` takes from a free block that holds them.
abbrev pub grant : ℕ → Block → ℕ
grant n b = if ltb (n + min_size) b.size then n else b.size

-- What becomes of that block: its front is taken, a rest that is large enough stays free.
abbrev pub carve : ℕ → Block → List Block → List Block
carve n b bs =
    if ltb (n + min_size) b.size
    then block n true ∷ block (b.size - n) false ∷ bs
    else block b.size true ∷ bs

-- The bytes granted by the first fit, and the blocks afterwards.
abbrev pub granted : ℕ → List Block → ℕ
granted n [] = n
granted n (b ∷ bs) = if not b.allocated && not (ltb b.size n) then grant n b else granted n bs

abbrev pub placed : ℕ → List Block → List Block
placed n [] = block n true ∷ []
placed n (b ∷ bs) = if not b.allocated && not (ltb b.size n) then carve n b bs else b ∷ placed n bs

-- `add_block` writes nothing in front of the block.
add_block-below :
    (q n a : ℕ) (m : Memory)
    → q + n ≤ 2 * heap_end
    → a < q
    → (add_block q n m).header a ≡ m.header a
unfolding add_block
add_block-below q n a m small lt = ground arith

carve-Chain :
    (n p : ℕ) (b : Block) (bs : List Block) (m : Memory)
    → m.header p ≡ b
    → (b.allocated ≡ false) × (n ≤ b.size)
    → IsSize n
    → IsSize b.size
    → Chain m.header (p + b.size) bs
    → p + b.size ≤ heap_end
    → Chain (add_block p n m).header p (carve n b bs)
unfolding add_block
carve-Chain n p b bs m e fits z w c small = elim (Bool-cases (ltb (n + min_size) b.size)) [
  | inl wide ↦
      let next : p + n + (b.size - n) ≡ p + b.size =
        ground (arith, ltb→lt (n + min_size) b.size wide) in
      rw wide (
        ground arith,
        z,
        (
          ground arith,
          (
            omega (arith, ltb→lt (n + min_size) b.size wide),
            omega (arith, ltb→lt (n + min_size) b.size wide),
          ),
          rw next (Chain-frame bs (p + b.size) (λ a le. ground arith) c),
        ),
      )
  | inr tight ↦ rw tight (ground arith, w, Chain-frame bs (p + b.size) (λ a le. ground arith) c)
]

extend-Chain :
    (n p : ℕ) (m : Memory)
    → m.header p ≡ end_header
    → IsSize n
    → p + n ≤ 2 * heap_end
    → Chain (add_block p n m).header p (block n true ∷ [])
unfolding add_block
extend-Chain n p m e z small = (ground arith, z, ground arith)

-- The chain after `add_block` at the first fit.
pub add_block-Chain :
    (n p : ℕ) (bs : List Block) (m : Memory) {q : ℕ}
    → Chain m.header p bs
    → first_fit n p bs ≡ some q
    → IsSize n
    → n ≤ heap_size
    → p + total bs ≤ heap_end
    → Chain (add_block q n m).header p (placed n bs)
add_block-Chain n p [] m {q} c found z t s =
    let e : q ≡ p = ground arith in rw e (extend-Chain n p m c z (omega arith))
add_block-Chain n p (b ∷ bs) m {q} (h, w, c) found z t s =
    elim (Bool-cases (not b.allocated && not (ltb b.size n))) [
      | inl fit ↦
          let e : q ≡ p = ground arith in
          rw (e, fit) (carve-Chain n p b bs m h (ground arith) z w c (omega arith))
      | inr miss ↦
          let further : first_fit n (p + b.size) bs ≡ some q = ground arith in
          let lt : p < q = omega (arith, first_fit-ge n (p + b.size) bs q further) in
          rw miss (
            add_block-below q n p m (omega (arith, first_fit-le n (p + b.size) bs q further)) lt
                ∙ h,
            w,
            add_block-Chain n (p + b.size) bs m c further z t (omega arith),
          )
    ]
