-- ===== src/Memory/Alloc.antt =====
-- `memory_init` and `memory_alloc` against the list of blocks.
use macac_os.Base.{
  ℕ, ◌+◌, ◌≤◌, ◌<◌, ◌≡◌, ap, ◌∙◌, true, false, not, ◌&&◌, ◌||◌, Option, none, some, List, [], ◌∷◌,
  arith, if◌then◌else◌, ltb, ◌==◌, Bool-cases, Option-cases, inl, inr, returns, and_then,
}
use macac_os.Memory.{
  MemoryInfo, Memory, heap_size, heap_start, heap_end, header_bytes, max_size, add_block,
  memory_init, memory_alloc, alloc_at, find_free_block, true_size_of, u64, sub64, end_header,
}
use macac_os.Memory.Chain.{
  Block, IsSize, Chain, total, used, count, IsHeap, used-le-total, count-le-total,
}
use macac_os.Memory.Find.{first_fit, first_fit-le, find_free_block-first_fit}
use macac_os.Memory.Place.{grant, granted, placed, add_block-Chain}

pub used-placed :
    (n p : ℕ) (bs : List Block) (q : ℕ)
    → first_fit n p bs ≡ some q
    → used (placed n bs) ≡ used bs + granted n bs
used-placed n p [] q e = omega arith
used-placed n p (b ∷ bs) q e = ground (arith, used-placed n (p + b.size) bs q)

pub count-placed :
    (n p : ℕ) (bs : List Block) (q : ℕ)
    → first_fit n p bs ≡ some q
    → count (placed n bs) ≡ count bs + 1
count-placed n p [] q e = omega arith
count-placed n p (b ∷ bs) q e = ground (arith, count-placed n (p + b.size) bs q)

-- The test at the end of the chain leaves room for the new end block.
pub total-placed :
    (n p : ℕ) (bs : List Block) (q : ℕ)
    → first_fit n p bs ≡ some q
    → p + total bs + header_bytes ≤ heap_end
    → p + total (placed n bs) + header_bytes ≤ heap_end
total-placed n p [] q e h = ground arith
total-placed n p (b ∷ bs) q e h = ground (arith, total-placed n (p + b.size) bs q)

-- `mem_info` after `add_block` at the first fit.
counted_in : ℕ → MemoryInfo → MemoryInfo
counted_in n i = record {
  allocated_bytes = u64 (i.allocated_bytes + n);
  free_bytes = sub64 i.free_bytes n;
  allocated_blocks = u64 (i.allocated_blocks + 1);
}

add_block-info_end :
    (n q : ℕ) (m : Memory)
    → m.header q ≡ end_header
    → n ≤ heap_size
    → (add_block q n m).mem_info ≡ counted_in n m.mem_info
unfolding add_block counted_in
add_block-info_end n q m e t = ground arith

add_block-info_fit :
    (n q : ℕ) (b : Block) (m : Memory)
    → m.header q ≡ b
    → IsSize b.size
    → n ≤ heap_size
    → (add_block q n m).mem_info ≡ counted_in (grant n b) m.mem_info
unfolding add_block counted_in
add_block-info_fit n q b m e w t = ground arith

add_block-info :
    (n p : ℕ) (bs : List Block) (m : Memory) (q : ℕ)
    → Chain m.header p bs
    → first_fit n p bs ≡ some q
    → n ≤ heap_size
    → (add_block q n m).mem_info ≡ counted_in (granted n bs) m.mem_info
add_block-info n p [] m q c e t =
    let at : q ≡ p = ground arith in add_block-info_end n q m (rw at c) t
add_block-info n p (b ∷ bs) m q (h, w, c) e t =
    elim (Bool-cases (not b.allocated && not (ltb b.size n))) [
      | inl fit ↦ let at : q ≡ p = ground arith in rw fit (add_block-info_fit n q b m (rw at h) w t)
      | inr miss ↦ rw miss (add_block-info n (p + b.size) bs m q c (ground arith) t)
    ]

-- A block at the first fit is taken: the state stays well formed.
add_block-IsHeap :
    (n : ℕ) {bs : List Block} {m : Memory} (q : ℕ)
    → IsHeap m bs
    → first_fit n heap_start bs ≡ some q
    → IsSize n
    → n ≤ heap_size
    → IsHeap (add_block q n m) (placed n bs)
unfolding counted_in
add_block-IsHeap n {bs} {m} q v e z t =
    let info = add_block-info n heap_start bs m q v.chain e t in
    let chain' = add_block-Chain n heap_start bs m v.chain e z t (omega (arith, v.fits)) in
    let fits' = total-placed n heap_start bs q e (omega (arith, v.fits)) in
    let up = used-placed n heap_start bs q e in
    let ul = used-le-total (placed n bs) in
    let cp = count-placed n heap_start bs q e in
    let cl = count-le-total (placed n bs) _ heap_start chain' in
    record {
      chain = chain';
      fits = omega arith;
      allocated = ap (λ i. i.allocated_bytes) info ∙ omega (arith, v.allocated, up, ul, fits');
      free =
          ap (λ i. i.free_bytes + used (placed n bs)) info ∙ omega (arith, v.free, up, ul, fits');
      counted = ap (λ i. i.allocated_blocks) info ∙ omega (arith, v.counted, cp, cl, fits');
    }

-- The result of `memory_alloc size`, and the blocks that it leaves behind.
abbrev pub alloc_blocks : ℕ → List Block → Option ℕ × List Block
alloc_blocks size bs =
    if size == 0 || ltb max_size size
    then (none, bs)
    else elim (first_fit (true_size_of size) heap_start bs) [
      | none ↦ (none, bs)
      | some q ↦ (some (q + header_bytes), placed (true_size_of size) bs)
    ]

true_size_of-IsSize :
    (size : ℕ)
    → 0 < size
    → size ≤ max_size
    → IsSize (true_size_of size)
      × (true_size_of size ≤ heap_size)
      × (size + header_bytes ≤ true_size_of size)
true_size_of-IsSize size h t = omega arith

memory_alloc-search :
    (size : ℕ) (m : Memory) (r : Option ℕ)
    → (size == 0 || ltb max_size size) ≡ false
    → find_free_block (true_size_of size) m ≡ returns r m
    → memory_alloc size m ≡ alloc_at (true_size_of size) r m
unfolding memory_alloc
memory_alloc-search size m r valid found =
    rw valid (ap (λ o. and_then o (alloc_at (true_size_of size))) found)

memory_alloc-refused :
    (size : ℕ) (m : Memory)
    → (size == 0 || ltb max_size size) ≡ true
    → memory_alloc size m ≡ returns none m
unfolding memory_alloc
memory_alloc-refused size m refused = rw refused

-- memory_alloc on a well-formed heap always returns: it implements first fit on the list of blocks,
-- with NULL and an unchanged list for a request of 0 or too many bytes and where nothing fits, and
-- the heap stays well formed.
pub memory_alloc-blocks :
    (size : ℕ) {bs : List Block} {m : Memory}
    → IsHeap m bs
    → (m' : Memory) × (memory_alloc size m ≡ returns (alloc_blocks size bs).0 m')
      × IsHeap m' (alloc_blocks size bs).1
unfolding alloc_at
memory_alloc-blocks size {bs} {m} v = elim (Bool-cases (size == 0 || ltb max_size size)) [
  | inl refused ↦ (m, rw refused (memory_alloc-refused size m refused), rw refused v)
  | inr valid ↦
      let (z, t, _) = true_size_of-IsSize size (ground arith) (ground arith) in
      let found = find_free_block-first_fit (true_size_of size) v (omega arith) in
      elim (Option-cases (first_fit (true_size_of size) heap_start bs)) [
        | inl e ↦ (
          m,
          rw (valid, e) (memory_alloc-search size m none valid (found ∙ ap (λ r. returns r m) e)),
          rw (valid, e) v,
        )
        | inr (q, e) ↦ (
          add_block q (true_size_of size) m,
          rw (valid, e)
              (memory_alloc-search size m (some q) valid (found ∙ ap (λ r. returns r m) e)
                ∙ ap (λ a. returns (some a) (add_block q (true_size_of size) m))
                    (omega (arith, first_fit-le (true_size_of size) heap_start bs q e, v.fits))),
          rw (valid, e) (add_block-IsHeap (true_size_of size) q v e z t),
        )
      ]
]

alloc_blocks-some :
    (size ptr : ℕ) (bs : List Block)
    → (alloc_blocks size bs).0 ≡ some ptr
    → (q : ℕ) × (first_fit (true_size_of size) heap_start bs ≡ some q)
      × (ptr ≡ q + header_bytes)
      × ((alloc_blocks size bs).1 ≡ placed (true_size_of size) bs)
      × ((0 < size) × (size ≤ max_size))
alloc_blocks-some size ptr bs e = elim (Bool-cases (size == 0 || ltb max_size size)) [
  | inl refused ↦ absurd (ground arith)
  | inr valid ↦ elim (Option-cases (first_fit (true_size_of size) heap_start bs)) [
    | inl none_fits ↦ absurd (ground arith)
    | inr (q, fit) ↦ (q, fit, ground arith, rw (valid, fit), (ground arith, ground arith))
  ]
]

-- Inversion: a request that was served is at the first fit.
pub memory_alloc-some :
    (size ptr : ℕ) {bs : List Block} {m m' : Memory}
    → IsHeap m bs
    → memory_alloc size m ≡ returns (some ptr) m'
    → (q : ℕ) × (first_fit (true_size_of size) heap_start bs ≡ some q)
      × (ptr ≡ q + header_bytes)
      × IsHeap m' (placed (true_size_of size) bs)
      × ((0 < size) × (size ≤ max_size))
memory_alloc-some size ptr {bs} {m} {m'} v e =
    let (m₁, e₁, v₁) = memory_alloc-blocks size v in
    let same : m₁ ≡ m' = ground arith in
    let (q, fit, at, is, range) = alloc_blocks-some size ptr bs (ground arith) in
    (q, fit, at, rw (is, same) at v₁, range)

-- A state with no bytes and no blocks allocated in which memory_init runs becomes the well-formed
-- empty heap.
pub memory_init-IsHeap :
    (m : Memory)
    → m.mem_info.allocated_bytes ≡ 0
    → m.mem_info.allocated_blocks ≡ 0
    → IsHeap (memory_init m) []
unfolding memory_init
memory_init-IsHeap m e f = ground arith
