-- ===== src/Memory/Regions.antt =====
-- What a client of `memory_alloc` is promised, and how much of the heap it can get.
use macac_os.Base.{
  ℕ, ◌+◌, ◌≤◌, ◌<◌, ◌≡◌, ap, ◌∙◌, none, some, List, [], arith, if◌then◌else◌, leb, returns,
}
use macac_os.Memory.{
  Memory, heap_start, heap_end, header_bytes, max_size, memory_alloc, true_size_of,
}
use macac_os.Memory.Chain.{Block, IsHeap}
use macac_os.Memory.Find.{first_fit-ge}
use macac_os.Memory.Place.{placed}
use macac_os.Memory.Alloc.{memory_alloc-blocks, memory_alloc-some}
use macac_os.Memory.Live.{live, Inserted, placed-Inserted, Inserted-weaken}

-- The blocks after a successful request, with where the new one lies.
pub record Served (size ptr : ℕ) (old new : List Block) : Type 0 where
  pub header_at : ℕ
  pub is_ptr : ptr ≡ header_at + header_bytes
  pub in_heap : heap_start ≤ header_at
  pub inserted :
      Inserted
        (size + header_bytes)
        header_at
        heap_start
        heap_end
        (live heap_start old)
        (live heap_start new)

-- A pointer that memory_alloc returns on a well-formed heap stands behind a header in the heap;
-- header and requested bytes lie in a block of their own: the blocks that clients held before are
-- still the same, those below end at or before its header and those above start at or behind its
-- end. The heap stays well formed.
pub memory_alloc-Served :
    (size ptr : ℕ) {bs : List Block} {m m' : Memory}
    → IsHeap m bs
    → memory_alloc size m ≡ returns (some ptr) m'
    → (new : List Block) × IsHeap m' new × Served size ptr bs new
memory_alloc-Served size ptr {bs} v e =
    let n = true_size_of size in
    let (q, fit, at, v', range) = memory_alloc-some size ptr v e in
    (
      placed n bs,
      v',
      record {
        header_at = q;
        is_ptr = at;
        in_heap = first_fit-ge n heap_start bs q fit;
        inserted =
            Inserted-weaken (size + header_bytes) heap_end (omega arith) (omega (arith, v'.fits))
              (placed-Inserted n heap_start bs q fit);
      },
    )

-- On a well-formed heap where nothing was allocated yet a request of 1 to MAX_SIZE bytes is served
-- exactly when it is for at most 65504 bytes, at the start of the heap.
pub memory_alloc-fresh :
    (size : ℕ) {m : Memory}
    → IsHeap m []
    → 0 < size
    → size ≤ max_size
    → (m' : Memory) × (memory_alloc size m
        ≡ returns (if leb size 65504 then some (heap_start + header_bytes) else none) m')
memory_alloc-fresh size {m} v h t =
    let (m₁, e₁, v₁) = memory_alloc-blocks size v in
    (m₁, e₁ ∙ ap (λ r. returns r m₁) (ground arith))
