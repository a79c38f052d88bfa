-- ===== src/Memory/Chain.antt =====
-- The blocks of the heap as a list: what the chain of headers in memory stands for.
use macac_os.Base.{ℕ, ◌+◌, ◌≤◌, ◌<◌, ◌≡◌, Bool, List, [], ◌∷◌, arith, if◌then◌else◌, length}
use macac_os.Memory.{
  Header, Headers, Memory, heap_size, heap_start, header_bytes, min_size, end_header, even_part,
  put_header,
}

abbrev pub Block : Type 0
Block = Header

abbrev pub block : ℕ → Bool → Block
block n a = record { size = n; allocated = a }

-- A size that the allocator gives out: even, with room for a header and a byte.
abbrev pub IsSize : ℕ → Type 0
IsSize n = (even_part n ≡ n) × (min_size ≤ n)

-- From address `p` on the headers are those of the blocks, and the end block stands behind them.
abbrev pub Chain : Headers → ℕ → List Block → Type 0
Chain h p [] = h p ≡ end_header
Chain h p (b ∷ bs) = (h p ≡ b) × IsSize b.size × Chain h (p + b.size) bs

abbrev pub total : List Block → ℕ
total [] = 0
total (b ∷ bs) = b.size + total bs

abbrev pub in_use : Block → ℕ
in_use b = if b.allocated then b.size else 0

-- The bytes and the number of the allocated blocks.
abbrev pub used : List Block → ℕ
used [] = 0
used (b ∷ bs) = in_use b + used bs

abbrev pub count : List Block → ℕ
count [] = 0
count (b ∷ bs) = (if b.allocated then 1 else 0) + count bs

-- The state of the allocator is well formed, and `blocks` is what it stands for.
pub record IsHeap (m : Memory) (blocks : List Block) : Type 0 where
  pub chain : Chain m.header heap_start blocks
  pub fits : total blocks + header_bytes ≤ heap_size
  pub allocated : m.mem_info.allocated_bytes ≡ used blocks
  pub free : m.mem_info.free_bytes + used blocks ≡ heap_size
  pub counted : m.mem_info.allocated_blocks ≡ count blocks

-- A chain depends on nothing in front of it.
pub Chain-frame :
    (bs : List Block) {h g : Headers} (p : ℕ)
    → ((a : ℕ) → p ≤ a → g a ≡ h a)
    → Chain h p bs
    → Chain g p bs
Chain-frame [] p same c = ground (arith, same p)
Chain-frame (b ∷ bs) p same (e, s, c) =
    (ground (arith, same p), s, Chain-frame bs (p + b.size) (λ a q. same a (omega arith)) c)

-- A header written in front of a chain.
pub Chain-put :
    (bs : List Block) (h : Headers) (p q : ℕ) (b : Header)
    → q < p
    → Chain h p bs
    → Chain (put_header q b h) p bs
Chain-put bs h p q b lt c = Chain-frame bs p (λ a le. ground arith) c

pub used-le-total : (bs : List Block) → used bs ≤ total bs
used-le-total [] = omega arith
used-le-total (b ∷ bs) = ground (arith, used-le-total bs)

-- Blocks are not smaller than a header, so there are few of them.
pub length-le-total : (bs : List Block) (h : Headers) (p : ℕ) → Chain h p bs → length bs ≤ total bs
length-le-total [] h p c = omega arith
length-le-total (b ∷ bs) h p (e, s, c) = omega (arith, length-le-total bs h (p + b.size) c)

pub count-le-total : (bs : List Block) (h : Headers) (p : ℕ) → Chain h p bs → count bs ≤ total bs
count-le-total [] h p c = omega arith
count-le-total (b ∷ bs) h p (e, s, c) = ground (arith, count-le-total bs h (p + b.size) c)
