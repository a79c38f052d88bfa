-- ===== src/Memory/Tests.antt =====
-- Runs of memory_manager.c, and its theorems at a heap of three blocks.
use macac_os.Base.{◌+◌, ◌-◌, ◌≡◌, refl, true, false, none, some, List, [], ◌∷◌, arith, returns}
use macac_os.Memory.{
  Memory, heap_start, header_bytes, put_header, end_header, memory_init, memory_alloc, memory_free,
}
use macac_os.Memory.Chain.{Block, block, IsHeap}
use macac_os.Memory.Alloc.{alloc_blocks, memory_alloc-blocks, memory_init-IsHeap}
use macac_os.Memory.Live.{live}
use macac_os.Memory.Regions.{Served, memory_alloc-Served, memory_alloc-fresh}
use macac_os.Memory.Free.{release_at, memory_free-blocks}
use macac_os.Memory.RoundTrip.{memory_free-alloc}

abbrev booted : Memory
booted = record {
  header = λ a. end_header;
  mem_info = record { allocated_bytes = 0; free_bytes = 0; allocated_blocks = 0 };
}

-- The empty heap, for the tests below.
fresh-IsHeap : IsHeap (memory_init booted) []
fresh-IsHeap = memory_init-IsHeap booted refl refl

abbrev blocks : List Block
blocks = block 64 true ∷ block 128 false ∷ block 32 true ∷ []

abbrev three : Memory
three = record {
  header = put_header heap_start (block 64 true) (
      put_header (heap_start + 64) (block 128 false)
        (put_header (heap_start + 192) (block 32 true) (λ a. end_header)));
  mem_info = record { allocated_bytes = 96; free_bytes = 0x100000 - 96; allocated_blocks = 2 };
}

three-IsHeap : IsHeap three blocks
three-IsHeap = record {
  chain =
      (refl, (refl, omega arith), (refl, (refl, omega arith), (refl, (refl, omega arith), refl)));
  fits = omega arith;
  allocated = refl;
  free = refl;
  counted = refl;
}

-- A request for 40 bytes splits the free block.
abbrev served : Memory
served = (memory_alloc-blocks 40 three-IsHeap).0

hole_is_used : memory_alloc 40 three ≡ returns (some (heap_start + 80)) served
hole_is_used = (memory_alloc-blocks 40 three-IsHeap).1

memory_alloc-Served_example :
    (new : List Block) × IsHeap served new × Served 40 (heap_start + 80) blocks new
memory_alloc-Served_example = memory_alloc-Served 40 (heap_start + 80) three-IsHeap hole_is_used

memory_alloc-blocks_example :
    (m' : Memory) × (memory_alloc 40 three ≡ returns (alloc_blocks 40 blocks).0 m')
    × IsHeap m' (alloc_blocks 40 blocks).1
memory_alloc-blocks_example = memory_alloc-blocks 40 three-IsHeap

memory_alloc-fresh_example :
    (m' : Memory) × (memory_alloc 65505 (memory_init booted) ≡ returns none m')
memory_alloc-fresh_example = memory_alloc-fresh 65505 fresh-IsHeap (omega arith) (omega arith)

memory_free-blocks_example :
    IsHeap (memory_free (heap_start + header_bytes) three) (release_at heap_start heap_start blocks)
memory_free-blocks_example = memory_free-blocks heap_start 64 three-IsHeap refl

freed_joins : release_at heap_start heap_start blocks ≡ block 192 false ∷ block 32 true ∷ []
freed_joins = refl

memory_free-alloc_example :
    ((memory_free (heap_start + 80) served).mem_info ≡ three.mem_info)
    × ((new : List Block) × IsHeap (memory_free (heap_start + 80) served) new
        × (live heap_start new ≡ live heap_start blocks))
memory_free-alloc_example = memory_free-alloc 40 (heap_start + 80) three-IsHeap hole_is_used
