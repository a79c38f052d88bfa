-- ===== src/Memory.antt =====
-- Kernel/memory_manager.c: the heap of the kernel, a chain of blocks with a header in front of each.
pub mod Chain
pub mod Find
pub mod Place
pub mod Alloc
pub mod Live
pub mod Regions
pub mod Free
pub mod RoundTrip
mod Tests
use macac_os.Base.{
  ℕ, zero, suc, ◌+◌, ◌-◌, ◌*◌, ◌/◌, ◌%◌, ◌^◌, Bool, true, false, not, ◌&&◌, ◌||◌, Option, none,
  some, Outcome, returns, hang, Cmd, pure, ◌>>=◌, ◌>>◌, modify, ltb, leb, ◌==◌, if◌then◌else◌,
}

abbrev pub heap_size : ℕ
heap_size = 0x100000

abbrev pub heap_start : ℕ
heap_start = 0xA00000

abbrev pub heap_end : ℕ
heap_end = heap_start + heap_size

-- sizeof(header_info): a `uint64_t` and a `uint8_t`, padded.
abbrev pub header_bytes : ℕ
header_bytes = 16

abbrev pub min_size : ℕ
min_size = header_bytes + 2

abbrev pub max_size : ℕ
max_size = heap_size - header_bytes

-- `uint64_t` arithmetic
abbrev pub u64 : ℕ → ℕ
u64 n = n % 2 ^ 64

abbrev pub sub64 : ℕ → ℕ → ℕ
sub64 a b = (a + 2 ^ 64 - b) % 2 ^ 64

-- `SIZE`: the last bit masked.
abbrev pub even_part : ℕ → ℕ
even_part n = n / 2 * 2

-- `IS_LAST_BLOCK`
abbrev pub is_last_block : ℕ → Bool
is_last_block n = not (ltb 0 (even_part n))

pub record MemoryInfo : Type 0 where
  pub allocated_bytes : ℕ
  pub free_bytes : ℕ
  pub allocated_blocks : ℕ

pub record Header : Type 0 where
  pub size : ℕ
  pub allocated : Bool

abbrev pub Headers : Type 0
Headers = ℕ → Header

-- The headers by address, and the global `mem_info`.
pub record Memory : Type 0 where
  pub header : Headers
  pub mem_info : MemoryInfo

abbrev pub put_header : ℕ → Header → Headers → Headers
put_header p h hs a = if a == p then h else hs a

abbrev pub end_header : Header
end_header = record { size = 0; allocated = true }

unfoldable pub add_end_block : ℕ → Memory → Memory
add_end_block p m = record m { header = put_header p end_header m.header }

unfoldable pub memory_init : Memory → Memory
unfolding add_end_block
memory_init m =
    add_end_block heap_start
      (record m { mem_info = record (m.mem_info) { free_bytes = heap_size } })

-- The loop of `find_free_block` from `ptr` on, and the test behind it. The sum of the test is one of
-- a `header_info *`, which counts in headers.
find_block_from : ℕ → ℕ → ℕ → Cmd Memory (Option ℕ)
find_block_from zero size ptr m = hang
find_block_from (suc fuel) size ptr m =
    let h = m.header ptr in
    let rest = find_block_from fuel size (u64 (ptr + even_part h.size)) m in
    if not (is_last_block h.size) && (h.allocated || ltb (even_part h.size) size)
    then rest
    else if is_last_block h.size
        && ltb heap_end (u64 (ptr + header_bytes * size + header_bytes * header_bytes))
    then returns none m
    else returns (some ptr) m

-- Every block is larger than one byte, so `heap_size` rounds are enough.
unfoldable pub find_free_block : ℕ → Cmd Memory (Option ℕ)
unfolding find_block_from
find_free_block size m = find_block_from heap_size size heap_start m

-- `allocated_bytes += n; free_bytes -= n;`
account : ℕ → MemoryInfo → MemoryInfo
account n i = record i {
  allocated_bytes = u64 (i.allocated_bytes + n);
  free_bytes = sub64 i.free_bytes n;
}

-- The three branches of `add_block`.
split_block : ℕ → ℕ → ℕ → Memory → Memory
unfolding account
split_block ptr true_size old_size m = record {
  header =
      put_header (u64 (ptr + true_size))
        (record { size = sub64 old_size true_size; allocated = false })
        (put_header ptr (record { size = true_size; allocated = true }) m.header);
  mem_info = account true_size m.mem_info;
}

extend_heap : ℕ → ℕ → Memory → Memory
unfolding add_end_block account
extend_heap ptr true_size m =
    let m' = add_end_block (u64 (ptr + true_size)) m in
    record {
      header = put_header ptr (record { size = true_size; allocated = true }) m'.header;
      mem_info = account true_size m'.mem_info;
    }

take_whole : ℕ → ℕ → Memory → Memory
unfolding account
take_whole ptr old_size m = record {
  header = put_header ptr (record { size = old_size; allocated = true }) m.header;
  mem_info = account old_size m.mem_info;
}

count_block : Memory → Memory
count_block m = record m {
  mem_info = record (m.mem_info) { allocated_blocks = u64 (m.mem_info.allocated_blocks + 1) };
}

unfoldable pub add_block : ℕ → ℕ → Memory → Memory
unfolding split_block extend_heap take_whole count_block
add_block ptr true_size m =
    let old_size = even_part (m.header ptr).size in
    count_block (
      if ltb (u64 (true_size + min_size)) old_size
      then split_block ptr true_size old_size m
      else if (m.header ptr).size == 0
      then extend_heap ptr true_size m
      else take_whole ptr old_size m)

abbrev pub true_size_of : ℕ → ℕ
true_size_of size = even_part (u64 (size + header_bytes + 1))

-- The part of `memory_alloc` behind the search.
unfoldable pub alloc_at : ℕ → Option ℕ → Cmd Memory (Option ℕ)
alloc_at true_size none m = returns none m
alloc_at true_size (some ptr) m =
    returns (some (u64 (ptr + header_bytes))) (add_block ptr true_size m)

-- `none` is NULL.
unfoldable pub memory_alloc : ℕ → Cmd Memory (Option ℕ)
memory_alloc size m =
    if size == 0 || ltb max_size size
    then returns none m
    else (find_free_block (true_size_of size) >>= alloc_at (true_size_of size)) m

unfoldable pub free_block : ℕ → Memory → Memory
free_block ptr m =
    let h = m.header ptr in
    let freed = put_header ptr (record h { allocated = false }) m.header in
    let next = freed (u64 (ptr + even_part h.size)) in
    record m {
      header =
          if next.allocated
          then freed
          else put_header ptr (record { size = u64 (h.size + next.size); allocated = false }) freed;
    }

-- `mem_info` after the block of `n` bytes is given back.
unfoldable pub release : ℕ → MemoryInfo → MemoryInfo
release n i = record {
  allocated_bytes = sub64 i.allocated_bytes n;
  free_bytes = u64 (i.free_bytes + n);
  allocated_blocks = sub64 i.allocated_blocks 1;
}

unfoldable pub memory_free : ℕ → Memory → Memory
memory_free ptr m =
    if ptr == 0 || (ltb ptr heap_start || leb heap_end ptr)
    then m
    else let block = sub64 ptr header_bytes in
      let size = even_part (m.header block).size in
      free_block block (record m { mem_info = release size m.mem_info })
