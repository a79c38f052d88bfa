-- ===== src/Memory/RoundTrip.antt =====
-- `memory_free` undoes `memory_alloc`.
use macac_os.Base.{
  ℕ, ◌+◌, ◌≤◌, ◌≡◌, refl, ap, true, false, not, ◌&&◌, some, List, [], ◌∷◌, arith, ltb, ◌==◌,
  Bool-cases, inl, inr, returns, ==_refl,
}
use macac_os.Memory.{
  Memory, MemoryInfo, Headers, heap_start, header_bytes, min_size, memory_alloc, memory_free,
  true_size_of,
}
use macac_os.Memory.Chain.{Block, block, Chain, IsHeap}
use macac_os.Memory.Find.{first_fit, first_fit-ge}
use macac_os.Memory.Place.{placed, granted, carve}
use macac_os.Memory.Alloc.{memory_alloc-some, used-placed, count-placed}
use macac_os.Memory.Live.{live}
use macac_os.Memory.Free.{
  join, release_at, live_size-placed, memory_free-blocks, used-release_at, count-release_at,
}

live-join : (p : ℕ) (b : Block) (bs : List Block) → live p (join b bs) ≡ live (p + b.size) bs
live-join p b [] = refl
live-join p b (d ∷ ds) = elim (Bool-cases d.allocated) [
  | inl y ↦ rw y
  | inr z ↦ rw z (ap (λ a. live a ds) (omega arith))
]

live-join-carve :
    (n p : ℕ) (b : Block) (bs : List Block)
    → b.allocated ≡ false
    → n ≤ b.size
    → live p (release_at p p (carve n b bs)) ≡ live p (b ∷ bs)
live-join-carve n p b bs free fits = elim (Bool-cases (ltb (n + min_size) b.size)) [
  | inl wide ↦ rw (wide, ==_refl p, free) (ap (λ a. live a bs) (omega arith))
  | inr tight ↦ rw (tight, ==_refl p, free) (live-join p (block b.size true) bs)
]

-- Releasing the block that was placed gives back the live blocks from before.
live-release_at-placed :
    (n p : ℕ) (bs : List Block) (q : ℕ) (h : Headers)
    → Chain h p bs
    → first_fit n p bs ≡ some q
    → live p (release_at q p (placed n bs)) ≡ live p bs
live-release_at-placed n p [] q h c e = ground arith
live-release_at-placed n p (b ∷ bs) q h (f, w, c) e =
    elim (Bool-cases (not b.allocated && not (ltb b.size n))) [
      | inl fit ↦
          let at : q ≡ p = ground arith in
          rw (at, fit) (live-join-carve n p b bs (ground arith) (ground arith))
      | inr miss ↦
          let further : first_fit n (p + b.size) bs ≡ some q = ground arith in
          let other : (p == q) ≡ false = ground (arith, first_fit-ge n (p + b.size) bs q further) in
          rw (miss, other, live-release_at-placed n (p + b.size) bs q h c further) refl
    ]

-- The counters follow from the blocks.
eq_of_info :
    (i j : MemoryInfo)
    → i.allocated_bytes ≡ j.allocated_bytes
    → i.free_bytes ≡ j.free_bytes
    → i.allocated_blocks ≡ j.allocated_blocks
    → i ≡ j
eq_of_info i j a f n = ground arith

-- On a well-formed heap, freeing a pointer right after it was allocated restores the counters of
-- mem_info and leaves a well-formed heap with the blocks that clients held before.
pub memory_free-alloc :
    (size ptr : ℕ) {bs : List Block} {m m' : Memory}
    → IsHeap m bs
    → memory_alloc size m ≡ returns (some ptr) m'
    → ((memory_free ptr m').mem_info ≡ m.mem_info)
      × ((new : List Block) × IsHeap (memory_free ptr m') new
          × (live heap_start new ≡ live heap_start bs))
memory_free-alloc size ptr {bs} {m} {m'} v e =
    let n = true_size_of size in
    let (q, fit, at, w, range) = memory_alloc-some size ptr v e in
    let held = live_size-placed n heap_start bs q m.header v.chain fit in
    let f = memory_free-blocks q (granted n bs) w held in
    let u = used-release_at q heap_start (placed n bs) (granted n bs) held in
    let c = count-release_at q heap_start (placed n bs) (granted n bs) held in
    let u' = used-placed n heap_start bs q fit in
    let c' = count-placed n heap_start bs q fit in
    rw at (
      eq_of_info (memory_free (q + header_bytes) m').mem_info m.mem_info
          (omega (arith, f.allocated, v.allocated)) (omega (arith, f.free, v.free))
          (omega (arith, f.counted, v.counted)),
      (
        release_at q heap_start (placed n bs),
        f,
        live-release_at-placed n heap_start bs q m.header v.chain fit,
      ),
    )
