-- ===== src/Memory/Free.antt =====
-- `memory_free` against the list of blocks.
use macac_os.Base.{
  ℕ, ◌+◌, ◌≤◌, ◌<◌, ◌≡◌, ◌≢◌, refl, sym, ◌∙◌, true, false, Option, none, some, List, [], ◌∷◌, arith,
  if◌then◌else◌, ltb, leb, ◌==◌, ◌||◌, Bool-cases, inl, inr, eq_of_==, ne_of_==,
}
use macac_os.Memory.{
  Memory, MemoryInfo, Headers, heap_start, heap_end, header_bytes, memory_free, free_block, release,
  even_part, sub64,
}
use macac_os.Memory.Find.{first_fit, first_fit-ge}
use macac_os.Memory.Place.{placed, granted}
use macac_os.Memory.Chain.{
  Block, block, IsSize, Chain, Chain-frame, total, used, count, IsHeap, used-le-total,
  count-le-total,
}

-- The size of the allocated block whose header stands at `q`.
abbrev pub live_size : ℕ → ℕ → List Block → Option ℕ
live_size q p [] = none
live_size q p (b ∷ bs) =
    if p == q then (if b.allocated then some b.size else none) else live_size q (p + b.size) bs

-- A freed block takes in the block behind it if that is free.
abbrev pub join : Block → List Block → List Block
join b [] = block b.size false ∷ []
join b (c ∷ cs) =
    if c.allocated then block b.size false ∷ c ∷ cs else block (b.size + c.size) false ∷ cs

abbrev pub release_at : ℕ → ℕ → List Block → List Block
release_at q p [] = []
release_at q p (b ∷ bs) = if p == q then join b bs else b ∷ release_at q (p + b.size) bs

-- `free_block` writes one header.
free_block-elsewhere : (q a : ℕ) (m : Memory) → a ≢ q → (free_block q m).header a ≡ m.header a
unfolding free_block
free_block-elsewhere q a m ne = ground arith

join-Chain :
    (q : ℕ) (b : Block) (bs : List Block) (m : Memory)
    → Chain m.header q (b ∷ bs)
    → q + total (b ∷ bs) ≤ heap_end
    → Chain (free_block q m).header q (join b bs)
unfolding free_block
join-Chain q b [] m (e, w, c) t = (ground arith, w, ground arith)
join-Chain q b (d ∷ ds) m (e, w, (f, u, c)) t = elim (Bool-cases d.allocated) [
  | inl y ↦ rw y (
    ground arith,
    w,
    (ground arith, u, Chain-frame ds (q + b.size + d.size) (λ a le. ground arith) c),
  )
  | inr z ↦
      let next : q + (b.size + d.size) ≡ q + b.size + d.size = omega arith in
      rw (z, next)
        (
          ground arith,
          (omega arith, omega arith),
          Chain-frame ds (q + b.size + d.size) (λ a le. ground arith) c,
        )
]

live_size-ge : (q p : ℕ) (bs : List Block) (s : ℕ) → live_size q p bs ≡ some s → p ≤ q
live_size-ge q p [] s e = ground arith
live_size-ge q p (b ∷ bs) s e = ground (arith, live_size-ge q (p + b.size) bs s)

free_block-Chain :
    (q p : ℕ) (bs : List Block) (m : Memory) (s : ℕ)
    → Chain m.header p bs
    → live_size q p bs ≡ some s
    → p + total bs ≤ heap_end
    → Chain (free_block q m).header p (release_at q p bs)
free_block-Chain q p [] m s c e t = absurd (ground arith)
free_block-Chain q p (b ∷ bs) m s c e t = elim (Bool-cases (p == q)) [
  | inl here ↦ let at : q ≡ p = sym (eq_of_== p q here) in rw (here, at) (join-Chain p b bs m c t)
  | inr there ↦ rw there (
    free_block-elsewhere q p m (ne_of_== p q there) ∙ c.0,
    c.1,
    free_block-Chain q (p + b.size) bs m s c.2 (ground arith) (omega arith),
  )
]

live_size-facts :
    (q p : ℕ) (bs : List Block) (s : ℕ) (h : Headers)
    → Chain h p bs
    → live_size q p bs ≡ some s
    → (h q ≡ block s true) × IsSize s × (q + s ≤ p + total bs)
live_size-facts q p [] s h c e = absurd (ground arith)
live_size-facts q p (b ∷ bs) s h c e = elim (Bool-cases (p == q)) [
  | inl here ↦
      let at : q ≡ p = sym (eq_of_== p q here) in
      rw at (ground (arith, c.0), ground (arith, c.1), ground arith)
  | inr there ↦
      let (f, w, t) = live_size-facts q (p + b.size) bs s h c.2 (ground arith) in
      (f, w, omega arith)
]

used-join : (b : Block) (bs : List Block) → used (join b bs) ≡ used bs
used-join b [] = refl
used-join b (d ∷ ds) = ground arith

count-join : (b : Block) (bs : List Block) → count (join b bs) ≡ count bs
count-join b [] = refl
count-join b (d ∷ ds) = ground arith

total-join : (b : Block) (bs : List Block) → total (join b bs) ≡ b.size + total bs
total-join b [] = refl
total-join b (d ∷ ds) = ground arith

pub total-release_at : (q p : ℕ) (bs : List Block) → total (release_at q p bs) ≡ total bs
total-release_at q p [] = refl
total-release_at q p (b ∷ bs) = ground (arith, total-join b bs, total-release_at q (p + b.size) bs)

pub used-release_at :
    (q p : ℕ) (bs : List Block) (s : ℕ)
    → live_size q p bs ≡ some s
    → used bs ≡ used (release_at q p bs) + s
used-release_at q p [] s e = absurd (ground arith)
used-release_at q p (b ∷ bs) s e =
    ground (arith, used-join b bs, used-release_at q (p + b.size) bs s)

pub count-release_at :
    (q p : ℕ) (bs : List Block) (s : ℕ)
    → live_size q p bs ≡ some s
    → count bs ≡ count (release_at q p bs) + 1
count-release_at q p [] s e = absurd (ground arith)
count-release_at q p (b ∷ bs) s e =
    ground (arith, count-join b bs, count-release_at q (p + b.size) bs s)

-- `free_block` leaves `mem_info` alone, and reads only headers.
free_block-info :
    (q : ℕ) (m : Memory) (i : MemoryInfo)
    → free_block q (record m { mem_info = i })
      ≡ record { header = (free_block q m).header; mem_info = i }
unfolding free_block
free_block-info q m i = refl

memory_free-at :
    (q s : ℕ) (m : Memory)
    → m.header q ≡ block s true
    → IsSize s
    → heap_start ≤ q
    → q + header_bytes < heap_end
    → memory_free (q + header_bytes) m
      ≡ record { header = (free_block q m).header; mem_info = release s m.mem_info }
unfolding memory_free
memory_free-at q s m e w lo hi =
    let inside : (q + header_bytes == 0
          || (ltb (q + header_bytes) heap_start || leb heap_end (q + header_bytes)))
        ≡ false =
      ground arith in
    let back : sub64 (q + header_bytes) header_bytes ≡ q = omega arith in
    let whole : even_part (m.header q).size ≡ s = rw e w.0 in
    rw (inside, back, whole) (free_block-info q m (release s m.mem_info))

-- Freeing the pointer of an allocated block keeps the heap well formed: the block is released,
-- joined with the block behind it if that is free, and the counters follow.
pub memory_free-blocks :
    (q s : ℕ) {bs : List Block} {m : Memory}
    → IsHeap m bs
    → live_size q heap_start bs ≡ some s
    → IsHeap (memory_free (q + header_bytes) m) (release_at q heap_start bs)
unfolding release
memory_free-blocks q s {bs} {m} v e =
    let (h, w, t) = live_size-facts q heap_start bs s m.header v.chain e in
    let chain' = free_block-Chain q heap_start bs m s v.chain e (omega (arith, v.fits)) in
    let used' = used-release_at q heap_start bs s e in
    let count' = count-release_at q heap_start bs s e in
    rw (memory_free-at q s m h w (live_size-ge q heap_start bs s e) (omega (arith, v.fits)))
      (record {
        chain = chain';
        fits = omega (arith, total-release_at q heap_start bs, v.fits);
        allocated = omega (arith, v.allocated, used', used-le-total bs, v.fits);
        free = omega (arith, v.free, used', used-le-total bs, v.fits);
        counted =
            omega (arith, v.counted, count', count-le-total bs m.header heap_start v.chain, v.fits);
      })

-- What an allocation placed can be freed.
pub live_size-placed :
    (n p : ℕ) (bs : List Block) (q : ℕ) (h : Headers)
    → Chain h p bs
    → first_fit n p bs ≡ some q
    → live_size q p (placed n bs) ≡ some (granted n bs)
live_size-placed n p [] q h c e = ground arith
live_size-placed n p (b ∷ bs) q h (f, w, c) e =
    ground (arith, live_size-placed n (p + b.size) bs q h c, first_fit-ge n (p + b.size) bs q)
