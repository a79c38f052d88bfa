-- ===== src/KernelLib.antt =====
-- Kernel/lib.c and string.c: the routines on the bytes of the memory. A block does not go round the
-- end of the address space.
pub mod Copy
pub mod Blocks
mod Tests
use macac_os.Base.{
  ℕ, zero, suc, ◌+◌, ◌-◌, ◌*◌, ◌/◌, ◌%◌, ◌^◌, Bool, ◌&&◌, Option, none, some, List, [], ◌∷◌, ltb,
  ◌==◌, if◌then◌else◌,
}
use macac_os.Base.Int.{ℤ, pos, negsuc}

abbrev pub Bytes : Type 0
Bytes = ℕ → ℕ

abbrev pub put_byte : ℕ → ℕ → Bytes → Bytes
put_byte p v m a = if a == p then v else m a

-- `*(uint32_t *) p`, and a write to it.
unfoldable pub read_uint32 : ℕ → Bytes → ℕ
read_uint32 p m = m p + 2 ^ 8 * m (p + 1) + 2 ^ 16 * m (p + 2) + 2 ^ 24 * m (p + 3)

unfoldable pub write_uint32 : ℕ → ℕ → Bytes → Bytes
write_uint32 p v m = put_byte (p + 3) (v / 2 ^ 24 % 2 ^ 8) (
    put_byte (p + 2) (v / 2 ^ 16 % 2 ^ 8)
      (put_byte (p + 1) (v / 2 ^ 8 % 2 ^ 8) (put_byte p (v % 2 ^ 8) m)))

-- The loop of `mem_set`, from the last byte down.
unfoldable pub fill_bytes : ℕ → ℕ → ℕ → Bytes → Bytes
fill_bytes zero destination chr m = m
fill_bytes (suc length) destination chr m =
    fill_bytes length destination chr (put_byte (destination + length) chr m)

-- `c` is the bit pattern of the `int32_t`.
unfoldable pub mem_set : ℕ → ℕ → ℕ → Bytes → Bytes
unfolding fill_bytes
mem_set destination c length m = fill_bytes length destination (c % 2 ^ 8) m

-- The loops of `mem_cpy` with the rounds that are left from `i` on.
unfoldable pub copy_words : ℕ → ℕ → ℕ → ℕ → Bytes → Bytes
copy_words zero i d s m = m
copy_words (suc left) i d s m =
    copy_words left (i + 1) d s (write_uint32 (d + 4 * i) (read_uint32 (s + 4 * i) m) m)

unfoldable pub copy_bytes : ℕ → ℕ → ℕ → ℕ → Bytes → Bytes
copy_bytes zero i d s m = m
copy_bytes (suc left) i d s m = copy_bytes left (i + 1) d s (put_byte (d + i) (m (s + i)) m)

unfoldable pub mem_cpy : ℕ → ℕ → ℕ → Bytes → Bytes
unfolding copy_words copy_bytes
mem_cpy destination source length m =
    if destination % 4 == 0 && source % 4 == 0 && length % 4 == 0
    then copy_words (length / 4) 0 destination source m
    else copy_bytes length 0 destination source m

-- `_str_cpy` of the text `src`: the bytes that it writes. `none` is a read behind the text.
unfoldable pub str_cpy : List ℕ → ℕ → Option (List ℕ)
str_cpy [] n = none
str_cpy (c ∷ cs) zero = some (0 ∷ [])
str_cpy (c ∷ cs) (suc n) =
    let rest = str_cpy cs n in
    if c == 0
    then some (0 ∷ [])
    else if c == 0x20
    then some (0 ∷ [])
    else elim rest [ none ↦ none | some ds ↦ some (c ∷ ds) ]
