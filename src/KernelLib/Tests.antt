-- ===== src/KernelLib/Tests.antt =====
-- Runs of lib.c and string.c.
use macac_os.Base.{◌%◌, ◌^◌, ◌≡◌, refl, some, [], ◌∷◌, arith, inl}
use macac_os.KernelLib.{Bytes, str_cpy, mem_cpy}
use macac_os.KernelLib.Blocks.{Copied, mem_cpy-Copied}

copies_a_word : str_cpy (0x6C ∷ 0x73 ∷ 0x20 ∷ 0x2D ∷ 0 ∷ []) 10 ≡ some (0x6C ∷ 0x73 ∷ 0 ∷ [])
unfolding str_cpy
copies_a_word = refl

abbrev cells : Bytes
cells a = a % 2 ^ 8

mem_cpy-Copied_example : Copied 0x100 0x108 12 cells (mem_cpy 0x100 0x108 12 cells)
mem_cpy-Copied_example = mem_cpy-Copied 0x100 0x108 12 cells (λ a. omega arith) (inl (omega arith))
