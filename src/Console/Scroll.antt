-- ===== src/Console/Scroll.antt =====
-- What a new line does to the pixels at the bottom of the screen.
use macac_os.Base.{ℕ, ◌+◌, ◌-◌, ◌*◌, ◌^◌, ◌≤◌, ◌<◌, ◌≡◌, ◌⊎◌}
use macac_os.Memory.{u64, sub64}
use macac_os.KernelLib.{Bytes, mem_set, mem_cpy}
use macac_os.Console.{Console, char_height}

-- The number of bytes of the screen above its last line of small characters, and of that line.
abbrev pub upper : Console → ℕ
upper s = 3 * (s.width * (s.height - char_height))

abbrev pub line : Console → ℕ
line s = 3 * (char_height * s.width)

-- The screen one line further up, in `m'`.
pub record Scrolled (s : Console) (m' : Bytes) : Type 0 where
  pub moved :
      (k : ℕ) → k < upper s → m' (s.frame_buffer + k) ≡ s.memory (s.frame_buffer + line s + k)
  pub cleared : (k : ℕ) → k < line s → m' (s.frame_buffer + upper s + k) ≡ 0
  pub outside :
      (a : ℕ) → (a < s.frame_buffer ⊎ s.frame_buffer + upper s + line s ≤ a) → m' a ≡ s.memory a

moved_screen : ℕ → ℕ → ℕ → ℕ → Bytes → Bytes
moved_screen d s n z m = mem_set (d + n) 0 z (mem_cpy d s n m)

-- The memory behind `scroll`, by the level.
leveled : ℕ → Console → Bytes
leveled l s =
    moved_screen s.frame_buffer (s.frame_buffer + 3 * (char_height * l * s.width))
      (u64 (3 * (s.width * sub64 (s.height * l) (char_height * l)))) (3 * s.width * char_height * l)
      s.memory

-- A screen of 16-bit sizes with a line of characters.
abbrev pub HasLine : Console → Type 0
HasLine s = (char_height ≤ s.height) × (s.width < 2 ^ 16) × (s.height < 2 ^ 16)
