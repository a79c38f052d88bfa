-- ===== src/Shell/Edit.antt =====
-- `buffer_action` of Userland/SampleCodeModule/inout.c: the line that the user types. The echo on the
-- screen is left out.
pub mod Typed
use macac_os.Base.{
  ℕ, zero, suc, ◌+◌, ◌-◌, ◌^◌, Bool, Option, none, some, List, [], ◌∷◌, ltb, ◌==◌, if◌then◌else◌,
  set,
}

-- The loop, on the characters that `do_get_char` returns. `none` is the wait for a further one. A
-- `char` from 128 on is negative.
unfoldable pub edit : ℕ → List ℕ → List ℕ → ℕ → Option (List ℕ)
edit length [] buffer i = none
edit length (c ∷ cs) buffer i =
    let deleted = edit length cs buffer (i - 1) in
    let written = edit length cs (set buffer i c) (i + 1) in
    let same = edit length cs buffer i in
    if c == 0xA
    then some (set buffer i 0)
    else if ltb c (2 ^ 7)
    then (if c == 0x7F then deleted else if ltb i (length - 1) then written else same)
    else same

unfoldable pub buffer_action : ℕ → List ℕ → List ℕ → Option (List ℕ)
unfolding edit
buffer_action length keys buffer = if length == 0 then some buffer else edit length keys buffer 0
