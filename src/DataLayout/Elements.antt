-- ===== src/DataLayout/Elements.antt =====
-- The storing and loading of numbers and texts in the buffer of a data layout, `storeElement` and
-- `loadElement` of vrs/DataLayout.cpp. A store is at the end of what was written so far, so the buffer
-- is the list of the bytes written; a text is the list of its bytes. `size_t` does not wrap, as the
-- sizes are those of buffers in memory.
use vrs.Base.{ℕ, ◌+◌, ◌*◌, ◌/◌, ◌%◌, ◌^◌, ltb, if◌then◌else◌}
use vrs.Base.{Option, none, some, ◌>>=◌, List, [], ◌∷◌, ◌++◌, length, take, drop}

-- `readUnaligned<uint32_t>`, where there are 4 bytes
abbrev pub read_unaligned : List ℕ → ℕ
read_unaligned (a ∷ b ∷ c ∷ d ∷ rest) = a + b * 2 ^ 8 + c * 2 ^ 16 + d * 2 ^ 24
read_unaligned _ = 0

-- `writeUnaligned<uint32_t>`
abbrev pub write_unaligned : ℕ → List ℕ
write_unaligned n = n % 2 ^ 8 ∷ n / 2 ^ 8 % 2 ^ 8 ∷ n / 2 ^ 16 % 2 ^ 8 ∷ n / 2 ^ 24 % 2 ^ 8 ∷ []

-- `elementSize<string>`
abbrev pub element_size : List ℕ → ℕ
element_size s = 4 + length s

unfoldable pub store_uint32 : ℕ → List ℕ → ℕ → Option (List ℕ)
store_uint32 n written max_size =
    if ltb max_size (length written + 4) then none else some (written ++ write_unaligned n)

unfoldable pub store_string : List ℕ → List ℕ → ℕ → Option (List ℕ)
store_string s written max_size =
    let byte_count = length s % 2 ^ 32 in
    if ltb max_size (length written + 4 + byte_count)
    then none
    else some (written ++ (write_unaligned byte_count ++ take byte_count s))

-- What is loaded, and `readSize` after it.
unfoldable pub load_uint32 : List ℕ → ℕ → Option (ℕ × ℕ)
load_uint32 source read_size =
    if ltb (length source) (read_size + 4)
    then none
    else some (read_unaligned (drop read_size source), read_size + 4)

abbrev pub load_bytes : ℕ → List ℕ → ℕ → Option (List ℕ × ℕ)
load_bytes byte_count source read_size =
    if ltb (length source) (read_size + byte_count)
    then none
    else some (take byte_count (drop read_size source), read_size + byte_count)

unfoldable pub load_string : List ℕ → ℕ → Option (List ℕ × ℕ)
load_string source read_size = do
  (byte_count, after) ← load_uint32 source read_size
  load_bytes byte_count source after
