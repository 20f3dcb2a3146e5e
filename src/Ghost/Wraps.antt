-- ===== src/Ghost/Wraps.antt =====
-- The sums of sizes in IsValid of GhostFile.cc that wrap.
use mkw_sp.Base.{ℕ, ◌+◌, ◌-◌, ◌^◌, ◌≤◌, ◌<◌, ◌≡◌, List, none, some, true, length, arith, refl}
use mkw_sp.Bytes.{read32, read32-lt}
use mkw_sp.Ghost.Header.{header_size}
use mkw_sp.Ghost.Raw.{slice, load32, is_size_valid, inputs_header}

load32_in :
    (raw : List ℕ) (offset : ℕ)
    → offset + 4 ≤ length raw
    → load32 raw offset ≡ some (read32 raw offset)
unfolding load32
load32_in raw offset h = ground arith

slice_out : (raw : List ℕ) (offset n : ℕ) → length raw < offset + n → slice raw offset n ≡ none
unfolding slice
slice_out raw offset n h = ground arith

-- In a file of at least 0x90 bytes in a buffer of at most 0x2800, a size of the compressed inputs
-- in the last 0x90 of the 32-bit range passes the test against the file's size, and the range that
-- IsValid then hands to the decoder lies outside the buffer.
pub is_size_valid_wraps :
    (raw : List ℕ) (size : ℕ)
    → 0x90 ≤ size
    → size ≤ length raw
    → length raw ≤ 0x2800
    → 2 ^ 32 - 0x90 ≤ read32 raw header_size
    → (is_size_valid raw size true ≡ some true) × (inputs_header raw true ≡ none)
unfolding is_size_valid inputs_header
is_size_valid_wraps raw size a b c d =
    let l = load32_in raw header_size (omega arith) in
    (
      ground (arith, read32-lt raw header_size, l),
      rw (inputs_header, l, slice_out raw (header_size + 4) (read32 raw header_size) (omega arith))
          refl,
    )
