-- ===== src/Ghost/Raw.antt =====
-- RawGhostFile of GhostFile.cc: IsValid and Decompress.
use mkw_sp.Base.{
  ℕ, ◌+◌, ◌-◌, ◌/◌, ◌^◌, List, ◌++◌, Option, none, some, Bool, true, false, not, ltb, leb, ◌==◌,
  ◌&&◌, length, take, drop, set, replicate, if◌then◌else◌,
}
use mkw_sp.Base.Words.{u32, add32, sub32}
use mkw_sp.Bytes.{byte_at, read16, read32, write32}
use mkw_sp.Decoder.Yaz.{get_decoded_size, decode_static}
use mkw_sp.Ghost.Header.{
  Platform, RawGhostHeader, header_size, header_of, is_compressed_at, is_header_valid,
  are_laps_valid, is_mii_valid,
}

-- The rest of a function that goes on after a step that may fault.
abbrev pub bind : {A B : Type 0} → Option A → (A → Option B) → Option B
bind none k = none
bind (some a) k = k a

-- The rest of a test that returns false at once.
abbrev pub and_then : Option Bool → Option Bool → Option Bool
and_then none b = none
and_then (some false) b = some false
and_then (some true) b = b

-- The n bytes at an offset.
unfoldable pub slice : List ℕ → ℕ → ℕ → Option (List ℕ)
slice raw offset n = if leb (offset + n) (length raw) then some (take n (drop offset raw)) else none

unfoldable pub load32 : List ℕ → ℕ → Option ℕ
load32 raw offset = if leb (offset + 4) (length raw) then some (read32 raw offset) else none

unfoldable pub load_header : List ℕ → Option RawGhostHeader
load_header raw = if leb header_size (length raw) then some (header_of raw) else none

abbrev pub main_size : ℕ → ℕ
main_size src_size = u32 (header_size + 4 + src_size + 4)

unfoldable pub is_size_valid : List ℕ → ℕ → Bool → Option Bool
is_size_valid raw size true =
    if ltb size (header_size + 4)
    then some false
    else bind (load32 raw header_size)
        (λ n. some (not (ltb n 0x10) && not (ltb size (main_size n))))
is_size_valid raw size false = some (size == 0x2800)

-- The InputsHeader from the start of the Yaz stream; an empty optional is a return of false. What
-- is on the stack before Decode is taken as 0.
unfoldable pub decode_inputs_header : List ℕ → Option (Option (List ℕ))
decode_inputs_header src = elim (get_decoded_size src) [
  | none ↦ some none
  | some size ↦
      if ltb size 8
      then some none
      else if ltb 0x2800 (u32 (header_size + size + 4))
      then some none
      else bind (decode_static src (replicate 8 0) 8) (λ r.
        some (elim r [ none ↦ none | some (n, bytes) ↦ if n == 8 then some bytes else none ]))
]

unfoldable pub inputs_header : List ℕ → Bool → Option (Option (List ℕ))
inputs_header raw true =
    bind (load32 raw header_size) (λ n. bind (slice raw (header_size + 4) n) decode_inputs_header)
inputs_header raw false = bind (slice raw header_size 8) (λ bytes. some (some bytes))

abbrev pub max_count : ℕ
max_count = (0x2800 - (header_size + 8 + 4)) / 2

unfoldable pub are_counts_valid : List ℕ → Bool
are_counts_valid header =
    not (ltb max_count (read16 header 0))
    && not (ltb max_count (read16 header 2))
    && not (ltb max_count (read16 header 4))
    && not (ltb max_count (read16 header 0 + read16 header 2 + read16 header 4))

unfoldable pub are_inputs_valid : List ℕ → Bool → Option Bool
are_inputs_valid raw compressed =
    bind (inputs_header raw compressed)
      (λ r. some (elim r [ none ↦ false | some header ↦ are_counts_valid header ]))

-- The checksum of the bytes before the last four, at the given end.
unfoldable pub is_crc_valid : Platform → List ℕ → ℕ → Option Bool
is_crc_valid p raw end =
    bind (load32 raw (sub32 end 4))
      (λ crc. bind (slice raw 0 (sub32 end 4)) (λ bytes. some (p.crc32 bytes == crc)))

-- SPFooter::checkSize
unfoldable pub check_size : ℕ → ℕ → Bool
check_size version size = if leb version 5 then size == 0x48 else leb 0x48 size

abbrev pub ctgp_magic : ℕ
ctgp_magic = 0x434b4744

abbrev pub sp_magic : ℕ
sp_magic = 0x53504744

-- The offset of the FooterFooter.
abbrev pub footer_footer : ℕ → ℕ
footer_footer size = sub32 (sub32 size 4) 8

unfoldable pub is_sp_footer_valid : Platform → List ℕ → ℕ → ℕ → ℕ → Option Bool
is_sp_footer_valid p raw size main footer_size =
    if not (u32 (main + footer_size + 8 + 4) == size)
    then some false
    else bind (load32 raw main)
        (λ version. if check_size version footer_size then is_crc_valid p raw size else some false)

unfoldable pub is_footer_valid : Platform → List ℕ → ℕ → ℕ → Option Bool
is_footer_valid p raw size main =
    if ltb size (add32 main 8)
    then some true
    else bind (load32 raw (footer_footer size)) (λ footer_size.
      bind (load32 raw (footer_footer size + 4)) (λ magic.
        if magic == ctgp_magic && footer_size == 0xd0
        then if u32 (main + 0xd0 + 4) == size then is_crc_valid p raw size else some false
        else if magic == sp_magic && leb 0x48 footer_size
        then is_sp_footer_valid p raw size main footer_size
        else some true))

-- The end of IsValid: the checksum of the file or of its main part, and the footer.
unfoldable pub is_end_valid : Platform → List ℕ → ℕ → Bool → Option Bool
is_end_valid p raw size false = is_crc_valid p raw 0x2800
is_end_valid p raw size true =
    bind (load32 raw header_size)
      (λ n. and_then (is_crc_valid p raw (main_size n)) (is_footer_valid p raw size (main_size n)))

unfoldable pub is_valid : Platform → List ℕ → ℕ → Option Bool
is_valid p raw size =
    if ltb size header_size
    then some false
    else bind (load_header raw) (λ h. and_then (some (is_header_valid p h)) (
        and_then (is_size_valid raw size h.is_compressed) (
          and_then (some (are_laps_valid h && is_mii_valid p h)) (
            and_then (are_inputs_valid raw h.is_compressed)
              (is_end_valid p raw size h.is_compressed)))))

-- isCompressed = false, where it is set.
abbrev clear_compressed : List ℕ → List ℕ
clear_compressed header = set header 0x0c (byte_at header 0x0c - 2 ^ 3)

-- The end of Decompress: what Decode gives for the size asked for, behind the header and with its
-- new checksum.
unfoldable pub seal : Platform → List ℕ → ℕ → Option (ℕ × List ℕ) → Option (List ℕ)
seal p header size none = none
seal p header size (some (n, bytes)) =
    let dst = clear_compressed header ++ bytes in
    if n == size then some (write32 dst (0x2800 - 4) (p.crc32 (take (0x2800 - 4) dst))) else none

-- Decompress from the stream on.
unfoldable pub unpack : Platform → List ℕ → List ℕ → Option (Option (List ℕ))
unpack p header stream = elim (get_decoded_size stream) [
  | none ↦ some none
  | some size ↦
      bind (decode_static stream (replicate (0x2800 - header_size) 0) size)
        (λ r. some (seal p header size r))
]

-- Decompress: the destination's 0x2800 bytes, or none inside where it returns false.
unfoldable pub decompress : Platform → List ℕ → Option (Option (List ℕ))
decompress p src =
    if not (is_compressed_at src)
    then bind (slice src 0 0x2800) (λ bytes. some (some bytes))
    else bind (slice src 0 header_size) (λ header.
      bind (load32 src header_size)
        (λ n. bind (slice src (header_size + 4) n) (λ stream. unpack p header stream)))
