-- ===== src/Decoder/Yaz/Tests.antt =====
-- The theorems about Yaz at a small file: one literal and one back reference, fed in two chunks.
use mkw_sp.Base.{ℕ, ◌≡◌, arith, refl, List, [], ◌∷◌, ◌++◌, some, Bool, true, false, replicate}
use mkw_sp.Bytes.{read32}
use mkw_sp.Decoder.{decode, decode_loop}
use mkw_sp.Decoder.Laws.{Ended}
use mkw_sp.Decoder.Yaz.{
  get_decoded_size, decode_static, check_magic, YazDecoder, State, start, yaz, done, process,
  process_in, on_group_header, on_copy, on_ref_header0, select, store,
}
use mkw_sp.Decoder.Yaz.Bounds.{IsValid, yaz_laws}
use mkw_sp.Decoder.Yaz.Stream.{yaz-decode_total, yaz-decode-append}

abbrev test_alloc : ℕ → List ℕ
test_alloc n = replicate n 0

-- "Yaz0", a size of 5 bytes and the padding.
abbrev test_header : List ℕ
test_header = 0x59 ∷ 0x61 ∷ 0x7a ∷ 0x30 ∷ 0 ∷ 0 ∷ 0 ∷ 5 ∷ 0 ∷ 0 ∷ 0 ∷ 0 ∷ 0 ∷ 0 ∷ 0 ∷ 0 ∷ []

abbrev fresh : YazDecoder
fresh = start (test_alloc 5) 5

-- The literal 65, and then half of a reference.
abbrev first_chunk : List ℕ
first_chunk = 0x80 ∷ 65 ∷ 0x20 ∷ []

abbrev halfway : YazDecoder
halfway = record {
  dst = 65 ∷ 0 ∷ 0 ∷ 0 ∷ 0 ∷ [];
  dst_size = 5;
  dst_offset = 1;
  state = State.ref_header1;
  group_header_index = 1;
  group_header = 0x80;
  ref_size = 4;
  ref_offset = 0;
  is_ok = true;
}

fresh-IsValid : IsValid fresh
unfolding start
fresh-IsValid = ground arith

fresh_room : (fresh.is_ok ≡ true) × (done fresh ≡ false)
unfolding start
fresh_room = (refl, refl)

decode-first_chunk : decode yaz fresh first_chunk ≡ some (true, halfway)
unfolding decode decode_loop start process process_in on_group_header on_copy on_ref_header0 select
    store
decode-first_chunk = refl

-- Eight literals.
abbrev pub literals : List ℕ
literals =
    (0x59 ∷ 0x61 ∷ 0x7a ∷ 0x31 ∷ 0 ∷ 0 ∷ 0 ∷ 8 ∷ [])
    ++ replicate 8 0
    ++ (0xff ∷ 0 ∷ 1 ∷ 0 ∷ 2 ∷ 0 ∷ 3 ∷ 0 ∷ 0 ∷ [])

pub sized-literals : get_decoded_size literals ≡ some 8
unfolding get_decoded_size check_magic read32
sized-literals = refl

pub decoded-literals :
    decode_static literals (replicate 8 0) 8 ≡ some (some (8, 0 ∷ 1 ∷ 0 ∷ 2 ∷ 0 ∷ 3 ∷ 0 ∷ 0 ∷ []))
unfolding decode_static get_decoded_size check_magic read32 decode decode_loop start process
    process_in on_group_header on_copy select store
decoded-literals = refl

yaz-decode_total_example :
    (r : Bool × YazDecoder) × (decode yaz fresh (0x80 ∷ 65 ∷ 0x20 ∷ 0 ∷ []) ≡ some r)
    × Ended yaz_laws r
yaz-decode_total_example =
    yaz-decode_total fresh (0x80 ∷ 65 ∷ 0x20 ∷ 0 ∷ []) fresh-IsValid fresh_room.0 fresh_room.1

yaz-decode-append_example : decode yaz fresh (first_chunk ++ 0 ∷ []) ≡ decode yaz halfway (0 ∷ [])
yaz-decode-append_example =
    yaz-decode-append fresh halfway first_chunk (0 ∷ []) fresh-IsValid fresh_room.0 fresh_room.1
      decode-first_chunk refl
