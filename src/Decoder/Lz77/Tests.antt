-- ===== src/Decoder/Lz77/Tests.antt =====
-- The theorems about Lz77 at a small file: one literal and one back reference, fed in two chunks.
use mkw_sp.Base.{ℕ, ◌≡◌, arith, refl, List, [], ◌∷◌, ◌++◌, some, Bool, true, false, replicate}
use mkw_sp.Decoder.{decode, decode_loop}
use mkw_sp.Decoder.Laws.{Ended}
use mkw_sp.Decoder.Lz77.{
  Lz77Decoder, State, start, lz77, done, process, process_in, on_group_header, on_copy,
  on_ref_header0, select, store,
}
use mkw_sp.Decoder.Lz77.Bounds.{IsValid, lz77_laws}
use mkw_sp.Decoder.Lz77.Stream.{lz77-decode_total, lz77-decode-append}

abbrev test_alloc : ℕ → List ℕ
test_alloc n = replicate n 0

-- 0x10 and a size of 5 bytes.
abbrev test_header : List ℕ
test_header = 0x10 ∷ 5 ∷ 0 ∷ 0 ∷ []

abbrev fresh : Lz77Decoder
fresh = start (test_alloc 5) 5 4

-- The literal 65, and then half of a reference.
abbrev first_chunk : List ℕ
first_chunk = 0x40 ∷ 65 ∷ 0x10 ∷ []

abbrev halfway : Lz77Decoder
halfway = record {
  header_size = 4;
  dst = 65 ∷ 0 ∷ 0 ∷ 0 ∷ 0 ∷ [];
  dst_size = 5;
  dst_offset = 1;
  state = State.ref_header1;
  group_header_index = 1;
  group_header = 0x40;
  ref_size = 4;
  ref_offset = 0;
  is_ok = true;
}

fresh-IsValid : IsValid fresh
unfolding start
fresh-IsValid = ground arith

fresh_room : (fresh.is_ok ≡ true) × (done fresh ≡ false)
unfolding start
fresh_room = (refl, refl)

decode-first_chunk : decode lz77 fresh first_chunk ≡ some (true, halfway)
unfolding decode decode_loop start process process_in on_group_header on_copy on_ref_header0 select
    store
decode-first_chunk = refl

lz77-decode_total_example :
    (r : Bool × Lz77Decoder) × (decode lz77 fresh (0x40 ∷ 65 ∷ 0x10 ∷ 0 ∷ []) ≡ some r)
    × Ended lz77_laws r
lz77-decode_total_example =
    lz77-decode_total fresh (0x40 ∷ 65 ∷ 0x10 ∷ 0 ∷ []) fresh-IsValid fresh_room.0 fresh_room.1

lz77-decode-append_example :
    decode lz77 fresh (first_chunk ++ 0 ∷ []) ≡ decode lz77 halfway (0 ∷ [])
lz77-decode-append_example =
    lz77-decode-append fresh halfway first_chunk (0 ∷ []) fresh-IsValid fresh_room.0 fresh_room.1
      decode-first_chunk refl
