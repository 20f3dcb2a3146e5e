-- ===== src/Decoder/Yaz/Static.antt =====
-- YAZDecoder::GetDecodedSize and the static Decode, which GhostFile.cc uses.
use mkw_sp.Base.{
  ℕ, ◌<◌, ◌≤◌, ◌^◌, min, List, [], ◌∷◌, ◌≡◌, some, none, Option, Bool, arith, refl, length,
  length-set, drop, if◌then◌else◌, ◌&&◌, ◌∷◌, Option-cases, get_elem?, inl, inr, ◌∙◌, true,
}
use mkw_sp.Base.Words.{u8, sub32}
use mkw_sp.Bytes.{read32, read32-lt}
use mkw_sp.Decoder.{decode}
use mkw_sp.Decoder.Keeps.{decode-keeps}
use mkw_sp.Decoder.Yaz.{
  YazDecoder, State, yaz, done, start, process, process_in, header_size, get_decoded_size,
  decode_static, check_magic,
}
use mkw_sp.Decoder.Yaz.Bounds.{IsValid}
use mkw_sp.Decoder.Yaz.Stream.{yaz-decode_total}

pub get_decoded_size_lem :
    (src : List ℕ) (size : ℕ)
    → get_decoded_size src ≡ some size
    → (size ≡ read32 src 4) × (size < 2 ^ 32)
unfolding get_decoded_size
get_decoded_size_lem src size e = (ground (arith, e), ground (arith, e, read32-lt src 4))

-- The static Decode of a stream whose header gives a size panics or faults for no input, if there
-- is room for at least one byte and the destination has the bytes that it is said to have.
pub decode_static_total :
    (src dst : List ℕ) (dst_size size : ℕ)
    → get_decoded_size src ≡ some size
    → 0 < dst_size
    → 0 < size
    → min dst_size size ≤ length dst
    → (r : Option (ℕ × List ℕ)) × (decode_static src dst dst_size ≡ some r)
unfolding decode_static start
decode_static_total src dst dst_size size e n z l =
    let v : IsValid (start dst (min dst_size size)) =
      ground (arith, (get_decoded_size_lem src size e).1) in
    let (r, runs, _) =
      yaz-decode_total (start dst (min dst_size size)) (drop header_size src) v refl
        (ground arith) in
    (
      if r.0 && done r.1 then some (min dst_size size, r.1.dst) else none,
      rw (decode_static, e, runs) refl,
    )

process_in-length :
    (k : State) (d : YazDecoder) (src : List ℕ) (g : Bool) (t : YazDecoder) (rest : List ℕ)
    → process_in k d src ≡ some (g, t, rest)
    → length t.dst ≡ length d.dst
unfolding process_in
process_in-length State.group_header d [] g t rest e = ground (arith, e)
process_in-length State.group_header d (b ∷ src) g t rest e = ground (arith, e)
process_in-length State.copy d [] g t rest e = cc
process_in-length State.copy d (b ∷ src) g t rest e =
    ground (arith, e, length-set d.dst d.dst_offset (u8 b))
process_in-length State.ref_header0 d [] g t rest e = cc
process_in-length State.ref_header0 d (b ∷ src) g t rest e = ground (arith, e)
process_in-length State.ref_header1 d [] g t rest e = cc
process_in-length State.ref_header1 d (b ∷ src) g t rest e = ground (arith, e)
process_in-length State.ref_header2 d [] g t rest e = cc
process_in-length State.ref_header2 d (b ∷ src) g t rest e = ground (arith, e)
process_in-length State.ref_copy d src g t rest e =
    elim (Option-cases (get_elem? d.dst (sub32 d.dst_offset d.ref_offset))) [
      | inl n ↦ ground (arith, e, n)
      | inr (val, y) ↦ ground (arith, e, y, length-set d.dst d.dst_offset val)
    ]

process-length :
    (d : YazDecoder) (src : List ℕ) (g : Bool) (t : YazDecoder) (rest : List ℕ)
    → process d src ≡ some (g, t, rest)
    → length t.dst ≡ length d.dst
unfolding process
process-length d src g t rest e = process_in-length d.state d src g t rest e

-- The static Decode leaves the destination its length.
pub decode_static-length :
    (src dst : List ℕ) (dst_size n : ℕ) (bytes : List ℕ)
    → decode_static src dst dst_size ≡ some (some (n, bytes))
    → length bytes ≡ length dst
unfolding decode_static start
decode_static-length src dst dst_size n bytes e = elim (Option-cases (get_decoded_size src)) [
  | inl none_e ↦ cc (rw (decode_static, none_e) at e)
  | inr (size, y) ↦
      let s : YazDecoder = start dst (min dst_size size) in
      elim (Option-cases (decode yaz s (drop header_size src))) [
        | inl none_e ↦ ground (arith, e, y, none_e)
        | inr (r, z) ↦
            let same : length r.1.dst ≡ length dst =
              decode-keeps yaz (λ d. length d.dst ≡ length dst)
                (λ d src' g t rest e' h. process-length d src' g t rest e' ∙ h) (λ d h. h) s
                (drop header_size src) r z refl in
            ground (arith, e, y, z, same)
      ]
]

-- The header that Yaz_encode writes.
pub get_decoded_size-magic :
    (src : List ℕ)
    → header_size ≤ length src
    → read32 src 0 ≡ 0x59617a31
    → get_decoded_size src ≡ some (read32 src 4)
unfolding get_decoded_size check_magic
get_decoded_size-magic src l e = ground (arith, l, e)

pub decode_static_accepts :
    (src dst : List ℕ) (dst_size size : ℕ) (d : YazDecoder)
    → get_decoded_size src ≡ some size
    → decode yaz (start dst (min dst_size size)) (drop header_size src) ≡ some (true, d)
    → done d ≡ true
    → decode_static src dst dst_size ≡ some (some (min dst_size size, d.dst))
unfolding decode_static
decode_static_accepts src dst dst_size size d e r f = rw (decode_static, e, r, f) refl
