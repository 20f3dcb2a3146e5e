-- ===== src/Ghost/Accepted.antt =====
-- What GhostFile.cc and SaveManager.cc may rely on once IsValid has returned true.
use mkw_sp.Base.{
  get_or, ℕ, ◌+◌, ◌^◌, ◌≤◌, ◌<◌, ◌≡◌, List, Option, none, some, Bool, true, false, ltb, leb, ◌&&◌,
  length, arith, refl, Bool-cases, Option-cases, inl, inr, ap, sym, ◌∙◌,
}
use mathlib.Core.Option.{some-injective}
use mkw_sp.Base.Words.{u32}
use mkw_sp.Bytes.{read32}
use mkw_sp.Decoder.Yaz.{get_decoded_size}
use mkw_sp.Decoder.Yaz.Static.{get_decoded_size_lem}
use mkw_sp.Ghost.Header.{
  Platform, header_size, header_of, is_compressed_at, is_header_valid, are_laps_valid, is_mii_valid,
}
use mkw_sp.Ghost.Raw.{
  and_then, slice, load32, load_header, is_size_valid, decode_inputs_header, inputs_header,
  are_counts_valid, are_inputs_valid, is_end_valid, is_valid,
}
use mkw_sp.Ghost.Steps.{get_or-slice, and_then-true, bind-some, load32_lem}

-- The tests that a file passes.
pub record Accepted (p : Platform) (raw : List ℕ) (size : ℕ) : Type 0 where
  pub long : header_size ≤ size
  pub header : is_header_valid p (header_of raw) ≡ true
  pub sized : is_size_valid raw size (is_compressed_at raw) ≡ some true
  pub laps : are_laps_valid (header_of raw) ≡ true
  pub mii : is_mii_valid p (header_of raw) ≡ true
  pub inputs : are_inputs_valid raw (is_compressed_at raw) ≡ some true
  pub end : is_end_valid p raw size (is_compressed_at raw) ≡ some true

five_hold :
    (a : Bool) (s : Option Bool) (b : Bool) (i t : Option Bool)
    → and_then (some a) (and_then s (and_then (some b) (and_then i t))) ≡ some true
    → (a ≡ true) × (s ≡ some true) × (b ≡ true) × (i ≡ some true) × (t ≡ some true)
five_hold false s b i t e = cc
five_hold true s false i t e = cc ((and_then-true s (and_then (some false) (and_then i t)) e).1)
five_hold true s true i t e =
    let (es, e') = and_then-true s _ e in
    let (ei, et) = and_then-true i t e' in (refl, es, refl, ei, et)

pub is_valid-Accepted :
    (p : Platform) (raw : List ℕ) (size : ℕ) → is_valid p raw size ≡ some true → Accepted p raw size
unfolding is_valid load_header header_of
is_valid-Accepted p raw size e = elim (Bool-cases (ltb size header_size)) [
  | inl y ↦ cc (rw (is_valid, y) at e)
  | inr n ↦ elim (Bool-cases (leb header_size (length raw))) [
    | inl l ↦
        let h = header_of raw in
        let c = is_compressed_at raw in
        let (header, sized, rest, inputs, end) =
          five_hold (is_header_valid p h) (is_size_valid raw size c)
            (are_laps_valid h && is_mii_valid p h) (are_inputs_valid raw c)
            (is_end_valid p raw size c) (rw (is_valid, n, l) at e) in
        record {
          long = ground (arith, n);
          header = header;
          sized = sized;
          laps = ground (arith, rest);
          mii = ground (arith, rest);
          inputs = inputs;
          end = end;
        }
    | inr l ↦ cc (rw (is_valid, n, l) at e)
  ]
]

-- The stream of an accepted compressed file gives a size that leaves room for the header and the checksum.
decode_inputs_header-fits :
    (src header : List ℕ)
    → decode_inputs_header src ≡ some (some header)
    → (size : ℕ) × (get_decoded_size src ≡ some size)
      × (8 ≤ size)
      × (u32 (header_size + size + 4) ≤ 0x2800)
unfolding decode_inputs_header
decode_inputs_header-fits src header e = elim (Option-cases (get_decoded_size src)) [
  | inl n ↦ cc (rw (decode_inputs_header, n) at e)
  | inr (size, y) ↦ (size, y, ground (arith, e, y), ground (arith, e, y))
]

-- The streams of a compressed file that IsValid accepts: where it is, and the size that it gives.
pub record Stream (raw : List ℕ) : Type 0 where
  pub bytes : List ℕ
  pub size : ℕ
  pub sliced : slice raw (header_size + 4) (read32 raw header_size) ≡ some bytes
  pub sized : get_decoded_size bytes ≡ some size
  pub some_bytes : 8 ≤ size
  pub fits : u32 (header_size + size + 4) ≤ 0x2800

pub get_decoded_size-slice :
    (raw bytes : List ℕ) (offset n size : ℕ)
    → slice raw offset n ≡ some bytes
    → 16 ≤ n
    → get_decoded_size bytes ≡ some size
    → size ≡ read32 raw (offset + 4)
unfolding slice read32
get_decoded_size-slice raw bytes offset n size e l y =
    let byte : (i j : ℕ) → i < n → offset + i ≡ j → get_or bytes i 0 ≡ get_or raw j 0 =
      λ i j. get_or-slice raw bytes offset n i j e in
    omega (
      arith,
      (get_decoded_size_lem bytes size y).0,
      byte 4 (offset + 4) (omega arith) refl,
      byte 5 (offset + 4 + 1) (omega arith) (omega arith),
      byte 6 (offset + 4 + 2) (omega arith) (omega arith),
      byte 7 (offset + 4 + 3) (omega arith) (omega arith),
    )

header-Stream :
    (raw bytes : List ℕ) (r : Option (List ℕ))
    → slice raw (header_size + 4) (read32 raw header_size) ≡ some bytes
    → (elim r [ none ↦ false | some header ↦ are_counts_valid header ]) ≡ true
    → decode_inputs_header bytes ≡ some r
    → Stream raw
header-Stream raw bytes none s v e = cc
header-Stream raw bytes (some header) s v e =
    let (size, sized, big, fits) = decode_inputs_header-fits bytes header e in
    record { bytes = bytes; size = size; sliced = s; sized = sized; some_bytes = big; fits = fits }

pub inputs-Stream : (raw : List ℕ) → are_inputs_valid raw true ≡ some true → Stream raw
unfolding are_inputs_valid inputs_header
inputs-Stream raw e =
    let (r, er, ev) = bind-some (inputs_header raw true) _ true e in
    let (n, en, e1) = bind-some (load32 raw header_size) _ r er in
    let (bytes, eb, e2) = bind-some (slice raw (header_size + 4) n) decode_inputs_header r e1 in
    header-Stream raw bytes r
      (ap (λ k. slice raw (header_size + 4) k) (sym ((load32_lem raw header_size n en).0)) ∙ eb)
      (some-injective _ _ ev) e2

-- The two sizes in a compressed file whose sums with the sizes of the header and of the checksum
-- do not wrap: that of the stream and the one that the stream gives.
pub record Unwrapped (raw : List ℕ) : Type 0 where
  pub source : read32 raw header_size + 0x90 < 2 ^ 32
  pub decoded : read32 raw 0x90 + 0x8c < 2 ^ 32
