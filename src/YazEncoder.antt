-- ===== src/YazEncoder.antt =====
-- payload/sp/Yaz.c: Yaz_encode. `none` is an access outside a buffer.
pub mod Search
pub mod Goes
pub mod Bounds
pub mod Total
pub mod Written
pub mod Stream
pub mod Items
pub mod Refs
pub mod Rounds
pub mod Fits
pub mod Header
pub mod Decoded
pub mod Roundtrip
mod Tests
use mkw_sp.Base.{
  ℕ, zero, suc, ◌+◌, ◌-◌, ◌*◌, ◌%◌, ◌^◌, min, List, Option, none, some, not, ltb, ◌==◌, ◌&&◌,
  length, set, get_elem?, if◌then◌else◌,
}
use mkw_sp.Base.Words.{u8, u16, add32}
use mkw_sp.Bytes.{write16, write32}

abbrev pub bind : {A B : Type 0} → Option A → (A → Option B) → Option B
bind none k = none
bind (some a) k = k a

-- dst[offset] = val
unfoldable pub store : List ℕ → ℕ → ℕ → Option (List ℕ)
store dst offset val = if ltb offset (length dst) then some (set dst offset (u8 val)) else none

-- writeU16
unfoldable pub store16 : List ℕ → ℕ → ℕ → Option (List ℕ)
store16 dst offset val =
    if ltb (offset + 1) (length dst) then some (write16 dst offset val) else none

-- writeU32
unfoldable pub store32 : List ℕ → ℕ → ℕ → Option (List ℕ)
store32 dst offset val =
    if ltb (offset + 3) (length dst) then some (write32 dst offset val) else none

-- bestRefSize and bestRefOffset; the offset is not looked at before it is set.
pub record Best : Type 0 where
  pub size : ℕ
  pub offset : ℕ

-- The members of the outer loop's state.
pub record Encoder : Type 0 where
  pub dst : List ℕ
  pub src_offset : ℕ
  pub dst_offset : ℕ
  pub group_header_offset : ℕ
  pub index : ℕ

-- The loop that compares the bytes at two offsets, for `rounds` more rounds.
unfoldable pub match_from : List ℕ → ℕ → ℕ → ℕ → ℕ → Option ℕ
match_from src zero s r k = some k
match_from src (suc rounds) s r k = bind (get_elem? src (s + k)) (λ x.
    bind (get_elem? src (r + k))
      (λ y. if x == y then match_from src rounds s r (k + 1) else some k))

-- The loop over refOffset, for `rounds` more rounds.
unfoldable pub find_from : List ℕ → ℕ → ℕ → ℕ → ℕ → Best → Option Best
find_from src max_ref_size zero s r best = some best
find_from src max_ref_size (suc rounds) s r best =
    if ltb best.size max_ref_size
    then bind (get_elem? src (s + best.size)) (λ x. bind (get_elem? src (r + best.size)) (λ y.
      if not (x == y)
      then find_from src max_ref_size rounds s (r + 1) best
      else bind (match_from src max_ref_size s r 0) (λ size.
        if ltb best.size size
        then if size == 0x111
          then some (record { size = size; offset = r })
          else find_from src max_ref_size rounds s (r + 1) (record { size = size; offset = r })
        else find_from src max_ref_size rounds s (r + 1) best)))
    else some best

module _ (src : List ℕ) (src_size dst_size : ℕ) where
  pub find_best : Encoder → Option Best
  find_best e =
      let first = e.src_offset - 0x1000 in
      find_from src (min (min 0x111 (src_size - e.src_offset)) (dst_size - e.dst_offset))
        (e.src_offset - first) e.src_offset first (record { size = 1; offset = 0 })

  -- A new group header at the start of a group; none inside is a return of 0.
  pub open_group : Encoder → Option (Option Encoder)
  open_group e =
      if e.index == 0
      then bind (store e.dst e.dst_offset 0) (λ dst.
        let d = add32 e.dst_offset 1 in
        if d == dst_size
        then some none
        else some
            (some (record e { dst = dst; group_header_offset = e.dst_offset; dst_offset = d })))
      else some (some e)

  -- A literal. The bit of the header is not set yet, so `|=` adds it.
  pub emit_literal : Encoder → Option (Option Encoder)
  emit_literal e = bind (get_elem? e.dst e.group_header_offset) (λ header.
      bind (store e.dst e.group_header_offset (header + 2 ^ (7 - e.index))) (λ dst.
        bind (get_elem? src e.src_offset) (λ val. bind (store dst e.dst_offset val) (λ dst'. some (
          some (record e {
            dst = dst';
            dst_offset = add32 e.dst_offset 1;
            src_offset = add32 e.src_offset 1;
          }))))))

  pub emit_ref : Best → Encoder → Option (Option Encoder)
  emit_ref best e =
      let distance = e.src_offset - best.offset - 1 in
      let s = add32 e.src_offset best.size in
      let d = add32 e.dst_offset 2 in
      if ltb dst_size d
      then some none
      else if ltb best.size 0x12
      then bind (store16 e.dst e.dst_offset (u16 ((best.size - 2) * 2 ^ 12 + distance)))
          (λ dst. some (some (record e { dst = dst; dst_offset = d; src_offset = s })))
      else bind (store16 e.dst e.dst_offset (u16 distance)) (λ dst.
        if ltb dst_size (add32 d 1)
        then some none
        else bind (store dst d (best.size - 0x12))
            (λ dst'. some (some (record e { dst = dst'; dst_offset = add32 d 1; src_offset = s }))))

  -- The body of the outer loop.
  pub encode_step : Encoder → Option (Option Encoder)
  encode_step e = elim (open_group e) [
    | none ↦ none
    | some none ↦ some none
    | some (some e') ↦ bind (find_best e') (λ best.
        elim (if ltb best.size 3 then emit_literal e' else emit_ref best e') [
          | none ↦ none
          | some none ↦ some none
          | some (some e'') ↦ some (some (record e'' { index = (e''.index + 1) % 8 }))
        ])
  ]

  -- The outer loop, with fuel.
  pub encode_loop : ℕ → Encoder → Option (Option Encoder)
  encode_loop zero e = none
  encode_loop (suc fuel) e =
      if ltb e.src_offset src_size && ltb e.dst_offset dst_size
      then elim (encode_step e) [
        | none ↦ none
        | some none ↦ some none
        | some (some e') ↦ encode_loop fuel e'
      ]
      else some (some e)

  -- Yaz_encode: the size and the destination, or none inside where it returns 0. The fuel is one
  -- more than the bytes of the source.
  pub encode : List ℕ → Option (Option (ℕ × List ℕ))
  encode dst =
      if ltb dst_size 0x10
      then some none
      else bind (store32 dst 0x0 0x59617a31) (λ dst0. bind (store32 dst0 0x4 src_size) (λ dst1.
        bind (store32 dst1 0x8 0x0) (λ dst2. bind (store32 dst2 0xc 0x0) (λ dst3.
          elim (encode_loop (src_size + 1) (record {
            dst = dst3;
            src_offset = 0;
            dst_offset = 0x10;
            group_header_offset = 0;
            index = 0;
          })) [
            | none ↦ none
            | some none ↦ some none
            | some (some e) ↦
                some (if e.src_offset == src_size then some (e.dst_offset, e.dst) else none)
          ]))))
