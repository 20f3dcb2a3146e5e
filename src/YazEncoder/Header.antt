-- ===== src/YazEncoder/Header.antt =====
-- Yaz_encode: the header, the state at the first round, and the end.
use mathlib.Core.Option.{some-injective}
use mkw_sp.Base.{
  ℕ, ◌+◌, ◌^◌, ◌≤◌, ◌<◌, ◌≡◌, inl, inr, List, Option, none, some, length, get_or, arith, refl, ap,
  ◌∙◌, Bool-cases, ltb, ltb→le, ◌==◌, ==→eq, if◌then◌else◌, le→ltb,
}
use mkw_sp.Bytes.{
  read32, write32, length-write32, read32-write32, read32-write32_later, get_or-write32,
  get_or-write32_byte,
}
use mkw_sp.YazEncoder.{Encoder, encode, encode_loop, store32}

-- The destination after the header, and the state at the first round.
unfoldable pub prefix : List ℕ → ℕ → List ℕ
prefix dst src_size =
    write32 (write32 (write32 (write32 dst 0x0 0x59617a31) 0x4 src_size) 0x8 0x0) 0xc 0x0

pub length-prefix : (dst : List ℕ) (src_size : ℕ) → length (prefix dst src_size) ≡ length dst
unfolding prefix
length-prefix dst src_size =
    length-write32 _ 0xc 0x0
    ∙ length-write32 _ 0x8 0x0
    ∙ length-write32 _ 0x4 src_size
    ∙ length-write32 dst 0x0 0x59617a31

pub prefix-words :
    (dst : List ℕ) (src_size : ℕ)
    → 16 ≤ length dst
    → src_size < 2 ^ 32
    → (read32 (prefix dst src_size) 0 ≡ 0x59617a31) × (read32 (prefix dst src_size) 4 ≡ src_size)
unfolding prefix
prefix-words dst src_size l small = (
  read32-write32_later _ 0 0xc 0 (omega arith)
      ∙ read32-write32_later _ 0 0x8 0 (omega arith)
      ∙ read32-write32_later _ 0 0x4 src_size (omega arith)
      ∙ read32-write32 dst 0 0x59617a31 (omega arith) (omega arith),
  read32-write32_later _ 4 0xc 0 (omega arith)
      ∙ read32-write32_later _ 4 0x8 0 (omega arith)
      ∙ read32-write32 (write32 dst 0 0x59617a31) 4 src_size
          (omega (arith, length-write32 dst 0 0x59617a31)) small,
)

pub prefix-byte :
    (dst : List ℕ) (src_size : ℕ) → 16 ≤ length dst → get_or (prefix dst src_size) 0 0 < 256
unfolding prefix
prefix-byte dst src_size l = omega (
  arith,
  get_or-write32 (write32 (write32 (write32 dst 0x0 0x59617a31) 0x4 src_size) 0x8 0x0) 0xc 0x0 0,
  get_or-write32 (write32 (write32 dst 0x0 0x59617a31) 0x4 src_size) 0x8 0x0 0,
  get_or-write32 (write32 dst 0x0 0x59617a31) 0x4 src_size 0,
  get_or-write32_byte dst 0 0x59617a31,
)

unfoldable pub initial : List ℕ → ℕ → Encoder
initial dst src_size = record {
  dst = prefix dst src_size;
  src_offset = 0;
  dst_offset = 0x10;
  group_header_offset = 0;
  index = 0;
}

pub store32_lem :
    (dst : List ℕ) (offset val : ℕ)
    → offset + 3 < length dst
    → store32 dst offset val ≡ some (write32 dst offset val)
unfolding store32
store32_lem dst offset val h = ground arith

-- The end of Yaz_encode: all of the source was read.
unfoldable pub last : ℕ → Encoder → Option (ℕ × List ℕ)
last src_size e = if e.src_offset == src_size then some (e.dst_offset, e.dst) else none

-- Yaz_encode for a destination that has room for the header.
pub encode_lem :
    (src dst : List ℕ) (src_size dst_size : ℕ)
    → 16 ≤ dst_size
    → 16 ≤ length dst
    → encode src src_size dst_size dst
      ≡ elim (encode_loop src src_size dst_size (src_size + 1) (initial dst src_size)) [
        | none ↦ none
        | some none ↦ some none
        | some (some e) ↦ some (last src_size e)
      ]
unfolding encode initial prefix last
encode_lem src dst src_size dst_size a b =
    let l0 = length-write32 dst 0x0 0x59617a31 in
    let l1 = length-write32 (write32 dst 0x0 0x59617a31) 0x4 src_size in
    let l2 = length-write32 (write32 (write32 dst 0x0 0x59617a31) 0x4 src_size) 0x8 0x0 in
    rw
      (
        le→ltb dst_size 0x10 a,
        store32_lem dst 0x0 0x59617a31 (omega arith),
        store32_lem (write32 dst 0x0 0x59617a31) 0x4 src_size (omega (arith, l0)),
        store32_lem (write32 (write32 dst 0x0 0x59617a31) 0x4 src_size) 0x8 0x0
            (omega (arith, l0, l1)),
        store32_lem (write32 (write32 (write32 dst 0x0 0x59617a31) 0x4 src_size) 0x8 0x0) 0xc 0x0
            (omega (arith, l0, l1, l2)),
      )
      refl

pub encode-room :
    (src dst : List ℕ) (src_size dst_size : ℕ) (r : ℕ × List ℕ)
    → encode src src_size dst_size dst ≡ some (some r)
    → 16 ≤ dst_size
unfolding encode
encode-room src dst src_size dst_size r e = elim (Bool-cases (ltb dst_size 0x10)) [
  | inl y ↦ cc (rw (encode, y) at e)
  | inr n ↦ ltb→le _ _ n
]

pub last-some :
    (src_size n : ℕ) (encoded : List ℕ) (e : Encoder)
    → last src_size e ≡ some (n, encoded)
    → (e.src_offset ≡ src_size) × (e.dst_offset ≡ n) × (e.dst ≡ encoded)
unfolding last
last-some src_size n encoded e f = elim (Bool-cases (e.src_offset == src_size)) [
  | inl y ↦
      let f' = some-injective (e.dst_offset, e.dst) (n, encoded) (rw y at f) in
      (==→eq _ _ y, ap (λ q. q.0) f', ap (λ q. q.1) f')
  | inr z ↦ cc (rw z at f)
]

pub finish :
    (src_size n : ℕ) (encoded : List ℕ) (o : Option (Option Encoder))
    → ◌≡◌ {A = Option (Option (ℕ × List ℕ))}
        (elim o [ none ↦ none | some none ↦ some none | some (some e) ↦ some (last src_size e) ])
        (some (some (n, encoded)))
    → (e : Encoder) × (o ≡ some (some e)) × (last src_size e ≡ some (n, encoded))
finish src_size n encoded none f = cc
finish src_size n encoded (some none) f = cc
finish src_size n encoded (some (some t)) f = (t, refl, some-injective _ _ f)
