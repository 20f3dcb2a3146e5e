-- ===== src/Ghost/Unpack.antt =====
-- Decompress of GhostFile.cc on a file that IsValid accepts.
use mkw_sp.Base.{
  get_or, length-set, length-append, ℕ, ◌+◌, ◌-◌, ◌/◌, ◌%◌, ◌^◌, ◌≤◌, ◌<◌, ◌≡◌, List, ◌++◌, Option,
  none, some, true, false, ◌==◌, length, take, set, replicate, arith, refl, Bool-cases, inl, inr,
  length-replicate, ap, sym, ◌∙◌, subst, get_or-append_left, get_or-set_self,
}
use mathlib.Core.Option.{some-injective}
use mkw_sp.Base.Words.{u8}
use mkw_sp.Bytes.{byte_at, read32, write32, length-write32, get_or-write32}
use mkw_sp.Decoder.Yaz.{get_decoded_size}
use mkw_sp.Decoder.Yaz.Static.{decode_static_total, decode_static-length}
use mkw_sp.Ghost.Header.{Platform, header_size, is_compressed_at}
use mkw_sp.Ghost.Raw.{seal, unpack, bind, slice, is_valid, decompress}
use mkw_sp.Ghost.Steps.{get_or-slice, length-slice, Returns, slice_total, load32_total, load32_lem}
use mkw_sp.Ghost.Bounds.{is_size_valid-fits, is_size_valid-plain}
use mkw_sp.Ghost.Accepted.{is_valid-Accepted, get_decoded_size-slice, inputs-Stream, Unwrapped}

length-seal :
    (p : Platform) (header dst : List ℕ) (size : ℕ) (r : Option (ℕ × List ℕ))
    → length header ≡ header_size
    → ((n : ℕ) (bytes : List ℕ) → r ≡ some (n, bytes) → length bytes ≡ 0x2800 - header_size)
    → seal p header size r ≡ some dst
    → length dst ≡ 0x2800
unfolding seal
length-seal p header dst size none a b e = cc
length-seal p header dst size (some (n, bytes)) a b e =
    let head = set header 0x0c (byte_at header 0x0c - 2 ^ 3) in
    let made = head ++ bytes in
    ground (
      arith,
      e,
      b n bytes refl,
      length-set header 0x0c (byte_at header 0x0c - 2 ^ 3),
      a,
      length-append head bytes,
      length-write32 made (0x2800 - 4) (p.crc32 (take (0x2800 - 4) made)),
    )

seal-plain :
    (p : Platform) (header dst : List ℕ) (size : ℕ) (r : Option (ℕ × List ℕ))
    → length header ≡ header_size
    → is_compressed_at header ≡ true
    → seal p header size r ≡ some dst
    → is_compressed_at dst ≡ false
unfolding seal is_compressed_at
seal-plain p header dst size none a c e = cc
seal-plain p header dst size (some (n, bytes)) a c e =
    let cleared = byte_at header 0x0c - 2 ^ 3 in
    let head = set header 0x0c cleared in
    let made = head ++ bytes in
    let crc = p.crc32 (take (0x2800 - 4) made) in
    let byte : get_or (write32 made (0x2800 - 4) crc) 0x0c 0 ≡ cleared =
      get_or-write32 made (0x2800 - 4) crc 0x0c (omega arith)
      ∙ get_or-append_left head bytes 0x0c 0 (omega (arith, a, length-set header 0x0c cleared))
      ∙ get_or-set_self header 0x0c cleared 0 (omega (arith, a)) in
    elim (Bool-cases (n == size)) [
      | inl y ↦
          let same : write32 made (0x2800 - 4) crc ≡ dst = some-injective _ _ (rw (seal, y) at e) in
          subst (λ x. is_compressed_at x ≡ false) same (ground (arith, byte, c))
      | inr y ↦ cc (rw (seal, y) at e)
    ]

-- A result that, if it is a ghost, has 0x2800 bytes and is not compressed.
abbrev pub Unpacked : Option (Option (List ℕ)) → Type 0
Unpacked o =
    (r : Option (List ℕ)) × (o ≡ some r)
    × ((dst : List ℕ) → r ≡ some dst → (length dst ≡ 0x2800) × (is_compressed_at dst ≡ false))

pub bind-Unpacked :
    {A : Type 0} (o : Option A) (k : A → Option (Option (List ℕ)))
    → Returns o
    → ((a : A) → o ≡ some a → Unpacked (k a))
    → Unpacked (bind o k)
bind-Unpacked none k (a, e) h = cc
bind-Unpacked (some a) k r h = h a refl

unpack-Unpacked :
    (p : Platform) (header stream : List ℕ) (size : ℕ)
    → length header ≡ header_size
    → is_compressed_at header ≡ true
    → get_decoded_size stream ≡ some size
    → 0 < size
    → size ≤ 0x2800 - header_size
    → Unpacked (unpack p header stream)
unfolding unpack
unpack-Unpacked p header stream size a c e n l =
    let room = replicate (0x2800 - header_size) 0 in
    let same : length room ≡ 0x2800 - header_size =
      length-replicate {A = ℕ} (0x2800 - header_size) 0 in
    let (r, er) = decode_static_total stream room size size e n n (omega (arith, same)) in
    (
      seal p header size r,
      rw (unpack, e, er) refl,
      λ dst d. (
        length-seal p header dst size r a
            (λ m bytes f. decode_static-length stream room size m bytes (er ∙ ap some f) ∙ same) d,
        seal-plain p header dst size r a c d,
      ),
    )

pub is_compressed_at-slice :
    (raw bytes : List ℕ) (n : ℕ)
    → slice raw 0 n ≡ some bytes
    → 0x0c < n
    → is_compressed_at bytes ≡ is_compressed_at raw
unfolding is_compressed_at
is_compressed_at-slice raw bytes n e l =
    ap (λ b. u8 b / 2 ^ 3 % 2 == 1) (get_or-slice raw bytes 0 n 0x0c 0x0c e l refl)

-- Decompress reads and writes inside its buffers for a file that IsValid accepts, and what it
-- makes has 0x2800 bytes and is not compressed, if neither of the two sizes wraps.
pub decompress_total :
    (p : Platform) (raw : List ℕ) (size : ℕ)
    → size ≤ length raw
    → Unwrapped raw
    → is_valid p raw size ≡ some true
    → Unpacked (decompress p raw)
unfolding decompress
decompress_total p raw size l u v =
    let a = is_valid-Accepted p raw size v in
    elim (Bool-cases (is_compressed_at raw)) [
      | inl c ↦
          rw (decompress, c)
            (let st = inputs-Stream raw (rw c at a.inputs) in
              let fits = is_size_valid-fits raw size u.source (rw c at a.sized) in
              let same =
                get_decoded_size-slice raw st.bytes (header_size + 4) (read32 raw header_size)
                  st.size st.sliced fits.0 st.sized in
              bind-Unpacked _ _ (slice_total raw 0 header_size (omega (arith, a.long)))
                (λ header eh.
                  bind-Unpacked _ _ (load32_total raw header_size (omega (arith, fits.1))) (λ n en.
                    let en' = (load32_lem raw header_size n en).0 in
                    bind-Unpacked _ _
                      (slice_total raw (header_size + 4) n (omega (arith, fits.1, en')))
                      (λ stream es.
                        let one : stream ≡ st.bytes =
                          some-injective _ _
                            (sym es ∙ ap (slice raw (header_size + 4)) en' ∙ st.sliced) in
                        unpack-Unpacked p header stream st.size
                          (length-slice raw header 0 header_size eh)
                          (is_compressed_at-slice raw header header_size eh (omega arith) ∙ c)
                          (ap get_decoded_size one ∙ st.sized) (omega (arith, st.some_bytes))
                          (omega (arith, same, st.fits, u.decoded))))))
      | inr c ↦
          rw (decompress, c)
            (bind-Unpacked _ _
              (slice_total raw 0 0x2800
                (omega (arith, is_size_valid-plain raw size (rw c at a.sized))))
              (λ bytes e. (
                some bytes,
                refl,
                λ dst d.
                    subst (λ x. (length x ≡ 0x2800) × (is_compressed_at x ≡ false))
                      (some-injective _ _ d)
                      (
                        length-slice raw bytes 0 0x2800 e,
                        is_compressed_at-slice raw bytes 0x2800 e (omega arith) ∙ c,
                      ),
              )))
    ]
