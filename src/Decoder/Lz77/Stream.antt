-- ===== src/Decoder/Lz77/Stream.antt =====
-- LZ77Decoder as its callers use it: DecompLoader.cc feeds a file to `decode` in chunks.
use mkw_sp.Base.{
  ◌≤◌, length-append, Bool-cases, inl, inr, ℕ, List, ◌≡◌, ◌^◌, ◌++◌, true, false, some, Bool, arith,
  length, not, ltb, if◌then◌else◌, ◌/◌, ◌==◌,
}
use mkw_sp.Bytes.{read32_le-append, read32_le, read32_le-lt}
use mkw_sp.Decoder.{decode}
use mkw_sp.Decoder.Laws.{Ended, decode_total, decode-append}
use mkw_sp.Decoder.Lz77.{Lz77Decoder, construct, lz77, done}
use mkw_sp.Decoder.Lz77.Bounds.{IsValid, lz77_laws}

-- If the heap's array has the length asked for, the constructor makes a decoder that satisfies the
-- invariant, whatever the bytes of the source, and that is ok exactly if the source has the header
-- that it announces: 8 bytes if the 24-bit size is 0, and else 4.
pub lz77-construct-IsValid :
    (alloc : ℕ → List ℕ) (src : List ℕ)
    → ((n : ℕ) → length (alloc n) ≡ n)
    → let d = construct alloc src in
      IsValid d × (d.is_ok ≡ not (ltb (length src) (if read32_le src 0 / 2 ^ 8 == 0 then 8 else 4)))
unfolding construct
lz77-construct-IsValid alloc src h = ground (
  arith,
  h (read32_le src 4),
  h (read32_le src 0 / 2 ^ 8),
  read32_le-lt src 4,
  read32_le-lt src 0,
)

pub lz77-construct-header :
    (alloc : ℕ → List ℕ) (src : List ℕ)
    → ((n : ℕ) → length (alloc n) ≡ n)
    → (construct alloc src).is_ok ≡ true
    → (construct alloc src).header_size ≤ length src
unfolding construct
lz77-construct-header alloc src h k = ground (arith, k)

-- The constructor looks at the header only.
pub lz77-construct-append :
    (alloc : ℕ → List ℕ) (src more : List ℕ)
    → ((n : ℕ) → length (alloc n) ≡ n)
    → (construct alloc src).is_ok ≡ true
    → construct alloc (src ++ more) ≡ construct alloc src
unfolding construct
lz77-construct-append alloc src more h k = elim (Bool-cases (ltb (length src) 4)) [
  | inl y ↦ cc (rw y at k)
  | inr y ↦ elim (Bool-cases (read32_le src 0 / 2 ^ 8 == 0)) [
    | inl z ↦ elim (Bool-cases (ltb (length src) 8)) [
      | inl w ↦ cc (rw (y, z, w) at k)
      | inr w ↦ ground (
        arith,
        length-append src more,
        read32_le-append src more 0 (ground (arith, w)),
        read32_le-append src more 4 (ground (arith, w)),
      )
    ]
    | inr z ↦
        ground (arith, length-append src more, read32_le-append src more 0 (ground (arith, y)))
  ]
]

-- On a decoder that is valid, ok and not done, `decode` reads and writes inside its buffers for any
-- source, and returns: true and still valid, either done or with room left and waiting for a byte;
-- or false, and then it is no longer ok.
pub lz77-decode_total :
    (d : Lz77Decoder) (src : List ℕ)
    → IsValid d
    → d.is_ok ≡ true
    → done d ≡ false
    → (r : Bool × Lz77Decoder) × (decode lz77 d src ≡ some r) × Ended lz77_laws r
lz77-decode_total d src v o f = decode_total lz77_laws d src v o f

-- Chunks do not matter: if a valid decoder that is ok and not done accepts `a` and is still not
-- done, then to give it `a ++ b` at once is to give the resulting decoder `b`.
pub lz77-decode-append :
    (d t : Lz77Decoder) (a b : List ℕ)
    → IsValid d
    → d.is_ok ≡ true
    → done d ≡ false
    → decode lz77 d a ≡ some (true, t)
    → done t ≡ false
    → decode lz77 d (a ++ b) ≡ decode lz77 t b
lz77-decode-append d t a b v o f e ft = decode-append lz77_laws d t a b v o f e ft
