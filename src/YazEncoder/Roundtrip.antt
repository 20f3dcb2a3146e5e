-- ===== src/YazEncoder/Roundtrip.antt =====
-- Yaz_encode and YAZDecoder::Decode where the destination is large enough.
use mkw_sp.Base.{
  ℕ, ◌+◌, ◌*◌, ◌^◌, ◌≤◌, ◌<◌, ◌≡◌, inl, List, some, length, take, get_or, arith, refl, ◌∙◌, eq→==,
  ap,
}
use mkw_sp.Decoder.Yaz.{decode_static}
use mkw_sp.YazEncoder.{Encoder, encode}
use mkw_sp.YazEncoder.Bounds.{Inside}
use mkw_sp.YazEncoder.Fits.{encode_loop-Fits}
use mkw_sp.YazEncoder.Header.{length-prefix, initial, last, encode_lem}
use mkw_sp.YazEncoder.Decoded.{decode-encode}

last-end :
    (src_size : ℕ) (e : Encoder)
    → e.src_offset ≡ src_size
    → last src_size e ≡ some (e.dst_offset, e.dst)
unfolding last
last-end src_size e h = rw (eq→== _ _ h) refl

-- Yaz_encode does not give up, if there is room for nine bits for each byte of the source and 20
-- bytes more.
encode-some :
    (src dst : List ℕ) (src_size dst_size : ℕ)
    → src_size ≤ length src
    → dst_size ≤ length dst
    → src_size < 2 ^ 31
    → dst_size < 2 ^ 31
    → 9 * src_size + 160 ≤ 8 * dst_size
    → (e : Encoder) × (encode src src_size dst_size dst ≡ some (some (e.dst_offset, e.dst)))
unfolding initial
encode-some src dst src_size dst_size a b c d roomy =
    let inside : Inside src src_size dst_size (length dst) a b c d (initial dst src_size) = record {
      long = length-prefix dst src_size;
      at_src = omega arith;
      at_dst = (omega arith, omega arith);
      header = inl refl;
    } in
    let (t, runs, at_end) =
      encode_loop-Fits src src_size dst_size (length dst) a b c d roomy (src_size + 1)
        (initial dst src_size) inside (omega arith, omega arith) (omega arith) in
    (
      t,
      encode_lem src dst src_size dst_size (omega arith) (omega arith)
          ∙ rw runs (ap some (last-end src_size t at_end)),
    )

-- For a source of bytes that is not empty, a destination with room for nine bits for each byte of
-- it and 20 bytes more, sizes of less than 2 GiB that the buffers have, and an output with room for
-- the source: Yaz_encode gives a size, the static Decode accepts that many bytes of what it wrote
-- and gives the size of the source, and the output then starts with the source.
pub decode-encode_total :
    (src dst out : List ℕ) (src_size dst_size out_size : ℕ)
    → src_size ≤ length src
    → dst_size ≤ length dst
    → src_size < 2 ^ 31
    → dst_size < 2 ^ 31
    → 9 * src_size + 160 ≤ 8 * dst_size
    → ((j : ℕ) → get_or src j 0 < 256)
    → 0 < src_size
    → src_size ≤ out_size
    → src_size ≤ length out
    → (n : ℕ) × (encoded : List ℕ) × (out' : List ℕ) × (encode src src_size dst_size dst
        ≡ some (some (n, encoded)))
      × (decode_static (take n encoded) out out_size ≡ some (some (src_size, out')))
      × (take src_size out' ≡ take src_size src)
decode-encode_total src dst out src_size dst_size out_size a b c d roomy bytes some_bytes fits
      in_out =
    let (e, runs) = encode-some src dst src_size dst_size a b c d roomy in
    let (out', decoded, same) =
      decode-encode src dst out src_size dst_size out_size e.dst_offset e.dst a b c d bytes
        some_bytes fits in_out runs in
    (e.dst_offset, e.dst, out', runs, decoded, same)
