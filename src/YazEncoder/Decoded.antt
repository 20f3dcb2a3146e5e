-- ===== src/YazEncoder/Decoded.antt =====
-- Yaz_encode and YAZDecoder::Decode: what the one writes the other reads.
use mkw_sp.Base.{
  ℕ, ◌+◌, ◌^◌, ◌≤◌, ◌<◌, ◌≡◌, min, inl, List, some, true, length, take, drop, get_or, arith, refl,
  ap, sym, subst, ◌∙◌, get_or-take, length-take, take_ext,
}
use mkw_sp.Bytes.{read32, read32_ext}
use mkw_sp.Decoder.{decode}
use mkw_sp.Decoder.Runs.{Runs, here, decode-Runs}
use mkw_sp.Decoder.Yaz.{YazDecoder, yaz, start, decode_static, get_decoded_size}
use mkw_sp.Decoder.Yaz.Bounds.{yaz_laws}
use mkw_sp.Decoder.Yaz.Static.{get_decoded_size-magic, decode_static_accepts}
use mkw_sp.Decoder.Yaz.Items.{Between, start-Between, start-IsValid, start-room, Between-done}
use mkw_sp.YazEncoder.{Encoder, encode}
use mkw_sp.YazEncoder.Header.{
  prefix, length-prefix, prefix-words, prefix-byte, initial, encode_lem, encode-room, last-some,
  finish,
}
use mkw_sp.YazEncoder.Written.{written, written-nil, written-all}
use mkw_sp.YazEncoder.Stream.{Encodes, header, SameStart}
use mkw_sp.YazEncoder.Rounds.{encode_loop-Good}

module _ (src out : List ℕ) (src_size dst_size room : ℕ) (in_src : src_size ≤ length src)
    (in_dst : dst_size ≤ room) (small_src : src_size < 2 ^ 31) (small_dst : dst_size < 2 ^ 31)
    (bytes : (j : ℕ) → get_or src j 0 < 256) (some_bytes : 0 < src_size)
    (in_out : src_size ≤ length out) where
  abbrev Good : List ℕ → Encoder → Type 0
  Good first e =
      Encodes src src_size dst_size room in_src in_dst small_src small_dst (start out src_size)
        first e

  initial-Good :
      (dst : List ℕ)
      → length dst ≡ room
      → 16 ≤ dst_size
      → Good (prefix dst src_size) (initial dst src_size)
  unfolding initial
  initial-Good dst l big = record {
    inside = record {
      long = length-prefix dst src_size ∙ l;
      at_src = omega arith;
      at_dst = (omega arith, omega arith);
      header = inl refl;
    };
    index_in = omega arith;
    above = inl refl;
    clear = (prefix-byte dst src_size (omega (arith, l)), omega arith);
    same_start = λ j k. refl;
    takes = λ h lt agrees. (
      start out src_size,
      subst (Runs yaz (start out src_size) (start out src_size))
          (sym (written-nil (prefix dst src_size) 0 h)) here,
      start-Between src src_size small_src out in_out h,
    );
  }

  -- The bytes that were written, read from the end of the encoder's run.
  end-Decoded :
      (first : List ℕ) (e : Encoder)
      → Good first e
      → e.src_offset ≡ src_size
      → (d : YazDecoder) × (decode yaz (start out src_size) (drop 16 (take e.dst_offset e.dst))
          ≡ some (true, d))
        × Between src src_size small_src src_size e.index (header e) d
  end-Decoded first e v at_end =
      let (d, r, b) = v.takes (header e) v.clear.0 refl in
      let whole : written e.dst e.group_header_offset e.dst_offset (header e)
          ≡ drop 16 (take e.dst_offset e.dst) =
        written-all e.dst e.group_header_offset e.dst_offset in
      let b' = subst (λ k. Between src src_size small_src k e.index (header e) d) at_end b in
      (
        d,
        decode-Runs yaz_laws (start out src_size) d _
            (start-IsValid src src_size small_src out in_out) (start-room out src_size some_bytes).0
            (start-room out src_size some_bytes).1 (subst (Runs yaz d (start out src_size)) whole r)
            (Between-done src src_size small_src d b') (rw b'.state refl),
        b',
      )

  size-encoded :
      (dst encoded : List ℕ) (n : ℕ)
      → 16 ≤ length dst
      → 16 ≤ n
      → n ≤ length encoded
      → SameStart encoded (prefix dst src_size)
      → get_decoded_size (take n encoded) ≡ some src_size
  size-encoded dst encoded n l a b same =
      let (magic, size) = prefix-words dst src_size l (omega arith) in
      let word : (i : ℕ) → i + 4 ≤ 16 → read32 (take n encoded) i ≡ read32 (prefix dst src_size) i =
        λ i k.
          read32_ext _ _ i
            (λ j m. get_or-take n encoded (i + j) 0 (omega arith) ∙ same (i + j) (omega arith)) in
      get_decoded_size-magic (take n encoded) (omega (arith, length-take n encoded))
        (word 0 (omega arith) ∙ magic)
      ∙ ap some (word 4 (omega arith) ∙ size)

-- What Yaz_encode gives, Decode reads back: for a source of bytes that is not empty, sizes of less
-- than 2 GiB that the buffers have, and an output with room for the source, the static Decode
-- accepts the bytes that Yaz_encode says it wrote, gives the size of the source, and the output
-- then starts with the source.
pub decode-encode :
    (src dst out : List ℕ) (src_size dst_size out_size n : ℕ) (encoded : List ℕ)
    → src_size ≤ length src
    → dst_size ≤ length dst
    → src_size < 2 ^ 31
    → dst_size < 2 ^ 31
    → ((j : ℕ) → get_or src j 0 < 256)
    → 0 < src_size
    → src_size ≤ out_size
    → src_size ≤ length out
    → encode src src_size dst_size dst ≡ some (some (n, encoded))
    → (out' : List ℕ) × (decode_static (take n encoded) out out_size ≡ some (some (src_size, out')))
      × (take src_size out' ≡ take src_size src)
decode-encode src dst out src_size dst_size out_size n encoded in_src in_dst small_src small_dst
      bytes some_bytes fits in_out e =
    let big : 16 ≤ dst_size = encode-room src dst src_size dst_size _ e in
    let run = sym (encode_lem src dst src_size dst_size big (omega arith)) ∙ e in
    let (t, loop, ends) = finish src_size n encoded _ run in
    let (at_end, n_e, dst_e) = last-some src_size n encoded t ends in
    let v =
      encode_loop-Good src src_size dst_size (length dst) in_src in_dst small_src small_dst
        (start out src_size) (prefix dst src_size) bytes (src_size + 1) (initial dst src_size) t
        (initial-Good src out src_size dst_size (length dst) in_src in_dst small_src small_dst bytes
          some_bytes in_out dst refl big)
        loop in
    let (d, runs, b) =
      end-Decoded src out src_size dst_size (length dst) in_src in_dst small_src small_dst bytes
        some_bytes in_out (prefix dst src_size) t v at_end in
    let size =
      size-encoded src out src_size dst_size (length dst) in_src in_dst small_src small_dst bytes
        some_bytes in_out dst encoded n (omega arith) (omega (arith, n_e, v.inside.at_dst))
        (omega (arith, n_e, v.inside.at_dst, ap length dst_e, v.inside.long))
        (subst (λ k. SameStart k (prefix dst src_size)) dst_e v.same_start) in
    let runs' : decode yaz (start out (min out_size src_size)) (drop 16 (take n encoded))
        ≡ some (true, d) =
      ap (λ k. decode yaz (start out k) (drop 16 (take n encoded))) {y = src_size} (omega arith)
      ∙ ap (λ k. decode yaz (start out src_size) (drop 16 (take k encoded))) (sym n_e)
      ∙ ap (λ k. decode yaz (start out src_size) (drop 16 (take t.dst_offset k))) (sym dst_e)
      ∙ runs in
    (
      d.dst,
      decode_static_accepts (take n encoded) out out_size src_size d size runs'
            (Between-done src src_size small_src d b)
          ∙ ap (λ k. some (some (k, d.dst))) {y = src_size} (omega arith),
      take_ext src_size d.dst src 0 b.holds.storage in_src b.holds.same,
    )
