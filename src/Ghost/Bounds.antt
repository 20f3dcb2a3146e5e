-- ===== src/Ghost/Bounds.antt =====
-- GhostFile.cc reads inside its buffer, as long as no sum of sizes wraps.
use mkw_sp.Base.{
  ℕ, ◌+◌, ◌^◌, ◌≤◌, ◌<◌, ◌≡◌, List, none, some, Bool, true, false, not, ltb, leb, ◌==◌, ◌&&◌,
  length, replicate, arith, refl, Option-cases, inl, inr, ◌∙◌, sym,
}
use mkw_sp.Base.Words.{u32, add32}
use mkw_sp.Bytes.{read32}
use mkw_sp.Decoder.Yaz.{get_decoded_size}
use mkw_sp.Decoder.Yaz.Static.{decode_static_total}
use mkw_sp.Ghost.Header.{
  Platform, RawGhostHeader, header_size, header_of, is_compressed_at, is_header_valid,
  are_laps_valid, is_mii_valid,
}
use mkw_sp.Ghost.Raw.{
  load32, load_header, main_size, is_size_valid, decode_inputs_header, inputs_header,
  are_inputs_valid, is_crc_valid, footer_footer, is_sp_footer_valid, is_footer_valid, is_end_valid,
  is_valid, check_size, ctgp_magic, sp_magic,
}
use mkw_sp.Ghost.Steps.{
  Returns, bind_total, and_then_total, tested_total, if_total, slice_total, load32_total,
  load32_lem,
}

is_crc_valid_total :
    (p : Platform) (raw : List ℕ) (end : ℕ)
    → 4 ≤ end
    → end < 2 ^ 32
    → end ≤ length raw
    → Returns (is_crc_valid p raw end)
unfolding is_crc_valid
is_crc_valid_total p raw end a b c =
    bind_total _ _ (load32_total raw _ (omega arith))
      (λ crc e. bind_total _ _ (slice_total raw 0 _ (omega arith)) (λ bytes e'. (_, refl)))

is_size_valid_total :
    (raw : List ℕ) (size : ℕ) (c : Bool) → size ≤ length raw → Returns (is_size_valid raw size c)
unfolding is_size_valid
is_size_valid_total raw size true h =
    if_total (ltb size (header_size + 4)) _ _ (λ e. (false, refl))
      (λ e. bind_total _ _ (load32_total raw header_size (ground arith)) (λ n e'. (_, refl)))
is_size_valid_total raw size false h = (_, refl)

-- A compressed file whose size is valid has its main part inside.
pub is_size_valid-fits :
    (raw : List ℕ) (size : ℕ)
    → read32 raw header_size + 0x90 < 2 ^ 32
    → is_size_valid raw size true ≡ some true
    → (0x10 ≤ read32 raw header_size) × (0x90 + read32 raw header_size ≤ size)
unfolding is_size_valid load32
is_size_valid-fits raw size w e = (ground (arith, e), ground (arith, e))

pub is_size_valid-plain :
    (raw : List ℕ) (size : ℕ) → is_size_valid raw size false ≡ some true → size ≡ 0x2800
unfolding is_size_valid
is_size_valid-plain raw size e = ground (arith, e)

decode_inputs_header_total : (src : List ℕ) → Returns (decode_inputs_header src)
unfolding decode_inputs_header
decode_inputs_header_total src = elim (Option-cases (get_decoded_size src)) [
  | inl e ↦ (none, rw (decode_inputs_header, e) refl)
  | inr (size, e) ↦
      rw (decode_inputs_header, e)
        (if_total (ltb size 8) _ _ (λ _. (none, refl))
          (λ big.
            if_total (ltb 0x2800 (u32 (header_size + size + 4))) _ _ (λ _. (none, refl))
              (λ _.
                bind_total _ _
                  (decode_static_total src (replicate 8 0) 8 size e (omega arith) (ground arith)
                    (ground arith))
                  (λ r _. (_, refl)))))
]

pub inputs_header_total :
    (raw : List ℕ) (size : ℕ) (c : Bool)
    → size ≤ length raw
    → (c ≡ true → read32 raw header_size + 0x90 < 2 ^ 32)
    → is_size_valid raw size c ≡ some true
    → Returns (inputs_header raw c)
unfolding inputs_header
inputs_header_total raw size true h w e =
    let fits = is_size_valid-fits raw size (w refl) e in
    bind_total _ _ (load32_total raw header_size (omega (arith, fits.1))) (λ n f.
      let (same, _) = load32_lem raw header_size n f in
      bind_total _ _ (slice_total raw (header_size + 4) n (omega (arith, fits.1, same)))
        (λ src _. decode_inputs_header_total src))
inputs_header_total raw size false h w e =
    bind_total _ _ (slice_total raw header_size 8 (omega (arith, is_size_valid-plain raw size e)))
      (λ bytes _. (_, refl))

are_inputs_valid_total :
    (raw : List ℕ) (size : ℕ) (c : Bool)
    → size ≤ length raw
    → (c ≡ true → read32 raw header_size + 0x90 < 2 ^ 32)
    → is_size_valid raw size c ≡ some true
    → Returns (are_inputs_valid raw c)
unfolding are_inputs_valid
are_inputs_valid_total raw size c h w e =
    bind_total _ _ (inputs_header_total raw size c h w e) (λ r _. (_, refl))

is_sp_footer_valid_total :
    (p : Platform) (raw : List ℕ) (size main footer_size : ℕ)
    → size ≤ length raw
    → size < 2 ^ 32
    → 4 ≤ main
    → main + 4 ≤ size
    → Returns (is_sp_footer_valid p raw size main footer_size)
unfolding is_sp_footer_valid
is_sp_footer_valid_total p raw size main footer_size a b c d =
    if_total (not (u32 (main + footer_size + 8 + 4) == size)) _ _ (λ _. (false, refl))
      (λ _. bind_total _ _ (load32_total raw main (omega arith)) (λ version _.
        if_total (check_size version footer_size) _ _
          (λ _. is_crc_valid_total p raw size (omega arith) b a) (λ _. (false, refl))))

is_footer_valid_total :
    (p : Platform) (raw : List ℕ) (size main : ℕ)
    → size ≤ length raw
    → size + 8 < 2 ^ 32
    → 0x90 ≤ main
    → main ≤ size
    → Returns (is_footer_valid p raw size main)
unfolding is_footer_valid
is_footer_valid_total p raw size main a b c d =
    if_total (ltb size (add32 main 8)) _ _ (λ _. (true, refl))
      (λ room.
        bind_total _ _ (load32_total raw (footer_footer size) (omega arith)) (λ footer_size _.
          bind_total _ _ (load32_total raw (footer_footer size + 4) (omega arith)) (λ magic _.
            if_total (magic == ctgp_magic && footer_size == 0xd0) _ _
              (λ _.
                if_total (u32 (main + 0xd0 + 4) == size) _ _
                  (λ _. is_crc_valid_total p raw size (omega arith) (omega arith) a)
                  (λ _. (false, refl)))
              (λ _.
                if_total (magic == sp_magic && leb 0x48 footer_size) _ _
                  (λ _.
                    is_sp_footer_valid_total p raw size main footer_size a (omega arith)
                      (omega arith) (ground arith))
                  (λ _. (true, refl))))))

is_end_valid_total :
    (p : Platform) (raw : List ℕ) (size : ℕ) (c : Bool)
    → size ≤ length raw
    → size + 8 < 2 ^ 32
    → (c ≡ true → read32 raw header_size + 0x90 < 2 ^ 32)
    → is_size_valid raw size c ≡ some true
    → Returns (is_end_valid p raw size c)
unfolding is_end_valid
is_end_valid_total p raw size true a b w e =
    let fits = is_size_valid-fits raw size (w refl) e in
    bind_total _ _ (load32_total raw header_size (omega (arith, fits.1))) (λ n f.
      let (same, _) = load32_lem raw header_size n f in
      and_then_total _ _
        (is_crc_valid_total p raw (main_size n) (omega (arith, same, w refl)) (omega arith)
          (omega (arith, same, fits.1, w refl)))
        (λ _.
          is_footer_valid_total p raw size (main_size n) a b (omega (arith, same, w refl))
            (omega (arith, same, fits.1, w refl))))
is_end_valid_total p raw size false a b w e =
    is_crc_valid_total p raw 0x2800 (omega arith) (omega arith)
      (omega (arith, is_size_valid-plain raw size e))

load_header_lem :
    (raw : List ℕ) (h : RawGhostHeader)
    → load_header raw ≡ some h
    → h.is_compressed ≡ is_compressed_at raw
unfolding load_header header_of
load_header_lem raw h e = ground (arith, e)

load_header_total : (raw : List ℕ) → header_size ≤ length raw → Returns (load_header raw)
unfolding load_header
load_header_total raw l = (header_of raw, ground arith)

-- If the size of a compressed file's inputs is not so large that its sum with the sizes of the
-- header and of the checksum wraps, IsValid reads inside the `size` bytes of the file, whatever
-- they are, and returns.
pub is_valid_total :
    (p : Platform) (raw : List ℕ) (size : ℕ)
    → size ≤ length raw
    → size + 8 < 2 ^ 32
    → (is_compressed_at raw ≡ true → read32 raw header_size + 0x90 < 2 ^ 32)
    → (b : Bool) × (is_valid p raw size ≡ some b)
unfolding is_valid
is_valid_total p raw size a b w =
    if_total (ltb size header_size) _ _ (λ _. (false, refl))
      (λ big. bind_total _ _ (load_header_total raw (ground arith)) (λ h eh.
        let c = h.is_compressed in
        let w' : c ≡ true → read32 raw header_size + 0x90 < 2 ^ 32 =
          λ y. w (sym (load_header_lem raw h eh) ∙ y) in
        tested_total (is_header_valid p h) _ (
          and_then_total (is_size_valid raw size c) _ (is_size_valid_total raw size c a) (λ s.
            tested_total (are_laps_valid h && is_mii_valid p h) _ (
              and_then_total (are_inputs_valid raw c) _ (are_inputs_valid_total raw size c a w' s)
                (λ _. is_end_valid_total p raw size c a b w' s))))))
