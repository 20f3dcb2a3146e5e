-- ===== src/DecompLoader/Instances.antt =====
-- YAZDecoder and LZ77Decoder as the decoders that DecompLoader.cc chooses from.
use mkw_sp.Base.{true, ℕ, ◌≡◌, List, length, refl, ◌⊎◌, inl, inr, Bool-cases}
use mkw_sp.Bytes.{read32, read32_le}
use mkw_sp.Decoder.Yaz
use mkw_sp.Decoder.Yaz.{YazDecoder}
use mkw_sp.Decoder.Yaz.Bounds.{yaz_laws}
use mkw_sp.Decoder.Yaz.Stream.{yaz-construct-IsValid, yaz-construct-header, yaz-construct-append}
use mkw_sp.Decoder.Lz77
use mkw_sp.Decoder.Lz77.{Lz77Decoder}
use mkw_sp.Decoder.Lz77.Bounds.{lz77_laws}
use mkw_sp.Decoder.Lz77.Stream.{
  lz77-construct-IsValid, lz77-construct-header, lz77-construct-append,
}
use mkw_sp.DecompLoader.{MachineCodec, Codecs, codec_of, choose}
use mkw_sp.DecompLoader.Whole.{CodecLaws}

-- The overrides of the two classes; `alloc` is the heap's new[].
abbrev pub yaz_codec : (ℕ → List ℕ) → MachineCodec
yaz_codec alloc = record {
  machine = Yaz.yaz;
  construct = Yaz.construct alloc;
  header_size = λ d. Yaz.header_size;
  release = λ d. d.dst;
}

abbrev pub lz77_codec : (ℕ → List ℕ) → MachineCodec
lz77_codec alloc = record {
  machine = Lz77.lz77;
  construct = Lz77.construct alloc;
  header_size = λ d. d.header_size;
  release = λ d. d.dst;
}

module _ (alloc : ℕ → List ℕ) (h : (n : ℕ) → length (alloc n) ≡ n) where
  -- The laws of the two classes, if the heap's arrays have the length asked for.
  pub yaz_codec_laws : CodecLaws (yaz_codec alloc)
  yaz_codec_laws = record {
    laws = yaz_laws;
    valid = λ src. (yaz-construct-IsValid alloc src h).0;
    header = λ src k. yaz-construct-header alloc src h k;
    append = λ src more k. yaz-construct-append alloc src more h k;
  }

  pub lz77_codec_laws : CodecLaws (lz77_codec alloc)
  lz77_codec_laws = record {
    laws = lz77_laws;
    valid = λ src. (lz77-construct-IsValid alloc src h).0;
    header = λ src k. lz77-construct-header alloc src h k;
    append = λ src more k. lz77-construct-append alloc src more h k;
  }

-- The source has at its start the magic that YAZDecoder or LZ77Decoder looks for.
abbrev pub HasMagic : List ℕ → Type 0
HasMagic src = (Yaz.check_magic (read32 src 0) ≡ true) ⊎ (Lz77.check_magic (read32_le src 0) ≡ true)

-- The decoder that is chosen is a machine that keeps its laws.
pub record Chosen (codecs : Codecs) (src : List ℕ) : Type 1 where
  pub chosen : MachineCodec
  pub same : choose codecs src ≡ codec_of chosen
  pub laws : CodecLaws chosen

pub choose-Chosen :
    (codecs : Codecs) (src : List ℕ)
    → CodecLaws codecs.yaz
    → CodecLaws codecs.lz77
    → HasMagic src
    → Chosen codecs src
unfolding choose
choose-Chosen codecs src y l m = elim (Bool-cases (Yaz.check_magic (read32 src 0))) [
  | inl a ↦ record { chosen = codecs.yaz; same = rw (choose, a) refl; laws = y }
  | inr b ↦
      let c : Lz77.check_magic (read32_le src 0) ≡ true = elim m [ inl a ↦ cc | inr c ↦ c ] in
      record { chosen = codecs.lz77; same = rw (choose, b, c) refl; laws = l }
]

-- A source with one of the two magics and one with the same first bytes have the same decoder.
pub choose-same :
    (codecs : Codecs) (xs src : List ℕ)
    → read32 xs 0 ≡ read32 src 0
    → read32_le xs 0 ≡ read32_le src 0
    → HasMagic xs
    → choose codecs src ≡ choose codecs xs
unfolding choose
choose-same codecs xs src big little m = elim (Bool-cases (Yaz.check_magic (read32 xs 0))) [
  | inl a ↦ rw (choose, ← big, a) refl
  | inr b ↦
      let c : Lz77.check_magic (read32_le xs 0) ≡ true = elim m [ inl a ↦ cc | inr c ↦ c ] in
      rw (choose, ← big, ← little, b, c) refl
]
