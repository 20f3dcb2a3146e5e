-- ===== src/DecompLoader/Whole.antt =====
-- DecompLoader.cc: to load a file in chunks is to decode it at once.
use mathlib.Core.Option.{some-injective}
use mkw_sp.Base.{
  ℕ, ◌≡◌, List, ◌++◌, Option, none, some, true, false, not, ◌&&◌, length, drop, refl, ap, ◌∙◌,
  subst, arith, Bool-cases, inl, inr, ◌≤◌, drop-append_left, ltb,
}
use mkw_sp.Decoder.{decode}
use mkw_sp.Decoder.Laws.{Laws}
use mkw_sp.DecompLoader.{Update, Codec, MachineCodec, methods_of, codec_of, load_loop, load_codec}
use mkw_sp.DecompLoader.Loop.{Offers, Loaded, load_loop-Loads}

-- What a codec promises beyond its machine: the constructor makes a valid decoder from any first
-- chunk; if it is ok, the header is inside the chunk, and more source behind changes nothing.
pub record CodecLaws (c : MachineCodec) : Type 1 where
  pub laws : Laws c.machine
  pub valid : (src : List ℕ) → laws.Valid (c.construct src)
  pub header :
      (src : List ℕ)
      → c.machine.is_ok (c.construct src) ≡ true
      → c.header_size (c.construct src) ≤ length src
  pub append :
      (src more : List ℕ)
      → c.machine.is_ok (c.construct src) ≡ true
      → c.construct (src ++ more) ≡ c.construct src

-- To decode a whole file: the constructor on it, and one call of `decode` on what is behind the
-- header, which fills the output.
pub record DecodesTo (c : Codec) (file out : List ℕ) : Type 0 where
  pub last : c.methods.State
  pub decodes :
      c.methods.decode (c.construct file) (drop (c.header_size (c.construct file)) file)
      ≡ some (true, last)
  pub full : c.methods.is_done last ≡ true
  pub output : out ≡ c.release last

released-DecodesTo :
    (c : MachineCodec) (src xs : List ℕ) (t : c.machine.State)
    → CodecLaws c
    → c.machine.is_ok (c.construct src) ≡ true
    → decode c.machine (c.construct src) (drop (c.header_size (c.construct src)) src ++ xs)
      ≡ some (true, t)
    → c.machine.full t ≡ true
    → DecodesTo (codec_of c) (src ++ xs) (c.release t)
released-DecodesTo c src xs t w k d f =
    let s = c.construct src in
    record {
      last = t;
      decodes =
          ap (λ x. decode c.machine x (drop (c.header_size x) (src ++ xs))) (w.append src xs k)
          ∙ ap (decode c.machine s) (drop-append_left (c.header_size s) src xs (w.header src k))
          ∙ d;
      full = f;
      output = refl;
    }

-- Load returns, and what it gives is what the whole file decodes to.
abbrev pub Decodes : Codec → List ℕ → Option (List ℕ) → Option (Option (List ℕ)) → Type 0
Decodes c src o q =
    (r : Option (List ℕ)) × (q ≡ some r)
    × ((out : List ℕ)
        → r ≡ some out
        → (rest : List ℕ) × (o ≡ some rest) × DecodesTo c (src ++ rest) out)

header_inside :
    (c : MachineCodec) (src : List ℕ)
    → CodecLaws c
    → (ltb (length src) (c.header_size (c.construct src))
        && (c.machine.is_ok (c.construct src) && not (c.machine.full (c.construct src))))
      ≡ false
header_inside c src w = elim (Bool-cases (c.machine.is_ok (c.construct src))) [
  | inl y ↦ ground (arith, y, w.header src y)
  | inr n ↦ ground (arith, n)
]

released :
    (c : MachineCodec) (src : List ℕ) (o : Option (List ℕ)) (updates : List Update)
    (w : CodecLaws c) (r : Option c.machine.State)
    → Loaded w.laws (c.construct src) (drop (c.header_size (c.construct src)) src) o r
    → load_loop
        (methods_of c.machine)
        (c.construct src)
        (drop (c.header_size (c.construct src)) src)
        updates
      ≡ some r
    → Decodes (codec_of c) src o (load_codec (codec_of c) src updates)
unfolding load_codec
released c src o updates w none ld e =
    (none, rw (load_codec, header_inside c src w, e) refl, λ out f. cc)
released c src o updates w (some t) ld e = (
  some (c.release t),
  rw (load_codec, header_inside c src w, e) refl,
  λ out f.
      let (xs, same, d, full) = ld.whole t refl in
      (
        xs,
        same,
        subst (DecodesTo (codec_of c) (src ++ xs)) (some-injective _ _ f)
            (released-DecodesTo c src xs t w ((ld.room t refl).0) d full),
      ),
)

-- With a decoder that keeps its laws, and over the updates of a reading thread that comes to an end,
-- Load returns; and if it succeeds, the reading thread has not failed, and the output is that of the
-- whole file decoded at once.
pub load_codec-DecodesTo :
    (c : MachineCodec) (src : List ℕ) (o : Option (List ℕ)) (updates : List Update)
    → CodecLaws c
    → Offers o updates
    → Decodes (codec_of c) src o (load_codec (codec_of c) src updates)
load_codec-DecodesTo c src o updates w h =
    let s = c.construct src in
    let (r, e, ld) =
      load_loop-Loads w.laws s (drop (c.header_size s) src) o updates h (w.valid src) in
    released c src o updates w r ld e
