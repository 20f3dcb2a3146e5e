-- ===== src/Decoder/Yaz/Refs.antt =====
-- YAZDecoder.cc: what the decoder does with the references of a stream, where its output is to be
-- a given array.
use mkw_sp.Base.{
  ℕ, zero, suc, List, ◌≡◌, ◌+◌, ◌-◌, ◌^◌, ◌%◌, ◌/◌, ◌*◌, ◌≤◌, ◌<◌, ◌∷◌, [], refl, arith, set,
  get_or, get_elem?-eq-get_or, if◌then◌else◌, ◌==◌, ◌∙◌, sym, subst,
}
use mkw_sp.Base.Words.{u8, u16, add32}
use mkw_sp.Decoder.Runs.{Runs, next, here}
use mkw_sp.Decoder.Yaz.{YazDecoder, State, process, yaz, header_bit}
use mkw_sp.Decoder.Yaz.Items.{Between, Selected, Holds, Holds-room, Holds-push}

module _ (src : List ℕ) (src_size : ℕ) (small : src_size < 2 ^ 31) where
  -- In a reference with `n` bytes left.
  pub record Copying (s distance n i header : ℕ) (d : YazDecoder) : Type 0 where
    pub holds : Holds src src_size small s d
    pub state : d.state ≡ State.ref_copy
    pub back : d.ref_offset ≡ distance
    pub left : d.ref_size ≡ n
    pub index : d.group_header_index ≡ i
    pub group : d.group_header ≡ header

  -- The decoder after one byte of a reference with `n` more.
  copied : ℕ → ℕ → ℕ → YazDecoder → YazDecoder
  copied s distance n d = record d {
    dst = set d.dst d.dst_offset (get_or d.dst (s - distance) 0);
    dst_offset = add32 d.dst_offset 1;
    ref_size = n;
    state = if n == 0 then State.group_header else State.ref_copy;
  }

  module _ (distance i h : ℕ) (one : 1 ≤ distance) where
    copied-Runs :
        (s n : ℕ) (d t : YazDecoder)
        → Copying s distance (suc n) i h d
        → s + suc n ≤ src_size
        → distance ≤ s
        → suc n < 2 ^ 16
        → Runs yaz t (copied s distance n d) []
        → Runs yaz t d []
    unfolding process copied
    copied-Runs s n d t c l back w r =
        next d _ [] [] (Holds-room src src_size small d c.holds (omega arith))
          (ground (arith, c.state))
          (ground (
            arith,
            c.state,
            c.back,
            c.left,
            c.holds.offset,
            c.holds.storage,
            get_elem?-eq-get_or d.dst (s - distance) 0,
          ))
          r

    copied-Holds :
        (s n : ℕ) (d : YazDecoder)
        → Copying s distance (suc n) i h d
        → s < src_size
        → distance ≤ s
        → get_or src s 0 ≡ get_or src (s - distance) 0
        → Holds src src_size small (s + 1) (copied s distance n d)
    unfolding copied
    copied-Holds s n d c l back e =
        Holds-push src src_size small s _ d _ c.holds l
          (c.holds.same (s - distance) (omega arith) ∙ sym e) refl refl refl

    -- The rest of a reference: the bytes that it stands for are copied.
    copies :
        (n s : ℕ) (d : YazDecoder)
        → Copying s distance (suc n) i h d
        → s + suc n ≤ src_size
        → distance ≤ s
        → suc n < 2 ^ 16
        → i < 8
        → ((k : ℕ) → k < suc n → get_or src (s + k) 0 ≡ get_or src (s + k - distance) 0)
        → (d' : YazDecoder) × Runs yaz d' d []
          × Between src src_size small (s + suc n) ((i + 1) % 8) h d'
    unfolding copied
    copies zero s d c l back w j e =
        let d' = copied s distance zero d in
        let first : get_or src s 0 ≡ get_or src (s - distance) 0 =
          subst (λ x. get_or src x 0 ≡ get_or src (x - distance) 0) (omega arith)
            (e 0 (omega arith)) in
        (
          d',
          copied-Runs s zero d d' c l back w here,
          record {
            holds = copied-Holds s zero d c (omega arith) back first;
            state = refl;
            index = omega (arith, c.index);
            group = λ _. c.group;
          },
        )
    copies (suc n) s d c l back w j e =
        let d1 = copied s distance (suc n) d in
        let first : get_or src s 0 ≡ get_or src (s - distance) 0 =
          subst (λ x. get_or src x 0 ≡ get_or src (x - distance) 0) (omega arith)
            (e 0 (omega arith)) in
        let c1 : Copying (s + 1) distance (suc n) i h d1 = record {
          holds = copied-Holds s (suc n) d c (omega arith) back first;
          state = ground arith;
          back = c.back;
          left = refl;
          index = c.index;
          group = c.group;
        } in
        let (d', r, b) = copies n (s + 1) d1 c1 (omega arith) (omega arith) (omega arith) j (λ k m.
          subst (λ x. get_or src x 0 ≡ get_or src (x - distance) 0) (omega arith)
            (e (suc k) (omega arith))) in
        (
          d',
          copied-Runs s (suc n) d d' c l back w r,
          subst (λ x. Between src src_size small x ((i + 1) % 8) h d') (omega arith) b,
        )

    -- A reference that starts at item `i`, up to its copying: the first two bytes hold the
    -- distance, and the size or 0; where it is 0, a third byte holds the size.
    head :
        (s b0 b1 : ℕ) (d t : YazDecoder) (rest : List ℕ)
        → Selected src src_size small s i h d
        → s < src_size
        → distance ≤ s
        → header_bit h i ≡ 0
        → b0 < 256
        → b1 < 256
        → b0 % 16 * 256 + b1 + 1 ≡ distance
        → Runs yaz t
            (record d {
              ref_offset = distance;
              ref_size = b0 / 16 + 2;
              state = if b0 / 16 == 0 then State.ref_header2 else State.ref_copy;
            })
            rest
        → Runs yaz t d (b0 ∷ b1 ∷ rest)
    unfolding process
    head s b0 b1 d t rest b l back bit w0 w1 e r =
        let start : d.state ≡ State.ref_header0 = b.state ∙ rw bit refl in
        let d1 = record d {
          ref_offset = u16 (u8 b0 % 16 * 2 ^ 8);
          ref_size = u16 (u8 b0 / 16 + 2);
          state = State.ref_header1;
        } in
        let d2 = record d {
          ref_offset = distance;
          ref_size = b0 / 16 + 2;
          state = if b0 / 16 == 0 then State.ref_header2 else State.ref_copy;
        } in
        next d d1 (b0 ∷ b1 ∷ rest) (b1 ∷ rest) (Holds-room src src_size small d b.holds l) refl
          (ground (arith, start))
          (next d1 d2 (b1 ∷ rest) rest (Holds-room src src_size small d b.holds l) refl
            (ground (arith, b.holds.offset)) r)

    pub short_ref :
        (s b0 b1 n : ℕ) (d : YazDecoder)
        → Selected src src_size small s i h d
        → i < 8
        → header_bit h i ≡ 0
        → distance ≤ s
        → b0 < 256
        → b1 < 256
        → b0 % 16 * 256 + b1 + 1 ≡ distance
        → b0 / 16 ≡ suc n
        → s + suc n + 2 ≤ src_size
        → ((k : ℕ) → k < suc n + 2 → get_or src (s + k) 0 ≡ get_or src (s + k - distance) 0)
        → (d' : YazDecoder) × Runs yaz d' d (b0 ∷ b1 ∷ [])
          × Between src src_size small (s + suc n + 2) ((i + 1) % 8) h d'
    short_ref s b0 b1 n d b j bit back w0 w1 e size l same =
        let d2 = record d {
          ref_offset = distance;
          ref_size = b0 / 16 + 2;
          state = if b0 / 16 == 0 then State.ref_header2 else State.ref_copy;
        } in
        let c : Copying s distance (suc (n + 2)) i h d2 = record {
          holds = record {
            size = b.holds.size;
            storage = b.holds.storage;
            offset = b.holds.offset;
            same = b.holds.same;
          };
          state = ground (arith, size);
          back = refl;
          left = omega (arith, size);
          index = b.index;
          group = b.group;
        } in
        let (d', r, m) =
          copies (n + 2) s d2 c (omega arith) back (omega (arith, w0, size)) j
            (λ k q. same k (omega (arith, q))) in
        (
          d',
          head s b0 b1 d d' [] b (omega (arith, l)) back bit w0 w1 e r,
          subst (λ x. Between src src_size small x ((i + 1) % 8) h d') (omega arith) m,
        )

    pub long_ref :
        (s b0 b1 b2 : ℕ) (d : YazDecoder)
        → Selected src src_size small s i h d
        → i < 8
        → header_bit h i ≡ 0
        → distance ≤ s
        → b0 < 16
        → b1 < 256
        → b2 < 256
        → b0 * 256 + b1 + 1 ≡ distance
        → s + b2 + 0x12 ≤ src_size
        → ((k : ℕ) → k < b2 + 0x12 → get_or src (s + k) 0 ≡ get_or src (s + k - distance) 0)
        → (d' : YazDecoder) × Runs yaz d' d (b0 ∷ b1 ∷ b2 ∷ [])
          × Between src src_size small (s + b2 + 0x12) ((i + 1) % 8) h d'
    unfolding process
    long_ref s b0 b1 b2 d b j bit back w0 w1 w2 e l same =
        let d2 = record d {
          ref_offset = distance;
          ref_size = b0 / 16 + 2;
          state = if b0 / 16 == 0 then State.ref_header2 else State.ref_copy;
        } in
        let d3 = record d2 { ref_size = suc (b2 + 0x11); state = State.ref_copy } in
        let c : Copying s distance (suc (b2 + 0x11)) i h d3 = record {
          holds = record {
            size = b.holds.size;
            storage = b.holds.storage;
            offset = b.holds.offset;
            same = b.holds.same;
          };
          state = refl;
          back = refl;
          left = refl;
          index = b.index;
          group = b.group;
        } in
        let (d', r, m) =
          copies (b2 + 0x11) s d3 c (omega arith) back (omega arith) j
            (λ k q. same k (omega (arith, q))) in
        let r2 : Runs yaz d' d2 (b2 ∷ []) =
          next d2 d3 _ _ (Holds-room src src_size small d b.holds (omega (arith, l))) refl
            (ground (arith, w0, w2)) r in
        (
          d',
          head s b0 b1 d d' (b2 ∷ []) b (omega (arith, l)) back bit (omega (arith, w0)) w1
              (omega (arith, w0, e)) r2,
          subst (λ x. Between src src_size small x ((i + 1) % 8) h d') (omega arith) m,
        )
