-- ===== src/YazEncoder/Stream.antt =====
-- Yaz_encode and YAZDecoder: what was written so far is a stream of which the decoder makes what
-- was read so far. The start of a group.
use mkw_sp.Base.{
  ℕ, ◌+◌, ◌-◌, ◌/◌, ◌%◌, ◌^◌, ◌≤◌, ◌<◌, ◌≡◌, ◌≢◌, ◌⊎◌, List, [], ◌∷◌, ◌++◌, length, set, get_or,
  arith, refl, ap, sym, subst, ◌∙◌, length-set, ◌==◌, append-nil, get_or-set_self, get_or-set_ne,
  ==→eq, set-get_or,
}
use mkw_sp.Base.Words.{u8, add32}
use mkw_sp.Decoder.Runs.{Runs, Runs-append}
use mkw_sp.Decoder.Yaz.{YazDecoder, yaz}
use mkw_sp.Decoder.Yaz.Bounds.{yaz_laws}
use mkw_sp.Decoder.Yaz.Items.{Between, Selected, open_first, open_next}
use mkw_sp.YazEncoder.{Encoder, open_group, store}
use mkw_sp.YazEncoder.Search.{Gives}
use mkw_sp.YazEncoder.Bounds.{Inside, Open}
use mkw_sp.YazEncoder.Goes.{Goes, continues, stops, bind-Goes, if-Goes}
use mkw_sp.YazEncoder.Written.{written, written-open, left}

pub store-Sets :
    (dst : List ℕ) (offset val : ℕ)
    → offset < length dst
    → Gives (λ d. d ≡ set dst offset (u8 val)) (store dst offset val)
unfolding store
store-Sets dst offset val h = (set dst offset (u8 val), ground arith, refl)

abbrev pub header : Encoder → ℕ
header e = get_or e.dst e.group_header_offset 0

-- The first 16 bytes of two arrays are the same.
abbrev pub SameStart : List ℕ → List ℕ → Type 0
SameStart a b = (j : ℕ) → j < 16 → get_or a j 0 ≡ get_or b j 0

pub SameStart-set : (a b : List ℕ) (i v : ℕ) → 16 ≤ i → SameStart a b → SameStart (set a i v) b
SameStart-set a b i v l h j k = get_or-set_ne a i j v 0 (λ e. absurd (omega arith)) ∙ h j k

module _ (src : List ℕ) (src_size dst_size room : ℕ) (in_src : src_size ≤ length src)
    (in_dst : dst_size ≤ room) (small_src : src_size < 2 ^ 31) (small_dst : dst_size < 2 ^ 31)
    (d0 : YazDecoder) (start : List ℕ) where
  -- Whatever the bits of the group header from `bits` downwards will be, the decoder takes what is
  -- written and comes to a state with a property.
  abbrev pub Takes : (ℕ → YazDecoder → Type 0) → ℕ → Encoder → Type 0
  Takes P bits e =
      (h : ℕ)
      → h < 256
      → h / 2 ^ bits ≡ header e / 2 ^ bits
      → (d : YazDecoder) × Runs yaz d d0 (written e.dst e.group_header_offset e.dst_offset h)
        × P h d

  -- Between two items.
  pub record Encodes (e : Encoder) : Type 0 where
    pub inside : Inside src src_size dst_size room in_src in_dst small_src small_dst e
    pub index_in : e.index < 8
    pub above : (e.index ≡ 0) ⊎ (16 ≤ e.group_header_offset)
    pub clear : (header e < 256) × (header e % 2 ^ left e.index ≡ 0)
    pub same_start : SameStart e.dst start
    pub takes : Takes (Between src src_size small_src e.src_offset e.index) (left e.index) e

  -- Where an item starts, in a group that is open.
  pub record Opens (e : Encoder) : Type 0 where
    pub open_in : Open src src_size dst_size room in_src in_dst small_src small_dst e
    pub index_in : e.index < 8
    pub above : 16 ≤ e.group_header_offset
    pub clear : (header e < 256) × (header e % 2 ^ (8 - e.index) ≡ 0)
    pub same_start : SameStart e.dst start
    pub takes : Takes (Selected src src_size small_src e.src_offset e.index) (8 - e.index) e

  first-Takes :
      (e e' : Encoder)
      → Encodes e
      → e.index ≡ 0
      → e.src_offset < src_size
      → e.dst_offset < dst_size
      → e'.dst ≡ set e.dst e.dst_offset 0
      → e'.group_header_offset ≡ e.dst_offset
      → e'.dst_offset ≡ e.dst_offset + 1
      → e'.src_offset ≡ e.src_offset
      → e'.index ≡ 0
      → Takes (Selected src src_size small_src e'.src_offset e'.index) (8 - e'.index) e'
  first-Takes e e' v z s d f g n o i h lt agrees =
      let (t, r, b) = v.takes (header e) v.clear.0 refl in
      let b' = subst (λ k. Between src src_size small_src e.src_offset k (header e) t) z b in
      let (t', r', sel) = open_first src src_size small_src e.src_offset (header e) h t b' s lt in
      let whole = Runs-append yaz_laws (h ∷ []) r r' in
      let same : written e'.dst e'.group_header_offset e'.dst_offset h
          ≡ written e.dst e.group_header_offset e.dst_offset (header e) ++ h ∷ [] =
        rw (f, g, n)
          (written-open e.dst e.group_header_offset e.dst_offset (header e) h
            (omega (arith, v.inside.long)) v.inside.at_dst.0
            (set-get_or e.dst e.group_header_offset 0)) in
      (t', subst (Runs yaz t' d0) (sym same) whole, rw (o, i) sel)

  next-Takes :
      (e : Encoder)
      → Encodes e
      → e.index ≢ 0
      → e.src_offset < src_size
      → Takes (Selected src src_size small_src e.src_offset e.index) (8 - e.index) e
  next-Takes e v n s h lt agrees =
      let i = v.index_in in
      let same : left e.index ≡ 8 - e.index = omega (arith, i, n) in
      let (t, r, b) = v.takes h lt (rw same agrees) in
      let (t', r', sel) = open_next src src_size small_src e.src_offset e.index h t b s n i in
      (t', subst (Runs yaz t' d0) (append-nil _) (Runs-append yaz_laws [] r r'), sel)

  pub open_group-Opens :
      (e : Encoder)
      → Encodes e
      → e.src_offset < src_size
      → e.dst_offset < dst_size
      → Goes Opens (open_group src src_size dst_size e)
  unfolding open_group
  open_group-Opens e v s d =
      let u = v.inside in
      if-Goes _ (e.index == 0) _ _
        (λ y. bind-Goes _ _ _ (store-Sets e.dst e.dst_offset 0 (omega (arith, u.long))) (λ dst l.
          if-Goes _ (add32 e.dst_offset 1 == dst_size) _ _ (λ _. stops _)
            (λ n.
              let z = ==→eq e.index 0 y in
              let fresh : get_or dst e.dst_offset 0 ≡ 0 =
                rw l (get_or-set_self e.dst e.dst_offset 0 0 (omega (arith, u.long))) in
              continues _ _ (record {
                open_in = record {
                  long = ap length l ∙ length-set e.dst e.dst_offset 0 ∙ u.long;
                  at_src = s;
                  at_dst = ground (arith, u.at_dst, n);
                  header = omega arith;
                };
                index_in = v.index_in;
                above = u.at_dst.0;
                clear = (omega (arith, fresh), rw fresh (omega (arith, z)));
                same_start =
                    rw l (SameStart-set e.dst start e.dst_offset 0 u.at_dst.0 v.same_start);
                takes = first-Takes e _ v z s d l refl (omega arith) refl z;
              }))))
        (λ n.
          let z : e.index ≢ 0 = λ q. absurd (ground (arith, n, q)) in
          continues _ e (record {
            open_in = record {
              long = u.long;
              at_src = s;
              at_dst = (u.at_dst.0, d);
              header = ground (arith, u.header, n);
            };
            index_in = v.index_in;
            above = ground (arith, v.above, n);
            clear = (
              v.clear.0,
              subst (λ k. header e % 2 ^ k ≡ 0) (omega (arith, z, v.index_in)) v.clear.1,
            );
            same_start = v.same_start;
            takes = next-Takes e v z s;
          }))
