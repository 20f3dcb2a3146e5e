-- ===== src/YazEncoder/Items.antt =====
-- Yaz_encode: a literal and a reference keep what is written a stream of what was read.
use mkw_sp.Base.{
  ℕ, ◌+◌, ◌-◌, ◌%◌, ◌^◌, ◌≤◌, ◌<◌, ◌≡◌, inr, List, [], ◌∷◌, ◌++◌, length, set, get_or, arith, refl,
  ap, sym, subst, ◌∙◌, length-set, get_or-set_self, get_or-set_ne,
}
use mkw_sp.Base.Words.{u8}
use mkw_sp.Decoder.Runs.{Runs, Runs-append}
use mkw_sp.Decoder.Yaz.{YazDecoder, yaz}
use mkw_sp.Decoder.Yaz.Bounds.{yaz_laws}
use mkw_sp.Decoder.Yaz.Items.{IsItem, Between, literal}
use mkw_sp.YazEncoder.{Encoder, emit_literal}
use mkw_sp.YazEncoder.Search.{byte-Gives}
use mkw_sp.YazEncoder.Goes.{Goes, continues, bind-Goes}
use mkw_sp.YazEncoder.Written.{
  written, written-push, written-set_header, marked, marked-clear, marked-agrees,
}
use mkw_sp.YazEncoder.Stream.{Encodes, Opens, header, store-Sets, SameStart, SameStart-set}

module _ (src : List ℕ) (src_size dst_size room : ℕ) (in_src : src_size ≤ length src)
    (in_dst : dst_size ≤ room) (small_src : src_size < 2 ^ 31) (small_dst : dst_size < 2 ^ 31)
    (d0 : YazDecoder) (start : List ℕ) (bytes : (j : ℕ) → get_or src j 0 < 256) where
  abbrev pub IsOpen : Encoder → Type 0
  IsOpen = Opens src src_size dst_size room in_src in_dst small_src small_dst d0 start

  -- What a step has to make for the next item.
  abbrev pub Advanced : Encoder → Type 0
  Advanced e =
      Encodes src src_size dst_size room in_src in_dst small_src small_dst d0 start
        (record e { index = (e.index + 1) % 8 })

  pub item-Advanced :
      (e e' : Encoder) (b : ℕ) (p : List ℕ)
      → IsOpen e
      → b < 2
      → length e'.dst ≡ room
      → e'.src_offset ≤ src_size
      → e'.dst_offset ≤ dst_size
      → e.dst_offset < e'.dst_offset
      → e'.group_header_offset ≡ e.group_header_offset
      → e'.index ≡ e.index
      → header e' ≡ marked (header e) e.index b
      → SameStart e'.dst start
      → ((h : ℕ)
          → written e'.dst e.group_header_offset e'.dst_offset h
            ≡ written e.dst e.group_header_offset e.dst_offset h ++ p)
      → IsItem src src_size small_src e.src_offset e'.src_offset e.index b p
      → Advanced e'
  item-Advanced e e' b p v bit l s d d_lt g i m same w item = record {
    inside = record {
      long = l;
      at_src = s;
      at_dst = (omega (arith, v.open_in.at_dst), d);
      header = inr (omega (arith, g, v.open_in.header));
    };
    index_in = omega arith;
    above = inr (omega (arith, g, v.above));
    clear = rw (m, i) (marked-clear e.index (header e) b v.index_in bit v.clear.0 v.clear.1);
    same_start = same;
    takes = λ h lt agrees.
        let (old, is_b) =
          marked-agrees e.index h (header e) b v.index_in bit v.clear.1 (rw (m, i) at agrees) in
        let (t, r, sel) = v.takes h lt old in
        let (t', r', next) = item h t sel is_b in
        (
          t',
          subst (Runs yaz t' d0) (sym (w h) ∙ ap (λ k. written e'.dst k e'.dst_offset h) (sym g))
              (Runs-append yaz_laws p r r'),
          subst (λ k. Between src src_size small_src e'.src_offset ((k + 1) % 8) h t') (sym i) next,
        );
  }

  pub emit_literal-Advanced :
      (e : Encoder) → IsOpen e → Goes Advanced (emit_literal src src_size dst_size e)
  unfolding emit_literal
  emit_literal-Advanced e v =
      let o = v.open_in in
      let g = e.group_header_offset in
      bind-Goes _ _ _ (byte-Gives e.dst g (omega (arith, o.long, o.header, o.at_dst))) (λ old old_e.
        let x = u8 (old + 2 ^ (7 - e.index)) in
        bind-Goes _ _ _
          (store-Sets e.dst g (old + 2 ^ (7 - e.index)) (omega (arith, o.long, o.header, o.at_dst)))
          (λ dst l.
            bind-Goes _ _ _ (byte-Gives src e.src_offset (omega (arith, o.at_src))) (λ val val_e.
              let long : length dst ≡ room = ap length l ∙ length-set e.dst g x ∙ o.long in
              bind-Goes _ _ _ (store-Sets dst e.dst_offset val (omega (arith, long, o.at_dst)))
                (λ dst' l'.
                  let v8 : u8 val ≡ get_or src e.src_offset 0 =
                    omega (arith, val_e, bytes e.src_offset) in
                  let whole : dst' ≡ set (set e.dst g x) e.dst_offset (get_or src e.src_offset 0) =
                    l' ∙ rw (l, v8) refl in
                  let mark : x ≡ marked (header e) e.index 1 = omega (
                    arith,
                    old_e,
                    (marked-clear e.index (header e) 1 v.index_in (omega arith) v.clear.0
                        v.clear.1).0,
                  ) in
                  continues Advanced _ (
                    item-Advanced e _ 1 (get_or src e.src_offset 0 ∷ []) v (omega arith)
                      (ap length l' ∙ length-set dst e.dst_offset (u8 val) ∙ long)
                      (omega (arith, o.at_src)) (omega (arith, o.at_dst)) (omega (arith, o.at_dst))
                      refl refl
                      (rw whole (
                        get_or-set_ne (set e.dst g x) e.dst_offset g (get_or src e.src_offset 0) 0
                          (λ q. absurd (omega (arith, o.header)))
                        ∙ get_or-set_self e.dst g x 0 (omega (arith, o.long, o.header, o.at_dst))
                        ∙ mark))
                      (rw whole (
                        SameStart-set (set e.dst g x) start e.dst_offset _ o.at_dst.0
                          (SameStart-set e.dst start g x v.above v.same_start)))
                      (λ h. rw whole (
                        ap
                          (λ k.
                            written (set (set e.dst g x) e.dst_offset (get_or src e.src_offset 0)) g
                              k h)
                          (omega (arith, o.at_dst))
                        ∙ written-push (set e.dst g x) g e.dst_offset (get_or src e.src_offset 0) h
                            o.header (omega (arith, length-set e.dst g x, o.long, o.at_dst))
                            o.at_dst.0
                        ∙ ap (λ k. k ++ get_or src e.src_offset 0 ∷ [])
                            (written-set_header e.dst g e.dst_offset x h)))
                      (λ h d sel is_b.
                        let (d', r, n) =
                          literal src src_size small_src e.src_offset e.index h d sel o.at_src
                            v.index_in is_b (bytes e.src_offset) in
                        (
                          d',
                          r,
                          subst (λ k. Between src src_size small_src k ((e.index + 1) % 8) h d')
                              (omega (arith, o.at_src)) n,
                        )))))))
