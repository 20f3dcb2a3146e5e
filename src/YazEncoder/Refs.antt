-- ===== src/YazEncoder/Refs.antt =====
-- Yaz_encode: a reference keeps what is written a stream of what was read.
use mkw_sp.Base.{
  ℕ, ◌+◌, ◌-◌, ◌*◌, ◌/◌, ◌%◌, ◌^◌, ◌≤◌, ◌<◌, ◌≡◌, List, [], ◌∷◌, ◌++◌, none, some, length, set,
  get_or, arith, refl, ap, subst, ◌∙◌, length-set, ltb, if◌then◌else◌, append_assoc, get_or-set_ne,
  ltb→le,
}
use mkw_sp.Base.Words.{u8, add32}
use mkw_sp.Bytes.{write16, length-write16, get_or-write16}
use mkw_sp.Decoder.Yaz.{YazDecoder}
use mkw_sp.Decoder.Yaz.Items.{Between, IsItem}
use mkw_sp.Decoder.Yaz.Refs.{short_ref, long_ref}
use mkw_sp.YazEncoder.{Encoder, store16, bind, store}
use mkw_sp.YazEncoder.Search.{Gives, Same}
use mkw_sp.YazEncoder.Goes.{Goes, continues, stops, bind-Goes, if-Goes}
use mkw_sp.YazEncoder.Written.{written, written-push, written-push16}
use mkw_sp.YazEncoder.Stream.{header, store-Sets, SameStart, SameStart-set}
use mkw_sp.YazEncoder.Items.{IsOpen, Advanced, item-Advanced}

store16-Sets :
    (dst : List ℕ) (offset val : ℕ)
    → offset + 1 < length dst
    → Gives (λ d. d ≡ write16 dst offset val) (store16 dst offset val)
unfolding store16
store16-Sets dst offset val h = (write16 dst offset val, ground arith, refl)

SameStart-write16 : (a b : List ℕ) (i v : ℕ) → 16 ≤ i → SameStart a b → SameStart (write16 a i v) b
SameStart-write16 a b i v l h j k = get_or-write16 a i v j (omega arith) ∙ h j k

-- The bytes that a reference stands for are the next ones.
back-Same :
    (src : List ℕ) (s r n : ℕ)
    → r < s
    → Same src s r n
    → (k : ℕ) → k < n
    → get_or src (s + k) 0 ≡ get_or src (s + k - (s - r)) 0
back-Same src s r n l h k m = h k m ∙ ap (λ j. get_or src j 0) (omega arith)

module _ (src : List ℕ) (src_size dst_size room : ℕ) (in_src : src_size ≤ length src)
    (in_dst : dst_size ≤ room) (small_src : src_size < 2 ^ 31) (small_dst : dst_size < 2 ^ 31)
    (d0 : YazDecoder) (start : List ℕ) (bytes : (j : ℕ) → get_or src j 0 < 256) where
  short-IsItem :
      (s r n i val : ℕ)
      → r < s
      → s ≤ r + 0x1000
      → n < 15
      → s + (n + 3) ≤ src_size
      → i < 8
      → Same src s r (n + 3)
      → val ≡ (n + 1) * 2 ^ 12 + (s - r - 1)
      → IsItem src src_size small_src s (s + (n + 3)) i 0 (u8 (val / 2 ^ 8) ∷ u8 val ∷ [])
  short-IsItem s r n i val back near short fits j same e h d sel bit =
      let (d', run, next) =
        short_ref src src_size small_src (s - r) i h (omega arith) s (u8 (val / 2 ^ 8)) (u8 val) n d
          sel j bit (omega arith) (omega arith) (omega arith) (omega (arith, e)) (omega (arith, e))
          (omega arith) (λ k l. back-Same src s r (n + 3) back same k (omega arith)) in
      (d', run, subst (λ k. Between src src_size small_src k ((i + 1) % 8) h d') (omega arith) next)

  long-IsItem :
      (s r n i val : ℕ)
      → r < s
      → s ≤ r + 0x1000
      → n < 256
      → s + (n + 0x12) ≤ src_size
      → i < 8
      → Same src s r (n + 0x12)
      → val ≡ s - r - 1
      → IsItem src src_size small_src s (s + (n + 0x12)) i 0 (u8 (val / 2 ^ 8) ∷ u8 val ∷ n ∷ [])
  long-IsItem s r n i val back near long fits j same e h d sel bit =
      let (d', run, next) =
        long_ref src src_size small_src (s - r) i h (omega arith) s (u8 (val / 2 ^ 8)) (u8 val) n d
          sel j bit (omega arith) (omega (arith, e)) (omega arith) long (omega (arith, e))
          (omega arith) (λ k l. back-Same src s r (n + 0x12) back same k (omega arith)) in
      (d', run, subst (λ k. Between src src_size small_src k ((i + 1) % 8) h d') (omega arith) next)

  abbrev IsStart : Encoder → Type 0
  IsStart e = IsOpen src src_size dst_size room in_src in_dst small_src small_dst d0 start bytes e

  abbrev Next : Encoder → Type 0
  Next e = Advanced src src_size dst_size room in_src in_dst small_src small_dst d0 start bytes e

  -- A reference of the bytes `p`, written behind what there is, has bit 0 in the header.
  ref-Advanced :
      (e e' : Encoder) (p : List ℕ)
      → IsStart e
      → length e'.dst ≡ room
      → e'.src_offset ≤ src_size
      → e'.dst_offset ≤ dst_size
      → e.dst_offset < e'.dst_offset
      → e'.group_header_offset ≡ e.group_header_offset
      → e'.index ≡ e.index
      → header e' ≡ header e
      → SameStart e'.dst start
      → ((h : ℕ)
          → written e'.dst e.group_header_offset e'.dst_offset h
            ≡ written e.dst e.group_header_offset e.dst_offset h ++ p)
      → IsItem src src_size small_src e.src_offset e'.src_offset e.index 0 p
      → Next e'
  ref-Advanced e e' p v l s d more g i m same w item =
      item-Advanced src src_size dst_size room in_src in_dst small_src small_dst d0 start bytes e e'
        0 p v (omega arith) l s d more g i (omega (arith, m)) same w item

  pub short-Goes :
      (e : Encoder) (r n val : ℕ)
      → IsStart e
      → r < e.src_offset
      → e.src_offset ≤ r + 0x1000
      → n < 15
      → e.src_offset + (n + 3) ≤ src_size
      → Same src e.src_offset r (n + 3)
      → val ≡ (n + 1) * 2 ^ 12 + (e.src_offset - r - 1)
      → e.dst_offset + 2 ≤ dst_size
      → Goes Next (
          bind (store16 e.dst e.dst_offset val) (λ dst. some (
            some (record e {
              dst = dst;
              dst_offset = add32 e.dst_offset 2;
              src_offset = add32 e.src_offset (n + 3);
            }))))
  short-Goes e r n val v back near short fits same val_e rooms =
      let o = v.open_in in
      bind-Goes _ _ _ (store16-Sets e.dst e.dst_offset val (omega (arith, o.long))) (λ dst l.
        let d_e : add32 e.dst_offset 2 ≡ e.dst_offset + 2 = omega arith in
        let s_e : add32 e.src_offset (n + 3) ≡ e.src_offset + (n + 3) = omega arith in
        continues Next _ (
          ref-Advanced e _ (u8 (val / 2 ^ 8) ∷ u8 val ∷ []) v
            (ap length l ∙ length-write16 e.dst e.dst_offset val ∙ o.long) (omega arith)
            (omega arith) (omega arith) refl refl
            (rw l (get_or-write16 e.dst e.dst_offset val e.group_header_offset o.header))
            (rw l (SameStart-write16 e.dst start e.dst_offset val o.at_dst.0 v.same_start))
            (λ h.
              rw (l, d_e)
                (written-push16 e.dst e.group_header_offset e.dst_offset val h o.header
                  (omega (arith, o.long)) o.at_dst.0))
            (rw s_e (
              short-IsItem e.src_offset r n e.index val back near short fits v.index_in same
                val_e))))

  pub long-Goes :
      (e : Encoder) (r n val : ℕ)
      → IsStart e
      → r < e.src_offset
      → e.src_offset ≤ r + 0x1000
      → n < 256
      → e.src_offset + (n + 0x12) ≤ src_size
      → Same src e.src_offset r (n + 0x12)
      → val ≡ e.src_offset - r - 1
      → e.dst_offset + 2 ≤ dst_size
      → Goes Next (
          bind (store16 e.dst e.dst_offset val) (λ dst.
            if ltb dst_size (add32 (add32 e.dst_offset 2) 1)
            then some none
            else bind (store dst (add32 e.dst_offset 2) n) (λ dst'. some (
                some (record e {
                  dst = dst';
                  dst_offset = add32 (add32 e.dst_offset 2) 1;
                  src_offset = add32 e.src_offset (n + 0x12);
                })))))
  long-Goes e r n val v back near long fits same val_e rooms =
      let o = v.open_in in
      let g = e.group_header_offset in
      let d_e : add32 e.dst_offset 2 ≡ e.dst_offset + 2 = omega arith in
      let d_e' : add32 (add32 e.dst_offset 2) 1 ≡ e.dst_offset + 2 + 1 = omega arith in
      let s_e : add32 e.src_offset (n + 0x12) ≡ e.src_offset + (n + 0x12) = omega arith in
      let n_e : u8 n ≡ n = omega arith in
      let dst1 = write16 e.dst e.dst_offset val in
      let long1 : length dst1 ≡ room = length-write16 e.dst e.dst_offset val ∙ o.long in
      bind-Goes _ _ _ (store16-Sets e.dst e.dst_offset val (omega (arith, o.long))) (λ dst l.
        if-Goes _ (ltb dst_size (add32 (add32 e.dst_offset 2) 1)) _ _ (λ _. stops _)
          (λ y.
            let at : e.dst_offset + 2 < dst_size = omega (arith, ltb→le _ _ y) in
            bind-Goes _ _ _
              (store-Sets dst (add32 e.dst_offset 2) n (omega (arith, ap length l, long1)))
              (λ dst' l'.
                let whole : dst' ≡ set dst1 (e.dst_offset + 2) n = l' ∙ rw (l, d_e, n_e) refl in
                continues Next _ (
                  ref-Advanced e _ (u8 (val / 2 ^ 8) ∷ u8 val ∷ n ∷ []) v
                    (ap length whole ∙ length-set dst1 (e.dst_offset + 2) n ∙ long1) (omega arith)
                    (omega arith) (omega arith) refl refl
                    (rw whole (
                      get_or-set_ne dst1 (e.dst_offset + 2) g n 0
                        (λ q. absurd (omega (arith, o.header)))
                      ∙ get_or-write16 e.dst e.dst_offset val g o.header))
                    (rw whole (
                      SameStart-set dst1 start (e.dst_offset + 2) n (omega (arith, o.at_dst))
                        (SameStart-write16 e.dst start e.dst_offset val o.at_dst.0 v.same_start)))
                    (λ h.
                      rw (whole, d_e')
                        (written-push dst1 g (e.dst_offset + 2) n h (omega (arith, o.header))
                            (omega (arith, long1)) (omega (arith, o.at_dst))
                          ∙ ap (λ k. k ++ n ∷ [])
                              (written-push16 e.dst g e.dst_offset val h o.header
                                (omega (arith, o.long)) o.at_dst.0)
                          ∙ append_assoc (written e.dst g e.dst_offset h)
                              (u8 (val / 2 ^ 8) ∷ u8 val ∷ []) (n ∷ [])))
                    (rw s_e (
                      long-IsItem e.src_offset r n e.index val back near long fits v.index_in same
                        val_e))))))
