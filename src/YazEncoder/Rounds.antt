-- ===== src/YazEncoder/Rounds.antt =====
-- Yaz_encode: every round keeps what is written a stream of what was read.
use mathlib.Core.Option.{some-injective}
use mkw_sp.Base.{
  ℕ, zero, suc, ◌+◌, ◌-◌, ◌*◌, ◌%◌, ◌^◌, ◌≤◌, ◌<◌, ◌≡◌, inl, inr, List, Option, none, some, length,
  get_or, arith, sym, subst, Bool-cases, ltb, ltb→le, ◌&&◌, if◌then◌else◌, ltb→lt,
}
use mkw_sp.Base.Words.{u16, add32}
use mkw_sp.Decoder.Yaz.{YazDecoder}
use mkw_sp.YazEncoder.{
  bind, Best, Encoder, store, store16, emit_literal, emit_ref, encode_step, encode_loop, find_best,
  open_group,
}
use mkw_sp.YazEncoder.Bounds.{Found, find_best-Gives}
use mkw_sp.YazEncoder.Goes.{Goes, continues, stops, bind-Goes, if-Goes}
use mkw_sp.YazEncoder.Stream.{Encodes, Opens, open_group-Opens}
use mkw_sp.YazEncoder.Items.{Advanced, emit_literal-Advanced}
use mkw_sp.YazEncoder.Refs.{short-Goes, long-Goes}

module _ (src : List ℕ) (src_size dst_size room : ℕ) (in_src : src_size ≤ length src)
    (in_dst : dst_size ≤ room) (small_src : src_size < 2 ^ 31) (small_dst : dst_size < 2 ^ 31)
    (d0 : YazDecoder) (start : List ℕ) (bytes : (j : ℕ) → get_or src j 0 < 256) where
  abbrev pub Good : Encoder → Type 0
  Good e = Encodes src src_size dst_size room in_src in_dst small_src small_dst d0 start e

  abbrev IsStart : Encoder → Type 0
  IsStart e = Opens src src_size dst_size room in_src in_dst small_src small_dst d0 start e

  abbrev Next : Encoder → Type 0
  Next e = Advanced src src_size dst_size room in_src in_dst small_src small_dst d0 start bytes e

  emit_ref-Next :
      (best : Best) (e : Encoder)
      → IsStart e
      → Found src src_size dst_size room in_src in_dst small_src small_dst e best
      → 3 ≤ best.size
      → Goes Next (emit_ref src src_size dst_size best e)
  unfolding emit_ref
  emit_ref-Next best e v (inl y) big = absurd (omega arith)
  emit_ref-Next best e v (inr (fits, max, back, near, same)) big =
      let distance = e.src_offset - best.offset - 1 in
      if-Goes _ (ltb dst_size (add32 e.dst_offset 2)) _ _ (λ _. stops _)
        (λ y.
          let rooms : e.dst_offset + 2 ≤ dst_size = omega (arith, ltb→le _ _ y, v.open_in.at_dst) in
          if-Goes _ (ltb best.size 0x12) _ _
            (λ small.
              let size_e : best.size - 3 + 3 ≡ best.size = omega arith in
              subst
                (λ k. Goes Next (
                  bind (store16 e.dst e.dst_offset (u16 ((best.size - 2) * 2 ^ 12 + distance)))
                    (λ dst. some (
                      some (record e {
                        dst = dst;
                        dst_offset = add32 e.dst_offset 2;
                        src_offset = add32 e.src_offset k;
                      })))))
                size_e
                (short-Goes src src_size dst_size room in_src in_dst small_src small_dst d0 start
                  bytes e best.offset (best.size - 3) _ v back near
                  (omega (arith, ltb→lt _ _ small)) (omega arith) (rw size_e same)
                  (omega (arith, ltb→lt _ _ small)) rooms))
            (λ large.
              let size_e : best.size - 0x12 + 0x12 ≡ best.size = omega (arith, ltb→le _ _ large) in
              subst
                (λ k. Goes Next (
                  bind (store16 e.dst e.dst_offset (u16 distance)) (λ dst.
                    if ltb dst_size (add32 (add32 e.dst_offset 2) 1)
                    then some none
                    else bind (store dst (add32 e.dst_offset 2) (best.size - 0x12)) (λ dst'. some (
                        some (record e {
                          dst = dst';
                          dst_offset = add32 (add32 e.dst_offset 2) 1;
                          src_offset = add32 e.src_offset k;
                        }))))))
                size_e
                (long-Goes src src_size dst_size room in_src in_dst small_src small_dst d0 start
                  bytes e best.offset (best.size - 0x12) _ v back near (omega arith)
                  (omega (arith, size_e)) (rw size_e same) (omega arith) rooms)))

  turn :
      (o : Option (Option Encoder))
      → Goes Next o
      → Goes Good (elim o [
        | none ↦ none
        | some none ↦ some none
        | some (some e'') ↦ some (some (record e'' { index = (e''.index + 1) % 8 }))
      ])
  turn none (r, f, p) = cc
  turn (some none) (r, f, p) = stops _
  turn (some (some e'')) (r, f, p) = continues _ _ (p e'' (sym (some-injective _ _ f)))

  item-Good :
      (o : Option (Option Encoder))
      → Goes IsStart o
      → Goes Good (elim o [
        | none ↦ none
        | some none ↦ some none
        | some (some e') ↦ bind (find_best src src_size dst_size e') (λ best.
            elim (if ltb best.size 3
              then emit_literal src src_size dst_size e'
              else emit_ref src src_size dst_size best e') [
                | none ↦ none
                | some none ↦ some none
                | some (some e'') ↦ some (some (record e'' { index = (e''.index + 1) % 8 }))
              ])
      ])
  item-Good none (r, f, p) = cc
  item-Good (some none) (r, f, p) = stops _
  item-Good (some (some e')) (r, f, p) =
      let v = p e' (sym (some-injective _ _ f)) in
      bind-Goes _ _ _
        (find_best-Gives src src_size dst_size room in_src in_dst small_src small_dst e' v.open_in)
        (λ best h. turn _ (
          if-Goes Next (ltb best.size 3) _ _
            (λ _.
              emit_literal-Advanced src src_size dst_size room in_src in_dst small_src small_dst d0
                start bytes e' v)
            (λ n. emit_ref-Next best e' v h (ltb→le _ _ n))))

  encode_step-Good :
      (e : Encoder)
      → Good e
      → e.src_offset < src_size
      → e.dst_offset < dst_size
      → Goes Good (encode_step src src_size dst_size e)
  unfolding encode_step
  encode_step-Good e v a b = item-Good (open_group src src_size dst_size e) (
      open_group-Opens src src_size dst_size room in_src in_dst small_src small_dst d0 start e v a
        b)

  pub encode_loop-Good :
      (fuel : ℕ) (e t : Encoder)
      → Good e
      → encode_loop src src_size dst_size fuel e ≡ some (some t)
      → Good t
  unfolding encode_loop
  encode_loop-Good zero e t v f = cc
  encode_loop-Good (suc fuel) e t v f =
      elim (Bool-cases (ltb e.src_offset src_size && ltb e.dst_offset dst_size)) [
        | inl y ↦
            further (encode_step src src_size dst_size e)
              (encode_step-Good e v (ground (arith, y)) (ground (arith, y)))
              (λ x. encode_loop-Good fuel x t) (rw y at f)
        | inr n ↦ subst Good (some-injective _ _ (some-injective _ _ (rw n at f))) v
      ]
    where
      further :
          (o : Option (Option Encoder))
          → Goes Good o
          → ((x : Encoder)
              → Good x
              → encode_loop src src_size dst_size fuel x ≡ some (some t)
              → Good t)
          → ◌≡◌ {A = Option (Option Encoder)}
              (elim o [
                | none ↦ none
                | some none ↦ some none
                | some (some x) ↦ encode_loop src src_size dst_size fuel x
              ])
              (some (some t))
          → Good t
      further none g h e = cc
      further (some none) g h e = cc
      further (some (some x)) (r, q, p) h e = h x (p x (sym (some-injective _ _ q))) e
