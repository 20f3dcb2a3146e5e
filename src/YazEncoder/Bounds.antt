-- ===== src/YazEncoder/Bounds.antt =====
-- The rounds of Yaz_encode stay inside its buffers, and come to an end.
use mathlib.Core.Option.{some-injective}
use mkw_sp.Base.{
  ℕ, zero, suc, ◌+◌, ◌-◌, ◌%◌, ◌^◌, ◌≤◌, ◌<◌, ◌≡◌, ◌⊎◌, inl, inr, min, List, Option, none, some,
  ltb, ◌==◌, ◌&&◌, length, refl, arith, sym, ◌∙◌, if◌then◌else◌, ltb→le,
}
use mkw_sp.Base.Words.{add32}
use mkw_sp.YazEncoder.{
  bind, Best, Encoder, find_best, open_group, emit_literal, emit_ref, encode_step, encode_loop,
}
use mkw_sp.YazEncoder.Goes.{Goes, continues, stops, bind-Goes, if-Goes}
use mkw_sp.YazEncoder.Search.{Gives, store-Gives, store16-Gives, byte-Gives, find_from-Gives, Same}

module _ (src : List ℕ) (src_size dst_size room : ℕ) (in_src : src_size ≤ length src)
    (in_dst : dst_size ≤ room) (small_src : src_size < 2 ^ 31) (small_dst : dst_size < 2 ^ 31) where
  -- The state between two rounds: offsets inside the sizes, the group header before the offset.
  pub record Inside (e : Encoder) : Type 0 where
    pub long : length e.dst ≡ room
    pub at_src : e.src_offset ≤ src_size
    pub at_dst : (0x10 ≤ e.dst_offset) × (e.dst_offset ≤ dst_size)
    pub header : (e.index ≡ 0) ⊎ (e.group_header_offset < e.dst_offset)

  -- The state within a round, where a group is open.
  pub record Open (e : Encoder) : Type 0 where
    pub long : length e.dst ≡ room
    pub at_src : e.src_offset < src_size
    pub at_dst : (0x10 ≤ e.dst_offset) × (e.dst_offset < dst_size)
    pub header : e.group_header_offset < e.dst_offset

  -- The next state of a round: further in the source, by at least one byte.
  abbrev Next : Encoder → Encoder → Type 0
  Next e e' =
      (length e'.dst ≡ room)
      × (e.src_offset < e'.src_offset)
      × (e'.src_offset ≤ src_size)
      × (0x10 ≤ e'.dst_offset)
      × (e'.dst_offset ≤ dst_size)
      × (e'.group_header_offset < e'.dst_offset)

  pub open_group-Goes :
      (e : Encoder)
      → Inside e
      → e.src_offset < src_size
      → e.dst_offset < dst_size
      → Goes (λ e'. Open e' × (e'.src_offset ≡ e.src_offset)) (open_group src src_size dst_size e)
  unfolding open_group
  open_group-Goes e v a b =
      if-Goes _ (e.index == 0) _ _
        (λ y. bind-Goes _ _ _ (store-Gives e.dst e.dst_offset 0 (omega (arith, v.long))) (λ dst l.
          if-Goes _ (add32 e.dst_offset 1 == dst_size) _ _ (λ _. stops _)
            (λ n. continues _ _ (
              record {
                long = l ∙ v.long;
                at_src = a;
                at_dst = ground (arith, v.at_dst, n);
                header = omega arith;
              },
              refl,
            ))))
        (λ n. continues _ e (
          record {
            long = v.long;
            at_src = a;
            at_dst = (v.at_dst.0, b);
            header = ground (arith, v.header, n);
          },
          refl,
        ))

  pub emit_literal-Goes :
      (e : Encoder) → Open e → Goes (Next e) (emit_literal src src_size dst_size e)
  unfolding emit_literal
  emit_literal-Goes e v =
      bind-Goes _ _ _
        (byte-Gives e.dst e.group_header_offset (omega (arith, v.long, v.header, v.at_dst)))
        (λ header _.
          bind-Goes _ _ _
            (store-Gives e.dst e.group_header_offset (header + 2 ^ (7 - e.index))
              (omega (arith, v.long, v.header, v.at_dst)))
            (λ dst l.
              bind-Goes _ _ _ (byte-Gives src e.src_offset (omega (arith, v.at_src))) (λ val _.
                bind-Goes _ _ _
                  (store-Gives dst e.dst_offset val (omega (arith, l, v.long, v.at_dst)))
                  (λ dst' l'. continues _ _ (
                    l' ∙ l ∙ v.long,
                    omega (arith, v.at_src),
                    omega (arith, v.at_src),
                    omega (arith, v.at_dst),
                    omega (arith, v.at_dst),
                    omega (arith, v.header, v.at_dst),
                  )))))

  pub emit_ref-Goes :
      (best : Best) (e : Encoder)
      → Open e
      → 1 ≤ best.size
      → e.src_offset + best.size ≤ src_size
      → Goes (Next e) (emit_ref src src_size dst_size best e)
  unfolding emit_ref
  emit_ref-Goes best e v one fits =
      if-Goes _ (ltb dst_size (add32 e.dst_offset 2)) _ _ (λ _. stops _)
        (λ n.
          if-Goes _ (ltb best.size 0x12) _ _
            (λ _.
              bind-Goes _ _ _
                (store16-Gives e.dst e.dst_offset _ (ground (arith, n, v.long, v.at_dst)))
                (λ dst l. continues _ _ (
                  l ∙ v.long,
                  omega arith,
                  omega arith,
                  omega (arith, v.at_dst),
                  ground (arith, n),
                  omega (arith, v.header, v.at_dst),
                )))
            (λ _.
              bind-Goes _ _ _
                (store16-Gives e.dst e.dst_offset _ (ground (arith, n, v.long, v.at_dst)))
                (λ dst l.
                  if-Goes _ (ltb dst_size (add32 (add32 e.dst_offset 2) 1)) _ _ (λ _. stops _)
                    (λ n'.
                      bind-Goes _ _ _
                        (store-Gives dst (add32 e.dst_offset 2) _
                          (ground (arith, n', l, v.long, v.at_dst)))
                        (λ dst' l'. continues _ _ (
                          l' ∙ l ∙ v.long,
                          omega arith,
                          omega arith,
                          omega (arith, v.at_dst),
                          ground (arith, n'),
                          omega (arith, v.header, v.at_dst),
                        ))))))

  -- What the search gives: a size of at most 1, or a reference inside the source.
  abbrev pub Found : Encoder → Best → Type 0
  Found e b =
      (b.size ≤ 1)
      ⊎ ((e.src_offset + b.size ≤ src_size)
          × (b.size ≤ 0x111)
          × (b.offset < e.src_offset)
          × (e.src_offset ≤ b.offset + 0x1000)
          × Same src e.src_offset b.offset b.size)

  pub find_best-Gives : (e : Encoder) → Open e → Gives (Found e) (find_best src src_size dst_size e)
  unfolding find_best
  find_best-Gives e v =
      let max = min (min 0x111 (src_size - e.src_offset)) (dst_size - e.dst_offset) in
      let first = e.src_offset - 0x1000 in
      let (b, runs, h) =
        find_from-Gives src max (e.src_offset - first) e.src_offset first
          (record { size = 1; offset = 0 }) (omega arith) (omega (arith, v.at_src)) (omega arith)
          (omega arith) (inl (omega arith)) in
      (
        b,
        runs,
        elim h [
          | inl y ↦ inl y
          | inr (y, back, near, same) ↦
              inr (omega (arith, y, v.at_src), omega (arith, y), back, near, same)
        ],
      )

  pub Found-fits :
      (e : Encoder) (b : Best) → Found e b → 3 ≤ b.size → e.src_offset + b.size ≤ src_size
  Found-fits e b (inl y) n = absurd (omega arith)
  Found-fits e b (inr (y, _, _, _, _)) n = y

  -- A round.
  abbrev pub Round : Encoder → Encoder → Type 0
  Round e e' = Inside e' × (e.src_offset < e'.src_offset)

  pub turn :
      (e : Encoder) (o : Option (Option Encoder))
      → Goes (Next e) o
      → Goes (Round e) (elim o [
        | none ↦ none
        | some none ↦ some none
        | some (some e'') ↦ some (some (record e'' { index = (e''.index + 1) % 8 }))
      ])
  turn e none (r, f, p) = cc
  turn e (some none) (r, f, p) = stops _
  turn e (some (some e'')) (r, f, p) =
      let (l, a, b, c, d, g) = p e'' (sym (some-injective _ _ f)) in
      continues _ _ (record { long = l; at_src = b; at_dst = (c, d); header = inr g }, a)

  step-Open :
      (e : Encoder) (o : Option (Option Encoder))
      → Goes (λ e'. Open e' × (e'.src_offset ≡ e.src_offset)) o
      → Goes (Round e) (elim o [
        | none ↦ none
        | some none ↦ some none
        | some (some e') ↦ bind (find_best src src_size dst_size e') (λ best.
            elim (if ltb best.size 3
              then emit_literal src src_size dst_size e'
              else emit_ref src src_size dst_size best e') [
                | none ↦ none
                | some none ↦ some none
                | some (some e'') ↦ some (some (record e'' { index = (e''.index + 1) % 8 }))
              ])
      ])
  step-Open e none (r, f, p) = cc
  step-Open e (some none) (r, f, p) = stops _
  step-Open e (some (some e')) (r, f, p) =
      let (v, same) = p e' (sym (some-injective _ _ f)) in
      bind-Goes _ _ _ (find_best-Gives e' v) (λ best h.
        let (r', runs, q) = turn e' _ (
          if-Goes (Next e') (ltb best.size 3) _ _ (λ _. emit_literal-Goes e' v)
            (λ n.
              emit_ref-Goes best e' v (ground (arith, n)) (Found-fits e' best h (ltb→le _ _ n)))) in
        (r', runs, λ e'' g. let (i, l) = q e'' g in (i, omega (arith, l, same))))

  pub encode_step-Goes :
      (e : Encoder)
      → Inside e
      → e.src_offset < src_size
      → e.dst_offset < dst_size
      → Goes (Round e) (encode_step src src_size dst_size e)
  unfolding encode_step
  encode_step-Goes e v a b =
      step-Open e (open_group src src_size dst_size e) (open_group-Goes e v a b)

  pub encode_loop-Goes :
      (fuel : ℕ) (e : Encoder)
      → Inside e
      → src_size - e.src_offset < fuel
      → Goes Inside (encode_loop src src_size dst_size fuel e)
  unfolding encode_loop
  encode_loop-Goes zero e v f = absurd (omega arith)
  encode_loop-Goes (suc fuel) e v f =
      if-Goes _ (ltb e.src_offset src_size && ltb e.dst_offset dst_size) _ _
        (λ y.
          further (encode_step src src_size dst_size e)
            (encode_step-Goes e v (ground (arith, y)) (ground (arith, y)))
            (λ e' i l. encode_loop-Goes fuel e' i (omega (arith, l))))
        (λ _. continues _ e v)
    where
      further :
          (o : Option (Option Encoder))
          → Goes (Round e) o
          → ((e' : Encoder)
              → Inside e'
              → e.src_offset < e'.src_offset
              → Goes Inside (encode_loop src src_size dst_size fuel e'))
          → Goes Inside (elim o [
            | none ↦ none
            | some none ↦ some none
            | some (some e') ↦ encode_loop src src_size dst_size fuel e'
          ])
      further none (r, g, p) h = cc
      further (some none) (r, g, p) h = stops _
      further (some (some e')) (r, g, p) h =
          let (i, l) = p e' (sym (some-injective _ _ g)) in h e' i l
