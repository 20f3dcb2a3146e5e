-- ===== src/YazEncoder/Fits.antt =====
-- Yaz_encode comes to the end of its source where the destination is a ninth larger, and more.
use mathlib.Core.Option.{some-injective}
use mkw_sp.Base.{
  ℕ, zero, suc, ◌+◌, ◌-◌, ◌*◌, ◌%◌, ◌^◌, ◌≤◌, ◌<◌, ◌≡◌, inl, inr, List, Option, none, some, Bool,
  true, false, Bool-cases, ltb, ltb→le, ltb→lt, ◌==◌, ◌&&◌, length, refl, arith, sym, ◌∙◌, subst,
  if◌then◌else◌, ==→eq,
}
use mkw_sp.Base.Words.{add32}
use mkw_sp.YazEncoder.{
  bind, Best, Encoder, find_best, open_group, emit_literal, emit_ref, encode_step, encode_loop,
}
use mkw_sp.YazEncoder.Search.{Gives, store-Gives, store16-Gives, byte-Gives}
use mkw_sp.YazEncoder.Goes.{Goes}
use mkw_sp.YazEncoder.Bounds.{
  Inside, Open, Found-fits, Round, open_group-Goes, encode_step-Goes, find_best-Gives,
}
use mkw_sp.YazEncoder.Written.{left}

-- A step that goes on, to a state with a property.
abbrev Continues : (Encoder → Type 0) → Option (Option Encoder) → Type 0
Continues P o = (e : Encoder) × (o ≡ some (some e)) × P e

bind-Continues :
    {A : Type 0} {Q : A → Type 0} (P : Encoder → Type 0) (o : Option A)
    (k : A → Option (Option Encoder))
    → Gives Q o
    → ((a : A) → Q a → Continues P (k a))
    → Continues P (bind o k)
bind-Continues P none k (a, e, q) h = cc
bind-Continues {Q = Q} P (some a) k (b, e, q) h = h a (subst Q (sym (some-injective _ _ e)) q)

if-Continues :
    (P : Encoder → Type 0) (b : Bool) (o p : Option (Option Encoder))
    → (b ≡ true → Continues P o)
    → (b ≡ false → Continues P p)
    → Continues P (if b then o else p)
if-Continues P true o p x y = x refl
if-Continues P false o p x y = y refl

both :
    (P Q : Encoder → Type 0) (o : Option (Option Encoder))
    → Continues P o
    → Goes Q o
    → Continues (λ e. P e × Q e) o
both P Q o (e, f, p) (r, g, q) = (e, f, (p, q e (some-injective _ _ (sym g ∙ f))))

-- The destination between two items: at most nine bits for each byte of the source, and the bits
-- of the open header that are left.
abbrev pub Fits : Encoder → Type 0
Fits e = (e.index < 8) × (8 * e.dst_offset ≤ 128 + 9 * e.src_offset + left e.index)

abbrev FitsOpen : Encoder → Type 0
FitsOpen e = (e.index < 8) × (8 * e.dst_offset ≤ 128 + 9 * e.src_offset + (8 - e.index))

abbrev FitsNext : Encoder → Type 0
FitsNext e = Fits (record e { index = (e.index + 1) % 8 })

module _ (src : List ℕ) (src_size dst_size room : ℕ) (in_src : src_size ≤ length src)
    (in_dst : dst_size ≤ room) (small_src : src_size < 2 ^ 31) (small_dst : dst_size < 2 ^ 31)
    (roomy : 9 * src_size + 160 ≤ 8 * dst_size) where
  abbrev IsInside : Encoder → Type 0
  IsInside e = Inside src src_size dst_size room in_src in_dst small_src small_dst e

  abbrev IsOpen : Encoder → Type 0
  IsOpen e = Open src src_size dst_size room in_src in_dst small_src small_dst e

  open_group-Fits :
      (e : Encoder)
      → IsInside e
      → Fits e
      → e.src_offset < src_size
      → Continues
          (λ e'. FitsOpen e' × (e'.src_offset ≡ e.src_offset))
          (open_group src src_size dst_size e)
  unfolding open_group
  open_group-Fits e v f a =
      if-Continues _ (e.index == 0) _ _
        (λ y.
          bind-Continues _ _ _ (store-Gives e.dst e.dst_offset 0 (omega (arith, v.long, f.1)))
            (λ dst l.
              if-Continues _ (add32 e.dst_offset 1 == dst_size) _ _
                (λ q. absurd (omega (arith, ==→eq _ _ q, ==→eq _ _ y, f.1)))
                (λ _. (_, refl, ((f.0, omega (arith, ==→eq _ _ y, f.1)), refl)))))
        (λ n. (e, refl, ((f.0, omega (arith, f.0, f.1)), refl)))

  emit_literal-Fits :
      (e : Encoder)
      → IsOpen e
      → FitsOpen e
      → Continues FitsNext (emit_literal src src_size dst_size e)
  unfolding emit_literal
  emit_literal-Fits e v f =
      bind-Continues _ _ _
        (byte-Gives e.dst e.group_header_offset (omega (arith, v.long, v.header, v.at_dst)))
        (λ header _.
          bind-Continues _ _ _
            (store-Gives e.dst e.group_header_offset (header + 2 ^ (7 - e.index))
              (omega (arith, v.long, v.header, v.at_dst)))
            (λ dst l.
              bind-Continues _ _ _ (byte-Gives src e.src_offset (omega (arith, v.at_src))) (λ val _.
                bind-Continues _ _ _
                  (store-Gives dst e.dst_offset val (omega (arith, l, v.long, v.at_dst)))
                  (λ dst' l'.
                    (_, refl, (omega arith, omega (arith, f.0, f.1, v.at_src, v.at_dst)))))))

  emit_ref-Fits :
      (best : Best) (e : Encoder)
      → IsOpen e
      → FitsOpen e
      → 3 ≤ best.size
      → e.src_offset + best.size ≤ src_size
      → Continues FitsNext (emit_ref src src_size dst_size best e)
  unfolding emit_ref
  emit_ref-Fits best e v f big fits =
      if-Continues _ (ltb dst_size (add32 e.dst_offset 2)) _ _
        (λ y. absurd (omega (arith, ltb→lt _ _ y, f.0, f.1)))
        (λ n.
          if-Continues _ (ltb best.size 0x12) _ _
            (λ _.
              bind-Continues _ _ _
                (store16-Gives e.dst e.dst_offset _ (omega (arith, ltb→le _ _ n, v.long, v.at_dst)))
                (λ dst l. (_, refl, (omega arith, omega (arith, f.0, f.1, v.at_src, v.at_dst)))))
            (λ m.
              bind-Continues _ _ _
                (store16-Gives e.dst e.dst_offset _ (omega (arith, ltb→le _ _ n, v.long, v.at_dst)))
                (λ dst l.
                  if-Continues _ (ltb dst_size (add32 (add32 e.dst_offset 2) 1)) _ _
                    (λ y. absurd (omega (arith, ltb→lt _ _ y, f.0, f.1)))
                    (λ k.
                      bind-Continues _ _ _
                        (store-Gives dst (add32 e.dst_offset 2) _
                          (omega (arith, ltb→le _ _ k, l, v.long, v.at_dst)))
                        (λ dst' l'. (
                          _,
                          refl,
                          (omega arith, omega (arith, ltb→le _ _ m, f.0, f.1, v.at_src, v.at_dst)),
                        ))))))

  turn-Fits :
      (o : Option (Option Encoder))
      → Continues FitsNext o
      → Continues Fits (elim o [
        | none ↦ none
        | some none ↦ some none
        | some (some e'') ↦ some (some (record e'' { index = (e''.index + 1) % 8 }))
      ])
  turn-Fits none (e, f, p) = cc
  turn-Fits (some none) (e, f, p) = cc
  turn-Fits (some (some e'')) (e, f, p) =
      (_, refl, subst FitsNext (sym (some-injective _ _ (some-injective _ _ f))) p)

  item-Fits :
      (o : Option (Option Encoder))
      → Continues (λ e'. FitsOpen e' × IsOpen e') o
      → Continues Fits (elim o [
        | none ↦ none
        | some none ↦ some none
        | some (some e') ↦ bind (find_best src src_size dst_size e') (λ best.
            elim (if ltb best.size 3
              then emit_literal src src_size dst_size e'
              else emit_ref src src_size dst_size best e') [
                | none ↦ none
                | some none ↦ some none
                | some (some e'') ↦ some (some (record e'' { index = (e''.index + 1) % 8 }))
              ])
      ])
  item-Fits none (e, f, p) = cc
  item-Fits (some none) (e, f, p) = cc
  item-Fits (some (some e')) (e, f, p) =
      let (fits, v) =
        subst (λ x. FitsOpen x × IsOpen x) (sym (some-injective _ _ (some-injective _ _ f))) p in
      bind-Continues _ _ _
        (find_best-Gives src src_size dst_size room in_src in_dst small_src small_dst e' v)
        (λ best h. turn-Fits _ (
          if-Continues FitsNext (ltb best.size 3) _ _ (λ _. emit_literal-Fits e' v fits)
            (λ n. emit_ref-Fits best e' v fits (ltb→le _ _ n) (
              Found-fits src src_size dst_size room in_src in_dst small_src small_dst e' best h
                (ltb→le _ _ n)))))

  encode_step-Fits :
      (e : Encoder)
      → IsInside e
      → Fits e
      → e.src_offset < src_size
      → Continues Fits (encode_step src src_size dst_size e)
  unfolding encode_step
  encode_step-Fits e v f a =
      let opened =
        open_group-Goes src src_size dst_size room in_src in_dst small_src small_dst e v a
          (omega (arith, f.0, f.1)) in
      let (e', runs, ((fits, _), (is_open, _))) = both _ _ _ (open_group-Fits e v f a) opened in
      item-Fits (open_group src src_size dst_size e) (e', runs, (fits, is_open))

  pub encode_loop-Fits :
      (fuel : ℕ) (e : Encoder)
      → IsInside e
      → Fits e
      → src_size - e.src_offset < fuel
      → Continues (λ t. t.src_offset ≡ src_size) (encode_loop src src_size dst_size fuel e)
  unfolding encode_loop
  encode_loop-Fits zero e v f l = absurd (omega arith)
  encode_loop-Fits (suc fuel) e v f l =
      if-Continues _ (ltb e.src_offset src_size && ltb e.dst_offset dst_size) _ _
        (λ y.
          let a : e.src_offset < src_size = ground (arith, y) in
          further (encode_step src src_size dst_size e)
            (both _ _ _ (encode_step-Fits e v f a) (
              encode_step-Goes src src_size dst_size room in_src in_dst small_src small_dst e v a
                (ground (arith, y))))
            (λ e' i g m. encode_loop-Fits fuel e' i g (omega (arith, m))))
        (λ n. (e, refl, at_end n))
    where
      at_end :
          (ltb e.src_offset src_size && ltb e.dst_offset dst_size) ≡ false → e.src_offset ≡ src_size
      at_end n = elim (Bool-cases (ltb e.src_offset src_size)) [
        | inl y ↦ absurd (ground (arith, n, y, f.1, ltb→lt _ _ y, f.0))
        | inr z ↦ omega (arith, ltb→le _ _ z, v.at_src)
      ]

      further :
          (o : Option (Option Encoder))
          → Continues
              (λ e'.
                Fits e' × Round src src_size dst_size room in_src in_dst small_src small_dst e e')
              o
          → ((e' : Encoder)
              → IsInside e'
              → Fits e'
              → e.src_offset < e'.src_offset
              → Continues
                  (λ t. t.src_offset ≡ src_size)
                  (encode_loop src src_size dst_size fuel e'))
          → Continues
              (λ t. t.src_offset ≡ src_size)
              (elim o [
                | none ↦ none
                | some none ↦ some none
                | some (some e') ↦ encode_loop src src_size dst_size fuel e'
              ])
      further none (r, g, p) h = cc
      further (some none) (r, g, p) h = cc
      further (some (some e')) (r, g, p) h =
          let (fits, (i, m)) =
            subst
              (λ x. Fits x × Round src src_size dst_size room in_src in_dst small_src small_dst e x)
              (sym (some-injective _ _ (some-injective _ _ g))) p in
          h e' i fits m
