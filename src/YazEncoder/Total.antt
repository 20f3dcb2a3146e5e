-- ===== src/YazEncoder/Total.antt =====
-- Yaz_encode returns, for any source.
use mathlib.Core.Option.{some-injective}
use mkw_sp.Base.{
  ℕ, ◌+◌, ◌^◌, ◌≤◌, ◌<◌, ◌≡◌, inl, inr, List, Option, none, some, ltb, ◌==◌, length, refl, arith,
  sym, ◌∙◌, subst, if◌then◌else◌, Bool-cases,
}
use mkw_sp.YazEncoder.{Encoder, encode}
use mkw_sp.YazEncoder.Search.{Gives, bind-Gives, if-Gives, store32-Gives}
use mkw_sp.YazEncoder.Bounds.{Inside, encode_loop-Goes}

-- What Yaz_encode returns: 0, or a size of at least 16 and at most dst_size, with a destination as
-- long as before.
abbrev pub Encoded : ℕ → ℕ → Option (ℕ × List ℕ) → Type 0
Encoded dst_size room r =
    (n : ℕ) (dst : List ℕ) → r ≡ some (n, dst) → (0x10 ≤ n) × (n ≤ dst_size) × (length dst ≡ room)

module _ (src : List ℕ) (src_size dst_size room : ℕ) (a : src_size ≤ length src)
    (b : dst_size ≤ room) (c : src_size < 2 ^ 31) (d : dst_size < 2 ^ 31) where
  last-Encoded :
      (o : Option (Option Encoder))
      → ((r : Option Encoder) × (o ≡ some r)
          × ((e : Encoder) → r ≡ some e → Inside src src_size dst_size room a b c d e))
      → Gives (Encoded dst_size room) (elim o [
        | none ↦ none
        | some none ↦ some none
        | some (some e) ↦
            some (if e.src_offset == src_size then some (e.dst_offset, e.dst) else none)
      ])
  last-Encoded none (r, e, p) = cc
  last-Encoded (some none) (r, e, p) = (none, refl, λ n dst f. cc)
  last-Encoded (some (some x)) (r, e, p) =
      let v = p x (sym (some-injective _ _ e)) in
      elim (Bool-cases (x.src_offset == src_size)) [
        | inl y ↦ rw y (
          _,
          refl,
          λ n dst f.
              subst (λ q. (0x10 ≤ q.0) × (q.0 ≤ dst_size) × (length q.1 ≡ room))
                (some-injective _ _ f) (v.at_dst.0, v.at_dst.1, v.long),
        )
        | inr n ↦ rw n (none, refl, λ m dst f. cc)
      ]

-- For sizes of less than 2 GiB that the two buffers have, Yaz_encode stays inside them, comes to an
-- end and returns: 0, or a size of at least 16 and at most dst_size.
pub encode_total :
    (src dst : List ℕ) (src_size dst_size : ℕ)
    → src_size ≤ length src
    → dst_size ≤ length dst
    → src_size < 2 ^ 31
    → dst_size < 2 ^ 31
    → (r : Option (ℕ × List ℕ)) × (encode src src_size dst_size dst ≡ some r)
      × Encoded dst_size (length dst) r
unfolding encode
encode_total src dst src_size dst_size a b c d =
    if-Gives (ltb dst_size 0x10) _ _ (λ _. (none, refl, λ n dst' f. cc))
      (λ big. bind-Gives _ _ (store32-Gives dst 0x0 0x59617a31 (ground arith)) (λ dst0 l0.
        bind-Gives _ _ (store32-Gives dst0 0x4 src_size (ground (arith, l0))) (λ dst1 l1.
          bind-Gives _ _ (store32-Gives dst1 0x8 0x0 (ground (arith, l0, l1))) (λ dst2 l2.
            bind-Gives _ _ (store32-Gives dst2 0xc 0x0 (ground (arith, l0, l1, l2))) (λ dst3 l3.
              last-Encoded src src_size dst_size (length dst) a b c d _ (
                encode_loop-Goes src src_size dst_size (length dst) a b c d (src_size + 1) _
                  (record {
                    long = l3 ∙ l2 ∙ l1 ∙ l0;
                    at_src = omega arith;
                    at_dst = ground arith;
                    header = inl refl;
                  })
                  (omega arith)))))))
