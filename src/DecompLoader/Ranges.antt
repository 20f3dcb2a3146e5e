-- ===== src/DecompLoader/Ranges.antt =====
-- DecompLoader.cc: what the reading thread offers of a range of the file.
use mkw_sp.Base.{
  ℕ, zero, suc, ◌+◌, ◌-◌, ◌*◌, ◌^◌, ◌≡◌, ◌≤◌, ◌<◌, min, ◌⊎◌, List, [], ◌∷◌, ◌++◌, Option, none,
  some, ltb, leb, append-nil, take_add, drop_add, length, take, drop, refl, sym, ap, ◌∙◌, subst,
  arith, Bool-cases, Option-cases, inl, inr,
}
use mkw_sp.Base.Words.{u32, add32}
use mkw_sp.DecompLoader.{Update, File, buffer_size, read_loop, read_file}
use mkw_sp.DecompLoader.Loop.{Offers}

-- The file has these bytes: reading gives them, or fails.
pub record Holds (file : File) (bytes : List ℕ) : Type 0 where
  pub size : file.size ≡ length bytes
  pub reads :
      (n offset : ℕ) (r : List ℕ) → file.read n offset ≡ some r → r ≡ take n (drop offset bytes)

-- The bytes from an offset to an end.
abbrev pub range : List ℕ → ℕ → ℕ → List ℕ
range bytes offset end = take (end - offset) (drop offset bytes)

-- A first chunk is the start of the bytes from the offset on.
abbrev pub FirstAt : List ℕ → ℕ → List Update → Type 0
FirstAt bytes offset [] = Unit
FirstAt bytes offset (Update.failed ∷ updates) = Unit
FirstAt bytes offset (Update.end ∷ updates) = Unit
FirstAt bytes offset (Update.chunk src ∷ updates) = (n : ℕ) × (src ≡ take n (drop offset bytes))

-- Offered: all of a range, or a part of it and then a failure.
abbrev pub OffersRange : List ℕ → ℕ → ℕ → Option (List Update) → Type 0
OffersRange bytes offset end q =
    (updates : List Update) × (q ≡ some updates)
    × FirstAt bytes offset updates
    × (Offers (some (range bytes offset end)) updates ⊎ Offers none updates)

range-split :
    (bytes : List ℕ) (offset n end : ℕ)
    → offset + n ≤ end
    → range bytes offset end ≡ take n (drop offset bytes) ++ range bytes (offset + n) end
range-split bytes offset n end h =
    ap (λ k. take k (drop offset bytes)) {y = n + (end - (offset + n))} (omega arith)
    ∙ take_add n (end - (offset + n)) (drop offset bytes)
    ∙ ap (λ x. take n (drop offset bytes) ++ take (end - (offset + n)) x)
        (sym (drop_add offset n bytes))

range-empty : (bytes : List ℕ) (offset end : ℕ) → end ≤ offset → range bytes offset end ≡ []
range-empty bytes offset end h = ap (λ n. take n (drop offset bytes)) {y = 0} (omega arith)

-- A round of the loop offers the start of the range, and leaves the rest.
range-chunk :
    (bytes : List ℕ) (offset end : ℕ)
    → offset < end
    → end + buffer_size < 2 ^ 32
    → range bytes offset end
      ≡ take (min (end - offset) buffer_size) (drop offset bytes)
        ++ range bytes (add32 offset buffer_size) end
range-chunk bytes offset end l b = elim (Bool-cases (leb buffer_size (end - offset))) [
  | inl y ↦
      range-split bytes offset buffer_size end (ground (arith, y))
      ∙ ap (λ k. take k (drop offset bytes) ++ range bytes (offset + buffer_size) end)
          {x = buffer_size} {y = min (end - offset) buffer_size} (ground (arith, y))
      ∙ ap (λ k. take (min (end - offset) buffer_size) (drop offset bytes) ++ range bytes k end)
          {x = offset + buffer_size} {y = add32 offset buffer_size} (omega arith)
  | inr n ↦
      sym (append-nil (range bytes offset end))
      ∙ ap (λ x. range bytes offset end ++ x)
          (sym (range-empty bytes (add32 offset buffer_size) end (ground (arith, n))))
      ∙ ap (λ k. take k (drop offset bytes) ++ range bytes (add32 offset buffer_size) end)
          {x = end - offset} {y = min (end - offset) buffer_size} (ground (arith, n))
]

-- The first chunk in front of what is offered after it.
offer-chunk :
    (r xs whole : List ℕ) (updates : List Update)
    → whole ≡ r ++ xs
    → (Offers (some xs) updates ⊎ Offers none updates)
    → (Offers (some whole) (Update.chunk r ∷ updates) ⊎ Offers none (Update.chunk r ∷ updates))
offer-chunk r xs whole updates e (inl q) =
    inl (subst (λ x. Offers (some x) (Update.chunk r ∷ updates)) (sym e) (Offers.carries q))
offer-chunk r xs whole updates e (inr q) = inr (Offers.carries_part q)

read_loop-Offers :
    (fuel : ℕ) (file : File) (bytes : List ℕ) (size offset : ℕ)
    → Holds file bytes
    → size + buffer_size < 2 ^ 32
    → offset < 2 ^ 32
    → size - offset + buffer_size ≤ fuel * buffer_size
    → OffersRange bytes offset size (read_loop fuel file size offset)
unfolding read_loop
read_loop-Offers zero file bytes size offset h b c f = absurd (omega arith)
read_loop-Offers (suc fuel) file bytes size offset h b c f = elim (Bool-cases (ltb offset size)) [
  | inr n ↦ (
    Update.end ∷ [],
    rw (read_loop, n) refl,
    tt,
    inl (
        subst (λ x. Offers (some x) (Update.end ∷ []))
          (sym (range-empty bytes offset size (ground (arith, n)))) Offers.ends),
  )
  | inl y ↦ elim (Option-cases (file.read (min (size - offset) buffer_size) offset)) [
    | inl n ↦ (Update.failed ∷ [], rw (read_loop, y, n) refl, tt, inr Offers.fails)
    | inr (r, e) ↦
        let n = min (size - offset) buffer_size in
        let (updates, runs, _, q) =
          read_loop-Offers fuel file bytes size (add32 offset buffer_size) h b (omega arith)
            (ground (arith, y, f)) in
        (
          Update.chunk r ∷ updates,
          rw (read_loop, y, e, runs) refl,
          (n, h.reads n offset r e),
          offer-chunk r (range bytes (add32 offset buffer_size) size) (range bytes offset size)
              updates
              (range-chunk bytes offset size (ground (arith, y)) b
                ∙ ap (λ x. x ++ range bytes (add32 offset buffer_size) size)
                    (sym (h.reads n offset r e)))
              q,
        )
  ]
]

-- Read of an open file of less than 4 GiB, with enough fuel: it offers the bytes from the offset on,
-- at most max_size of them, or it fails, at once or after a part of them.
pub read_file-Offers :
    (fuel : ℕ) (file : File) (bytes : List ℕ) (max_size offset : ℕ)
    → Holds file bytes
    → length bytes + buffer_size < 2 ^ 32
    → length bytes + buffer_size ≤ fuel * buffer_size
    → OffersRange bytes offset
        (min (length bytes) (offset + max_size))
        (read_file fuel (some file) max_size offset)
unfolding read_file
read_file-Offers fuel file bytes max_size offset h b f = elim (Bool-cases (ltb file.size offset)) [
  | inl y ↦ (Update.failed ∷ [], rw (read_file, y) refl, tt, inr Offers.fails)
  | inr n ↦
      let end = min (length bytes) (offset + max_size) in
      let end' = min file.size (offset + max_size) in
      let same : end' ≡ end = omega (arith, h.size) in
      let inside : offset ≤ length bytes = ground (arith, n, h.size) in
      let (updates, runs, first, q) =
        read_loop-Offers fuel file bytes end offset h (omega (arith, b)) (omega (arith, inside, b))
          (omega (arith, f)) in
      (
        updates,
        rw (read_file, n)
            (ap (λ e. read_loop fuel file e (u32 offset)) same
              ∙ ap (read_loop fuel file end) (omega (arith, inside, b))
              ∙ runs),
        first,
        q,
      )
]
