-- ===== src/IniReader/Line/Spaced.antt =====
-- IniReader::next on a line with a blank on both sides of `=`.
use mkw_sp.Base.{
  ℕ, ◌+◌, ◌≡◌, ◌∙◌, List, [], ◌∷◌, ◌++◌, Option, some, length, drop, arith, refl, sym, ap, drop_add,
  length-append, append_assoc, drop-length-append,
}
use mkw_sp.IniReader.{State, IniReader, Scan, Out, Kind, kind, wake, round, on_kind, scan, slice}
use mkw_sp.IniReader.Line.{
  IsWord, at, scan-go, scan-word, round-key, round-value, round-end_key, round-first_of_value,
  scan-newline, slice-word,
}

-- A reader that goes on at `pos` behind a line.
abbrev pub behind : IniReader → ℕ → IniReader
behind r pos = record r { pos = pos; state = State.post_want_value }

round-first_of_key :
    (s : Scan) (c : ℕ)
    → wake s.reader.state ≡ State.start
    → kind c ≡ Kind.other
    → round c s
      ≡ Out.go (
          at s.reader.view s.reader.section s.key s.reader.pos State.want_delim s.reader.pos
            s.reader.pos)
unfolding round on_kind
round-first_of_key s c awake e = rw (awake, e) refl

module _ (view : List ℕ) (section : Option (List ℕ)) (key : List ℕ) (token : ℕ) where
  round-blank_key :
      (pos last : ℕ)
      → round 32 (at view section key token State.want_delim pos last)
        ≡ Out.go (at view section key token State.want_delim pos last)
  unfolding round on_kind
  round-blank_key pos last = refl

  round-blank_value :
      (pos last : ℕ)
      → round 32 (at view section key token State.want_value pos last)
        ≡ Out.go (at view section key token State.want_value pos last)
  unfolding round on_kind
  round-blank_value pos last = refl

-- A line `key = value`, between two properties, gives the property with the section that is open.
pub scan-line :
    (s : Scan) (c d : ℕ) (k v rest : List ℕ)
    → wake s.reader.state ≡ State.start
    → drop s.reader.pos s.reader.view ≡ (c ∷ k) ++ (32 ∷ 61 ∷ 32 ∷ ((d ∷ v) ++ (10 ∷ rest)))
    → IsWord (c ∷ k)
    → IsWord (d ∷ v)
    → scan ((c ∷ k) ++ (32 ∷ 61 ∷ 32 ∷ ((d ∷ v) ++ (10 ∷ rest)))) s
      ≡ Out.property
          (record { section = s.reader.section; key = c ∷ k; value = d ∷ v })
          (behind s.reader (s.reader.pos + length k + length v + 6))
scan-line s c d k v rest awake e kw vw =
    let view = s.reader.view in
    let section = s.reader.section in
    let p = s.reader.pos in
    let q = p + length k + 4 in
    let key_slice : slice view p (p + length k + 1) ≡ some (c ∷ k) =
      ap (slice view p) (omega arith)
      ∙ slice-word view (c ∷ k) (32 ∷ 61 ∷ 32 ∷ ((d ∷ v) ++ (10 ∷ rest))) p e (omega arith) in
    let value_at : drop q view ≡ (d ∷ v) ++ (10 ∷ rest) =
      ap (λ n. drop n view) (omega arith)
      ∙ drop_add p (length k + 4) view
      ∙ ap (drop (length k + 4))
          (e ∙ sym (append_assoc (c ∷ k) (32 ∷ 61 ∷ 32 ∷ []) ((d ∷ v) ++ (10 ∷ rest))))
      ∙ drop-length-append (length k + 4) ((c ∷ k) ++ 32 ∷ 61 ∷ 32 ∷ []) ((d ∷ v) ++ (10 ∷ rest))
          (omega (arith, length-append k (32 ∷ 61 ∷ 32 ∷ []))) in
    let value_slice : slice view q (q + length v + 1) ≡ some (d ∷ v) =
      ap (slice view q) (omega arith)
      ∙ slice-word view (d ∷ v) (10 ∷ rest) q value_at (omega arith) in
    scan-go c _ _ _ (round-first_of_key s c awake kw.0)
    ∙ scan-word view section s.key p State.want_delim (round-key view section s.key p) k
        (32 ∷ 61 ∷ 32 ∷ ((d ∷ v) ++ (10 ∷ rest))) p kw.1
    ∙ scan-go 32 _ _ _ (round-blank_key view section s.key p (p + length k + 1) (p + length k))
    ∙ scan-go 61 _ _ _
        (round-end_key view section s.key p (p + length k + 1 + 1) (p + length k) (c ∷ k) key_slice)
    ∙ scan-go 32 _ _ _
        (round-blank_value view section (c ∷ k) p (p + length k + 1 + 1 + 1) (p + length k))
    ∙ ap
        (λ n.
          scan ((d ∷ v) ++ (10 ∷ rest))
            (at view section (c ∷ k) p State.want_value n (p + length k)))
        {y = q} (omega arith)
    ∙ scan-go d _ _ _ (round-first_of_value view section (c ∷ k) p d q (p + length k) vw.0)
    ∙ scan-word view section (c ∷ k) q State.want_value_end (round-value view section (c ∷ k) q) v
        (10 ∷ rest) q vw.1
    ∙ scan-newline view section (c ∷ k) q (q + length v + 1) (q + length v) rest (d ∷ v) value_slice
    ∙ ap
        (λ n.
          Out.property (record { section = section; key = c ∷ k; value = d ∷ v })
            (behind s.reader n))
        (omega arith)

-- A word with a character.
abbrev pub IsName : List ℕ → Type 0
IsName [] = ⊥
IsName (c ∷ cs) = IsWord (c ∷ cs)

pub scan-line_name :
    (s : Scan) (key value rest : List ℕ)
    → wake s.reader.state ≡ State.start
    → drop s.reader.pos s.reader.view ≡ key ++ (32 ∷ 61 ∷ 32 ∷ (value ++ (10 ∷ rest)))
    → IsName key
    → IsName value
    → scan (key ++ (32 ∷ 61 ∷ 32 ∷ (value ++ (10 ∷ rest)))) s
      ≡ Out.property
          (record { section = s.reader.section; key = key; value = value })
          (behind s.reader (s.reader.pos + length key + length value + 4))
scan-line_name s [] value rest awake e kw vw = absurd kw
scan-line_name s (c ∷ k) [] rest awake e kw vw = absurd vw
scan-line_name s (c ∷ k) (d ∷ v) rest awake e kw vw =
    scan-line s c d k v rest awake e kw vw
    ∙ ap
        (λ n.
          Out.property (record { section = s.reader.section; key = c ∷ k; value = d ∷ v })
            (behind s.reader n))
        (omega arith)
