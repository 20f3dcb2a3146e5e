-- ===== src/IniReader/Line/Sections.antt =====
-- IniReader::next on a section in brackets and on a comment.
-- blank on both sides of `=`.
use mkw_sp.Base.{
  ℕ, ◌+◌, ◌≡◌, ◌∙◌, List, [], ◌∷◌, ◌++◌, Option, some, length, drop, arith, refl, ap, drop_add, ◌≢◌,
}
use mkw_sp.IniReader.{
  State, IniReader, Scan, Out, Kind, kind, wake, round, on_kind, identifier, on_newline, on_comment,
  close_section, scan, slice,
}
use mkw_sp.IniReader.Line.{IsWord, at, scan-go, scan-word, slice-word}

module _ (view : List ℕ) (section : Option (List ℕ)) (key : List ℕ) (token : ℕ) where
  round-section :
      (c pos last : ℕ)
      → kind c ≡ Kind.other
      → round c (at view section key token State.want_section_end pos last)
        ≡ Out.go (at view section key token State.want_section_end pos pos)
  unfolding round on_kind identifier
  round-section c pos last e = rw e refl

round-newline :
    (s : Scan)
    → wake s.reader.state ≡ State.start
    → round 10 s ≡ Out.go (record s { reader = record s.reader { state = State.start } })
unfolding round on_kind on_newline
round-newline s awake = rw awake refl

-- A reader with an open section, and what `next` may have found of a line, at `pos` in State::None.
abbrev pub opened : IniReader → List ℕ → ℕ → ℕ → ℕ → List ℕ → Scan
opened r name pos token last key = record {
  reader = record r { pos = pos; section = some name; state = State.start };
  token = some token;
  last_non_space = some last;
  key = key;
}

round-open :
    (s : Scan)
    → s.reader.state ≡ State.start
    → round 91 s
      ≡ Out.go (
          at s.reader.view s.reader.section s.key s.reader.pos State.want_section s.reader.pos
            s.reader.pos)
unfolding round on_kind
round-open s e = rw e refl

round-first_of_section :
    (view : List ℕ) (section : Option (List ℕ)) (key : List ℕ) (token c pos last : ℕ)
    → kind c ≡ Kind.other
    → round c (at view section key token State.want_section pos last)
      ≡ Out.go (at view section key pos State.want_section_end pos pos)
unfolding round on_kind identifier
round-first_of_section view section key token c pos last e = rw e refl

round-close :
    (view : List ℕ) (section : Option (List ℕ)) (key name : List ℕ) (token pos last : ℕ)
    → slice view token pos ≡ some name
    → round 93 (at view section key token State.want_section_end pos last)
      ≡ Out.go (
          opened
            (at view section key token State.want_section_end pos last).reader
            name
            pos
            token
            last
            key)
unfolding round on_kind close_section
round-close view section key name token pos last e = ground (arith, e)

-- A blank line and a section in brackets open the section.
pub scan-section :
    (s : Scan) (c : ℕ) (cs rest : List ℕ)
    → wake s.reader.state ≡ State.start
    → drop s.reader.pos s.reader.view ≡ 10 ∷ 91 ∷ ((c ∷ cs) ++ (93 ∷ 10 ∷ rest))
    → IsWord (c ∷ cs)
    → scan (10 ∷ 91 ∷ ((c ∷ cs) ++ (93 ∷ 10 ∷ rest))) s
      ≡ scan rest (
          opened s.reader
            (c ∷ cs)
            (s.reader.pos + length cs + 5)
            (s.reader.pos + 2)
            (s.reader.pos + length cs + 2)
            s.key)
scan-section s c cs rest awake e w =
    let r = s.reader in
    let p = r.pos in
    let name_slice : slice r.view (p + 2) (p + 2 + length cs + 1) ≡ some (c ∷ cs) =
      ap (slice r.view (p + 2)) (omega arith)
      ∙ slice-word r.view (c ∷ cs) (93 ∷ 10 ∷ rest) (p + 2) (drop_add p 2 r.view ∙ ap (drop 2) e)
          (omega arith) in
    scan-go 10 _ _ _ (round-newline s awake)
    ∙ scan-go 91 _ _ _ (round-open _ refl)
    ∙ ap
        (λ n.
          scan ((c ∷ cs) ++ (93 ∷ 10 ∷ rest))
            (at r.view r.section s.key (p + 1) State.want_section n (p + 1)))
        {y = p + 2} (omega arith)
    ∙ scan-go c _ _ _ (round-first_of_section r.view r.section s.key (p + 1) c (p + 2) (p + 1) w.0)
    ∙ scan-word r.view r.section s.key (p + 2) State.want_section_end
        (round-section r.view r.section s.key (p + 2)) cs (93 ∷ 10 ∷ rest) (p + 2) w.1
    ∙ scan-go 93 _ _ _ (
        round-close r.view r.section s.key (c ∷ cs) (p + 2) (p + 2 + length cs + 1)
          (p + 2 + length cs) name_slice)
    ∙ scan-go 10 _ _ _ (round-newline _ refl)
    ∙ ap (λ n. scan rest (opened r (c ∷ cs) n (p + 2) (p + 2 + length cs) s.key)) (omega arith)
    ∙ ap (λ n. scan rest (opened r (c ∷ cs) (p + length cs + 5) (p + 2) n s.key)) (omega arith)

-- The state of a reader in State::None or in a comment.
abbrev pub in_state : Scan → State → ℕ → Scan
in_state s state pos = record s { reader = record s.reader { state = state; pos = pos } }

-- No character ends the line.
abbrev pub IsLine : List ℕ → Type 0
IsLine [] = Unit {0}
IsLine (c ∷ cs) = (kind c ≢ Kind.newline) × IsLine cs

round-hash :
    (s : Scan)
    → wake s.reader.state ≡ State.start
    → round 35 s ≡ Out.go (in_state s State.in_comment s.reader.pos)
unfolding round on_kind on_comment
round-hash s awake = rw awake refl

on_kind-in_comment :
    (k : Kind) (s : Scan) → k ≢ Kind.newline → on_kind k State.in_comment s ≡ Out.go s
unfolding on_kind on_comment identifier
on_kind-in_comment Kind.space s h = refl
on_kind-in_comment Kind.open_bracket s h = refl
on_kind-in_comment Kind.close_bracket s h = refl
on_kind-in_comment Kind.newline s h = absurd (h refl)
on_kind-in_comment Kind.comment s h = refl
on_kind-in_comment Kind.delim s h = refl
on_kind-in_comment Kind.other s h = refl

round-comment :
    (s : Scan) (c pos : ℕ)
    → kind c ≢ Kind.newline
    → round c (in_state s State.in_comment pos) ≡ Out.go (in_state s State.in_comment pos)
unfolding round
round-comment s c pos h = on_kind-in_comment (kind c) (in_state s State.in_comment pos) h

scan-comment_rest :
    (s : Scan) (cs rest : List ℕ) (pos : ℕ)
    → IsLine cs
    → scan (cs ++ rest) (in_state s State.in_comment pos)
      ≡ scan rest (in_state s State.in_comment (pos + length cs))
scan-comment_rest s [] rest pos w =
    ap (λ n. scan rest (in_state s State.in_comment n)) (omega arith)
scan-comment_rest s (c ∷ cs) rest pos w =
    scan-go c _ _ _ (round-comment s c pos w.0)
    ∙ scan-comment_rest s cs rest (pos + 1) w.1
    ∙ ap (λ n. scan rest (in_state s State.in_comment n)) (omega arith)

round-end_comment :
    (s : Scan) (pos : ℕ)
    → round 10 (in_state s State.in_comment pos) ≡ Out.go (in_state s State.start pos)
unfolding round on_kind on_newline
round-end_comment s pos = refl

-- A line that opens with `#` is skipped.
pub scan-comment :
    (s : Scan) (cs rest : List ℕ)
    → wake s.reader.state ≡ State.start
    → IsLine cs
    → scan (35 ∷ (cs ++ (10 ∷ rest))) s
      ≡ scan rest (in_state s State.start (s.reader.pos + length cs + 2))
scan-comment s cs rest awake w =
    scan-go 35 _ _ _ (round-hash s awake)
    ∙ scan-comment_rest s cs (10 ∷ rest) (s.reader.pos + 1) w
    ∙ scan-go 10 _ _ _ (round-end_comment s (s.reader.pos + 1 + length cs))
    ∙ ap (λ n. scan rest (in_state s State.start n)) (omega arith)
