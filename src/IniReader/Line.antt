-- ===== src/IniReader/Line.antt =====
-- IniReader::next on a line with a key and a value.
pub mod Spaced
pub mod Sections
use mkw_sp.Base.{
  ℕ, ◌+◌, ◌-◌, ◌<◌, ◌≡◌, ◌∙◌, List, [], ◌∷◌, ◌++◌, none, some, length, drop, arith, refl, sym, ap,
  leb, drop_add, ◌&&◌, true, length-drop, length-append, take-length-append, append_assoc,
  drop-length-append, Option,
}
use mkw_sp.IniReader.{
  State, IniReader, Scan, Out, Kind, kind, wake, round, on_kind, identifier, on_newline, end_key,
  finish, scan, next, skip, slice,
}

-- No character of a word is a blank, a bracket, a line break, or opens a comment or a value.
abbrev pub IsWord : List ℕ → Type 0
IsWord [] = Unit {0}
IsWord (c ∷ cs) = (kind c ≡ Kind.other) × IsWord cs

scan-go :
    (c : ℕ) (rest : List ℕ) (s s' : Scan)
    → round c s ≡ Out.go s'
    → scan (c ∷ rest) s ≡ scan rest (skip s')
unfolding scan
scan-go c rest s s' e = ground (arith, e)

module _ (view : List ℕ) (section : Option (List ℕ)) (key : List ℕ) (token : ℕ) where
  abbrev at : State → ℕ → ℕ → Scan
  at state pos last = record {
    reader = record { view = view; pos = pos; section = section; state = state };
    token = some token;
    last_non_space = some last;
    key = key;
  }

  round-key :
      (c pos last : ℕ)
      → kind c ≡ Kind.other
      → round c (at State.want_delim pos last) ≡ Out.go (at State.want_delim pos pos)
  unfolding round on_kind identifier
  round-key c pos last e = rw e refl

  round-value :
      (c pos last : ℕ)
      → kind c ≡ Kind.other
      → round c (at State.want_value_end pos last) ≡ Out.go (at State.want_value_end pos pos)
  unfolding round on_kind identifier
  round-value c pos last e = rw e refl

  -- The rest of a word moves the position and the last character.
  scan-word :
      (state : State)
      → ((c pos last : ℕ)
          → kind c ≡ Kind.other
          → round c (at state pos last) ≡ Out.go (at state pos pos))
      → (cs rest : List ℕ) (last : ℕ) → IsWord cs
      → scan (cs ++ rest) (at state (last + 1) last)
        ≡ scan rest (at state (last + length cs + 1) (last + length cs))
  scan-word state step [] rest last w = ap (λ n. scan rest (at state (n + 1) n)) (omega arith)
  scan-word state step (c ∷ cs) rest last w =
      scan-go c (cs ++ rest) _ _ (step c (last + 1) last w.0)
      ∙ scan-word state step cs rest (last + 1) w.1
      ∙ ap (λ n. scan rest (at state (n + 1) n)) (omega arith)

  round-end_key :
      (pos last : ℕ) (out : List ℕ)
      → slice view token (last + 1) ≡ some out
      → round 61 (at State.want_delim pos last)
        ≡ Out.go (record (at State.want_value pos last) { key = out })
  unfolding round on_kind end_key
  round-end_key pos last out e = ground (arith, e)

  round-first_of_value :
      (c pos last : ℕ)
      → kind c ≡ Kind.other
      → round c (at State.want_value pos last)
        ≡ Out.go (record (at State.want_value_end pos pos) { token = some pos })
  unfolding round on_kind identifier
  round-first_of_value c pos last e = rw e refl

  scan-newline :
      (pos last : ℕ) (rest out : List ℕ)
      → slice view token (last + 1) ≡ some out
      → scan (10 ∷ rest) (at State.want_value_end pos last)
        ≡ Out.property
            (record { section = section; key = key; value = out })
            (record {
              view = view;
              pos = pos + 1;
              section = section;
              state = State.post_want_value;
            })
  unfolding scan round on_kind on_newline finish
  scan-newline pos last rest out e = ground (arith, e)

  -- The same with no value: `token` is still that of the key.
  scan-newline_empty :
      (pos last : ℕ) (rest out : List ℕ)
      → slice view token (last + 1) ≡ some out
      → scan (10 ∷ rest) (at State.want_value pos last)
        ≡ Out.property
            (record { section = section; key = key; value = out })
            (record {
              view = view;
              pos = pos + 1;
              section = section;
              state = State.post_want_value;
            })
  unfolding scan round on_kind on_newline finish
  scan-newline_empty pos last rest out e = ground (arith, e)

-- A word that stands in a view can be cut out of it.
slice-word :
    (view word rest : List ℕ) (pos : ℕ)
    → drop pos view ≡ word ++ rest
    → 0 < length word
    → slice view pos (pos + length word) ≡ some word
slice-word view word rest pos e h =
    let t : (leb pos (pos + length word) && leb (pos + length word) (length view)) ≡ true =
      ground (arith, length-drop pos view, ap length e, length-append word rest) in
    let n : pos + length word - pos ≡ length word = omega arith in
    rw (t, n, e) (ap some (take-length-append (length word) word rest refl))

round-first :
    (r : IniReader) (c : ℕ)
    → wake r.state ≡ State.start
    → kind c ≡ Kind.other
    → round c (record { reader = r; token = none; last_non_space = none; key = [] })
      ≡ Out.go (at r.view r.section [] r.pos State.want_delim r.pos r.pos)
unfolding round on_kind
round-first r c awake e = rw (awake, e) refl

-- A line that is a word, `=` and a word, read between two properties, gives the property with the
-- first word for its key, the second for its value, and the reader's section; the reader goes on
-- behind the line.
pub next-Line :
    (r : IniReader) (c d : ℕ) (k v rest : List ℕ)
    → wake r.state ≡ State.start
    → drop r.pos r.view ≡ (c ∷ k) ++ (61 ∷ ((d ∷ v) ++ (10 ∷ rest)))
    → IsWord (c ∷ k)
    → IsWord (d ∷ v)
    → next r
      ≡ Out.property
          (record { section = r.section; key = c ∷ k; value = d ∷ v })
          (record r { pos = r.pos + length k + length v + 4; state = State.post_want_value })
unfolding next
next-Line r c d k v rest awake e kw vw =
    let p = r.pos in
    let q = r.pos + length k + 1 + 1 in
    let key_slice : slice r.view p (p + length k + 1) ≡ some (c ∷ k) =
      ap (slice r.view p) (omega arith)
      ∙ slice-word r.view (c ∷ k) (61 ∷ ((d ∷ v) ++ (10 ∷ rest))) p e (omega arith) in
    let value_at : drop q r.view ≡ (d ∷ v) ++ (10 ∷ rest) =
      ap (λ n. drop n r.view) (omega arith)
      ∙ drop_add p (length k + 2) r.view
      ∙ ap (drop (length k + 2)) (e ∙ sym (append_assoc (c ∷ k) (61 ∷ []) ((d ∷ v) ++ (10 ∷ rest))))
      ∙ drop-length-append (length k + 2) ((c ∷ k) ++ 61 ∷ []) ((d ∷ v) ++ (10 ∷ rest))
          (omega (arith, length-append k (61 ∷ []))) in
    let value_slice : slice r.view q (q + length v + 1) ≡ some (d ∷ v) =
      ap (slice r.view q) (omega arith)
      ∙ slice-word r.view (d ∷ v) (10 ∷ rest) q value_at (omega arith) in
    ap (λ l. scan l (record { reader = r; token = none; last_non_space = none; key = [] })) e
    ∙ scan-go c _ _ _ (round-first r c awake kw.0)
    ∙ scan-word r.view r.section [] p State.want_delim (round-key r.view r.section [] p) k
        (61 ∷ ((d ∷ v) ++ (10 ∷ rest))) p kw.1
    ∙ scan-go 61 _ _ _
        (round-end_key r.view r.section [] p (p + length k + 1) (p + length k) (c ∷ k) key_slice)
    ∙ scan-go d _ _ _ (round-first_of_value r.view r.section (c ∷ k) p d q (p + length k) vw.0)
    ∙ scan-word r.view r.section (c ∷ k) q State.want_value_end
        (round-value r.view r.section (c ∷ k) q) v (10 ∷ rest) q vw.1
    ∙ scan-newline r.view r.section (c ∷ k) q (q + length v + 1) (q + length v) rest (d ∷ v)
        value_slice
    ∙ ap
        (λ n.
          Out.property (record { section = r.section; key = c ∷ k; value = d ∷ v })
            (record r { pos = n; state = State.post_want_value }))
        (omega arith)

-- A line that is a word and `=`, read between two properties, gives a property whose value is not
-- empty but that word, which is also its key; the reader goes on behind the line.
pub next-empty_value :
    (r : IniReader) (c : ℕ) (k rest : List ℕ)
    → wake r.state ≡ State.start
    → drop r.pos r.view ≡ (c ∷ k) ++ (61 ∷ (10 ∷ rest))
    → IsWord (c ∷ k)
    → next r
      ≡ Out.property
          (record { section = r.section; key = c ∷ k; value = c ∷ k })
          (record r { pos = r.pos + length k + 3; state = State.post_want_value })
unfolding next
next-empty_value r c k rest awake e kw =
    let p = r.pos in
    let key_slice : slice r.view p (p + length k + 1) ≡ some (c ∷ k) =
      ap (slice r.view p) (omega arith)
      ∙ slice-word r.view (c ∷ k) (61 ∷ (10 ∷ rest)) p e (omega arith) in
    ap (λ l. scan l (record { reader = r; token = none; last_non_space = none; key = [] })) e
    ∙ scan-go c _ _ _ (round-first r c awake kw.0)
    ∙ scan-word r.view r.section [] p State.want_delim (round-key r.view r.section [] p) k
        (61 ∷ (10 ∷ rest)) p kw.1
    ∙ scan-go 61 _ _ _
        (round-end_key r.view r.section [] p (p + length k + 1) (p + length k) (c ∷ k) key_slice)
    ∙ scan-newline_empty r.view r.section (c ∷ k) p (p + length k + 1 + 1) (p + length k) rest
        (c ∷ k) key_slice
    ∙ ap
        (λ n.
          Out.property (record { section = r.section; key = c ∷ k; value = c ∷ k })
            (record r { pos = n; state = State.post_want_value }))
        (omega arith)
