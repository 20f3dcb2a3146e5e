-- ===== src/IniReader/Next.antt =====
-- IniReader::next: how a call ends.
use mkw_sp.Base.{
  ℕ, ◌≤◌, ◌<◌, ◌≡◌, List, [], ◌∷◌, true, false, length, get_or, arith, refl, drop_next, drop, subst,
  sym, ap, ◌∙◌,
}
use mkw_sp.IniReader.{
  State, IniReader, Scan, Out, Kind, kind, wake, at_end, round, scan, finish, next, skip, finish,
}
use mkw_sp.IniReader.Sound.{Marked, Marked-same, Fine, needs_marks, is_stray, finish-property}
use mkw_sp.IniReader.Switch.{IsAwake, on_kind-Fine}

-- How a call that starts at `lo` may end: with a property and a reader further on that is woken by
-- the next call; with nothing; or undefined, at a stray character in the first state.
abbrev pub Ends : ℕ → List ℕ → Out → Type 0
Ends lo view (Out.go s) = ⊥
Ends lo view (Out.property p r) =
    (r.view ≡ view) × (lo < r.pos) × (r.pos ≤ length view) × (r.state ≡ State.post_want_value)
Ends lo view (Out.stop r) = Unit {0}
Ends lo view (Out.undefined s) =
    (lo ≤ s.reader.pos)
    × (s.reader.pos < length view)
    × (is_stray (kind (get_or view s.reader.pos 0)) ≡ true)
    × (s.reader.state ≡ State.start)

wake-IsAwake : (state : State) → IsAwake (wake state)
wake-IsAwake State.post_want_value = tt
wake-IsAwake State.start = tt
wake-IsAwake State.in_comment = tt
wake-IsAwake State.want_section = tt
wake-IsAwake State.want_section_end = tt
wake-IsAwake State.want_delim = tt
wake-IsAwake State.want_value = tt
wake-IsAwake State.want_value_end = tt
wake-IsAwake State.in_comment_want_value = tt

wake-marks : (state : State) → needs_marks (wake state) ≡ true → needs_marks state ≡ true
wake-marks State.post_want_value q = cc
wake-marks State.start q = q
wake-marks State.in_comment q = q
wake-marks State.want_section q = q
wake-marks State.want_section_end q = q
wake-marks State.want_delim q = q
wake-marks State.want_value q = q
wake-marks State.want_value_end q = q
wake-marks State.in_comment_want_value q = q

module _ (lo : ℕ) where
  abbrev Marks : State → Scan → Type 0
  Marks state s = needs_marks state ≡ true → Marked lo s.reader.pos s

  finish-Ends :
      (s : Scan)
      → s.reader.pos ≤ length s.reader.view
      → Marked lo s.reader.pos s
      → Ends lo s.reader.view (finish s)
  finish-Ends s inside m =
      subst (Ends lo s.reader.view) (sym (finish-property lo s Kind.other inside m).1)
        (refl, omega (arith, m.above, m.order, m.below), inside, refl)

  at_end-Ends :
      (state : State) (s : Scan)
      → s.reader.pos ≤ length s.reader.view
      → Marks state s
      → Ends lo s.reader.view (at_end state s)
  unfolding at_end
  at_end-Ends State.start s inside m = tt
  at_end-Ends State.in_comment s inside m = tt
  at_end-Ends State.post_want_value s inside m = tt
  at_end-Ends State.want_section s inside m = tt
  at_end-Ends State.want_section_end s inside m = tt
  at_end-Ends State.want_delim s inside m = tt
  at_end-Ends _ s inside m = finish-Ends s inside (m refl)

  round-Fine :
      (c : ℕ) (s : Scan)
      → s.reader.pos < length s.reader.view
      → lo ≤ s.reader.pos
      → Marks s.reader.state s
      → Fine lo s.reader.view s.reader.pos (kind c) (round c s)
  unfolding round
  round-Fine c s inside from m =
      on_kind-Fine lo s inside from (kind c) (wake s.reader.state) (wake-IsAwake s.reader.state)
        (λ q. m (wake-marks s.reader.state q))

  scan-Ends :
      (rest : List ℕ) (s : Scan)
      → drop s.reader.pos s.reader.view ≡ rest
      → s.reader.pos ≤ length s.reader.view
      → lo ≤ s.reader.pos
      → Marks s.reader.state s
      → Ends lo s.reader.view (scan rest s)
  unfolding scan
  scan-Ends [] s e inside from m = at_end-Ends s.reader.state s inside m
  scan-Ends (c ∷ rest) s e inside from m =
      let (char, within, behind) = drop_next s.reader.view rest s.reader.pos c 0 e in
      step (λ s' e i f m. scan-Ends rest s' e i f m) (round c s) (round-Fine c s within from m)
    where
      step :
          ((s' : Scan)
            → drop s'.reader.pos s'.reader.view ≡ rest
            → s'.reader.pos ≤ length s'.reader.view
            → lo ≤ s'.reader.pos
            → Marks s'.reader.state s'
            → Ends lo s'.reader.view (scan rest s'))
          → (o : Out) → Fine lo s.reader.view s.reader.pos (kind c) o
          → Ends lo s.reader.view (
              let out : Out = elim o [
                | Out.go s' ↦ scan rest (skip s')
                | Out.property p r ↦ Out.property p r
                | Out.stop r ↦ Out.stop r
                | Out.undefined u ↦ Out.undefined u
              ] in
              out)
      step later (Out.go s') (v, at, marks) =
          let (char, within, behind) = drop_next s.reader.view rest s.reader.pos c 0 e in
          subst (λ x. Ends lo x (scan rest (skip s'))) v
            (later (skip s') (rw (v, at) behind) (rw v (omega arith)) (omega arith) (λ q.
              subst (λ h. Marked lo h (skip s')) (omega (arith, at))
                (Marked-same refl refl (marks q))))
      step later (Out.property p r) f = f
      step later (Out.stop r) f = tt
      step later (Out.undefined u) (at, stray, state) =
          let (char, within, behind) = drop_next s.reader.view rest s.reader.pos c 0 e in
          (
            omega arith,
            omega arith,
            ap (λ i. is_stray (kind (get_or s.reader.view i 0))) at
                ∙ ap (λ x. is_stray (kind x)) char
                ∙ stray,
            state,
          )

-- If a reader is at a place of its view and between two properties, a call of `next` returns: with a
-- property and a reader at a later place of the view, again between two properties; with nothing; or
-- its behaviour is undefined, and then it has come to a `]`, `=` or `:` in State::None.
pub next-Ends :
    (r : IniReader)
    → r.pos ≤ length r.view
    → needs_marks r.state ≡ false
    → Ends r.pos r.view (next r)
unfolding next
next-Ends r inside rest = scan-Ends r.pos (drop r.pos r.view) _ refl inside (omega arith) (λ q. cc)
