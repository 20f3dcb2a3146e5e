-- ===== src/IniReader/Sound.antt =====
-- IniReader::next: where its pointers lead, and where its behaviour is undefined.
use mkw_sp.Base.{
  ℕ, ◌+◌, ◌≤◌, ◌<◌, ◌≡◌, List, some, Bool, true, false, leb, ◌&&◌, length, arith, refl, take, subst,
  sym, ◌-◌, drop, ◌∙◌,
}
use mkw_sp.IniReader.{
  State, Property, Scan, Out, Kind, finish, close_section, end_key, mark, touch, with_state,
}

-- The states in which `token` and `last_non_space` are set.
abbrev pub needs_marks : State → Bool
needs_marks State.start = false
needs_marks State.in_comment = false
needs_marks State.post_want_value = false
needs_marks _ = true

-- token and lastNonSpace point to characters in order, from `lo` on and before `hi`.
pub record Marked (lo hi : ℕ) (s : Scan) : Type 0 where
  pub first : ℕ
  pub last : ℕ
  pub token_eq : s.token ≡ some first
  pub last_eq : s.last_non_space ≡ some last
  pub above : lo ≤ first
  pub order : first ≤ last
  pub below : last < hi

abbrev pub is_stray : Kind → Bool
is_stray Kind.close_bracket = true
is_stray Kind.delim = true
is_stray _ = false

-- How a round over a character of kind `k` at `pos` may end.
abbrev pub Fine : ℕ → List ℕ → ℕ → Kind → Out → Type 0
Fine lo view pos k (Out.go s) =
    (s.reader.view ≡ view)
    × (s.reader.pos ≡ pos)
    × (needs_marks s.reader.state ≡ true → Marked lo (pos + 1) s)
Fine lo view pos k (Out.property p r) =
    (r.view ≡ view) × (lo < r.pos) × (r.pos ≤ length view) × (r.state ≡ State.post_want_value)
Fine lo view pos k (Out.stop r) = Unit {0}
Fine lo view pos k (Out.undefined s) =
    (s.reader.pos ≡ pos) × (is_stray k ≡ true) × (s.reader.state ≡ State.start)

-- A range inside a view can be cut out of it.
pub in_range :
    (view : List ℕ) (first last : ℕ)
    → first ≤ last
    → last ≤ length view
    → (leb first last && leb last (length view)) ≡ true
in_range view first last h k = ground arith

module _ (lo : ℕ) (s : Scan) (k : Kind) where
  pub finish-property :
      s.reader.pos ≤ length s.reader.view
      → Marked lo s.reader.pos s
      → (p : Property) × (finish s
          ≡ Out.property p (record s.reader { state = State.post_want_value }))
  unfolding finish
  finish-property inside m =
      let t =
        in_range s.reader.view m.first (m.last + 1) (omega (arith, m.order))
          (omega (arith, m.below)) in
      (
        record {
          section = s.reader.section;
          key = s.key;
          value = take (m.last + 1 - m.first) (drop m.first s.reader.view);
        },
        ground (arith, m.token_eq, m.last_eq, t),
      )

  pub finish-Fine :
      (pos : ℕ)
      → s.reader.pos ≤ length s.reader.view
      → Marked lo s.reader.pos s
      → Fine lo s.reader.view pos k (finish s)
  finish-Fine pos inside m =
      subst (Fine lo s.reader.view pos k) (sym (finish-property inside m).1)
        (refl, omega (arith, m.above, m.order, m.below), inside, refl)

  module _ (inside : s.reader.pos < length s.reader.view) (m : Marked lo s.reader.pos s) where
    pub widen : Marked lo (s.reader.pos + 1) s
    widen = record {
      first = m.first;
      last = m.last;
      token_eq = m.token_eq;
      last_eq = m.last_eq;
      above = m.above;
      order = m.order;
      below = omega (arith, m.below);
    }

    pub touch-Marked : Marked lo (s.reader.pos + 1) (touch s)
    touch-Marked = record {
      first = m.first;
      last = s.reader.pos;
      token_eq = m.token_eq;
      last_eq = refl;
      above = m.above;
      order = omega (arith, m.order, m.below);
      below = omega arith;
    }

    close_section-go :
        (is_empty : Bool)
        → (out : List ℕ) × (close_section is_empty s
            ≡ Out.go
                (record s { reader = record s.reader { section = some out; state = State.start } }))
    unfolding close_section
    close_section-go true =
        let t =
          in_range s.reader.view m.first m.first (omega arith) (omega (arith, m.order, m.below)) in
        (take (m.first - m.first) (drop m.first s.reader.view), ground (arith, m.token_eq, t))
    close_section-go false =
        let t =
          in_range s.reader.view m.first s.reader.pos (omega (arith, m.order, m.below))
            (omega arith) in
        (take (s.reader.pos - m.first) (drop m.first s.reader.view), ground (arith, m.token_eq, t))

    pub close_section-Fine :
        (is_empty : Bool) → Fine lo s.reader.view s.reader.pos k (close_section is_empty s)
    close_section-Fine is_empty =
        subst (Fine lo s.reader.view s.reader.pos k) (sym (close_section-go is_empty).1)
          (refl, refl, λ q. cc)

    end_key-go :
        (out : List ℕ) × (end_key s ≡ Out.go (with_state (record s { key = out }) State.want_value))
    unfolding end_key
    end_key-go =
        let t =
          in_range s.reader.view m.first (m.last + 1) (omega (arith, m.order))
            (omega (arith, m.below)) in
        (
          take (m.last + 1 - m.first) (drop m.first s.reader.view),
          ground (arith, m.token_eq, m.last_eq, t),
        )

    pub end_key-Fine : Fine lo s.reader.view s.reader.pos k (end_key s)
    end_key-Fine = subst (Fine lo s.reader.view s.reader.pos k) (sym end_key-go.1) (
      refl,
      refl,
      λ q. record {
        first = m.first;
        last = m.last;
        token_eq = m.token_eq;
        last_eq = m.last_eq;
        above = m.above;
        order = m.order;
        below = omega (arith, m.below);
      },
    )

  pub mark-Marked : lo ≤ s.reader.pos → Marked lo (s.reader.pos + 1) (mark s)
  mark-Marked from = record {
    first = s.reader.pos;
    last = s.reader.pos;
    token_eq = refl;
    last_eq = refl;
    above = from;
    order = omega arith;
    below = omega arith;
  }

pub Marked-same :
    {lo hi : ℕ} {s u : Scan}
    → u.token ≡ s.token
    → u.last_non_space ≡ s.last_non_space
    → Marked lo hi s
    → Marked lo hi u
Marked-same e f m = record {
  first = m.first;
  last = m.last;
  token_eq = e ∙ m.token_eq;
  last_eq = f ∙ m.last_eq;
  above = m.above;
  order = m.order;
  below = m.below;
}
