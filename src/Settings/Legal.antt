-- ===== src/Settings/Legal.antt =====
-- Settings.hh: the values stay in the ranges of their entries.
use mkw_sp.Base.{
  ℕ, zero, suc, ◌+◌, ◌-◌, ◌≤◌, ◌<◌, ◌≡◌, List, [], ◌∷◌, Option, none, some, Bool, true, false, ltb,
  leb, ◌==◌, ◌&&◌, length, get_elem?, set, arith, refl, if◌then◌else◌, Option-cases, inl, inr,
  Bool-cases, subst, ap, sym, ◌⊎◌,
}
use mkw_sp.Base.Words.{add32}
use mkw_sp.IniReader.{IniReader, Out, next}
use mkw_sp.IniReader.Sound.{needs_marks}
use mkw_sp.IniReader.Next.{Ends, next-Ends}
use mkw_sp.Settings.{
  Entry, Group, find_value, text_at, value_of, set_text, Reading, done, undefined, unfinished,
  read_loop, read_ini, find_entry,
}

-- A value is free if the entry counts none, is in the entry's range if its values have no names,
-- and is the index of a name otherwise.
abbrev pub is_legal : Entry → ℕ → Bool
is_legal e v =
    let named : Bool = elim e.value_names [
      | none ↦ leb e.value_offset v && ltb v (add32 e.value_offset e.value_count)
      | some names ↦ ltb v e.value_count
    ] in
    if e.value_count == 0 then true else named

abbrev pub AllLegal : List Entry → List ℕ → Type 0
AllLegal [] [] = Unit {0}
AllLegal (e ∷ entries) (v ∷ values) = (is_legal e v ≡ true) × AllLegal entries values
AllLegal _ _ = ⊥

pub find_value-lt :
    (rounds i v : ℕ) (names : List (List ℕ)) (value : List ℕ)
    → find_value rounds i names value ≡ some v
    → v < i + rounds
unfolding find_value
find_value-lt zero i v names value e = cc
find_value-lt (suc rounds) i v names value e = elim (Bool-cases (text_at names i value)) [
  | inl t ↦
      let e' : ◌≡◌ {A = Option ℕ} (some i) (some v) = rw t at e in
      let same : i ≡ v = cc in omega (arith, same)
  | inr f ↦
      let e' : find_value rounds (i + 1) names value ≡ some v = rw f at e in
      omega (arith, find_value-lt rounds (i + 1) v names value e')
]

set-AllLegal :
    (entries : List Entry) (values : List ℕ) (i v : ℕ) (e : Entry)
    → AllLegal entries values
    → get_elem? entries i ≡ some e
    → is_legal e v ≡ true
    → AllLegal entries (set values i v)
set-AllLegal [] [] i v e l q ok = l
set-AllLegal [] (x ∷ values) i v e l q ok = absurd l
set-AllLegal (f ∷ entries) [] i v e l q ok = absurd l
set-AllLegal (f ∷ entries) (x ∷ values) zero v e l q ok =
    let same : f ≡ e = cc in (subst (λ x. is_legal x v ≡ true) (sym same) ok, l.1)
set-AllLegal (f ∷ entries) (x ∷ values) (suc i) v e l q ok =
    (l.0, set-AllLegal entries values i v e l.1 q ok)

module _ (strtoul : ℕ → List ℕ → Option ℕ) where
  value_of-legal :
      (e : Entry) (value : List ℕ) (v : ℕ) → value_of strtoul e value ≡ some v → is_legal e v ≡ true
  unfolding value_of
  value_of-legal e value v q = elim (Bool-cases (e.value_count == 0)) [
    | inl free ↦ rw free refl
    | inr counted ↦ elim (Option-cases e.value_names) [
      | inl n ↦ ground (arith, q, counted, n)
      | inr (names, n) ↦
          let found : find_value e.value_count 0 names value ≡ some v =
            ground (arith, q, counted, n) in
          let below = find_value-lt e.value_count 0 v names value found in
          ground (arith, counted, n, below)
    ]
  ]

  -- `set` changes nothing, or one value to what the text stands for.
  pub record Stores (g : Group) (value values : List ℕ) (result : List ℕ) : Type 0 where
    pub index : ℕ
    pub entry : Entry
    pub number : ℕ
    pub there : get_elem? g.entries index ≡ some entry
    pub meant : value_of strtoul entry value ≡ some number
    pub changed : result ≡ set values index number

  pub set_text-cases :
      (g : Group) (section : Option (List ℕ)) (key value values : List ℕ)
      → (set_text strtoul g section key value values ≡ values)
        ⊎ Stores g value values (set_text strtoul g section key value values)
  unfolding set_text
  set_text-cases g section key value values =
      elim (Option-cases (find_entry g section key 0 g.entries)) [
        | inl n ↦ inl (ground (arith, n))
        | inr (i, f) ↦ elim (Option-cases (get_elem? g.entries i)) [
          | inl n ↦ inl (ground (arith, f, n))
          | inr (e, q) ↦ elim (Option-cases (value_of strtoul e value)) [
            | inl n ↦ inl (ground (arith, f, q, n))
            | inr (v, w) ↦ inr (record {
              index = i;
              entry = e;
              number = v;
              there = q;
              meant = w;
              changed = ground (arith, f, q, w);
            })
          ]
        ]
      ]

  set_text-AllLegal :
      (g : Group) (section : Option (List ℕ)) (key value values : List ℕ)
      → AllLegal g.entries values
      → AllLegal g.entries (set_text strtoul g section key value values)
  set_text-AllLegal g section key value values l =
      elim (set_text-cases g section key value values) [
        | inl same ↦ subst (AllLegal g.entries) (sym same) l
        | inr s ↦ subst (AllLegal g.entries) (sym s.changed) (
            set-AllLegal g.entries values s.index s.number s.entry l s.there
              (value_of-legal s.entry value s.number s.meant))
      ]

  -- How a reading may end: with values of which P holds, or undefined.
  abbrev pub Ended : (List ℕ → Type 0) → Reading strtoul → Type 0
  Ended P (done values) = P values
  Ended P undefined = Unit {0}
  Ended P unfinished = ⊥

  module _ (g : Group) (P : List ℕ → Type 0)
      (kept : (section : Option (List ℕ)) (key value values : List ℕ)
        → P values
        → P (set_text strtoul g section key value values)) where
    read_loop-Ended :
        (fuel : ℕ) (r : IniReader) (values : List ℕ)
        → length r.view - r.pos < fuel
        → r.pos ≤ length r.view
        → needs_marks r.state ≡ false
        → P values
        → Ended P (read_loop strtoul g fuel r values)
    unfolding read_loop
    read_loop-Ended zero r values enough inside resting l = absurd (omega arith)
    read_loop-Ended (suc fuel) r values enough inside resting l =
        step (next r) (next-Ends r inside resting)
          (λ r' values' b i s l'. read_loop-Ended fuel r' values' b i s l')
      where
        step :
            (o : Out)
            → Ends r.pos r.view o
            → ((r' : IniReader) (values' : List ℕ)
                → length r'.view - r'.pos < fuel
                → r'.pos ≤ length r'.view
                → needs_marks r'.state ≡ false
                → P values'
                → Ended P (read_loop strtoul g fuel r' values'))
            → Ended P (
                let out : Reading strtoul = elim o [
                  | Out.property p r' ↦
                      read_loop strtoul g fuel r'
                        (set_text strtoul g p.section p.key p.value values)
                  | Out.stop r' ↦ done values
                  | Out.undefined s ↦ undefined
                  | Out.go s ↦ undefined
                ] in
                out)
        step (Out.go s) f later = absurd f
        step (Out.stop r') f later = l
        step (Out.undefined s) f later = tt
        step (Out.property p r') (same, further, within, state) later =
            let size : length r'.view ≡ length r.view = ap length same in
            later r' _ (omega (arith, size, further, within, enough)) (omega (arith, size, within))
              (ap needs_marks state) (kept p.section p.key p.value values l)

    -- What `set` keeps, readIni keeps.
    pub read_ini-keeps : (ini values : List ℕ) → P values → Ended P (read_ini strtoul g ini values)
    unfolding read_ini
    read_ini-keeps ini values l = read_loop-Ended _ _ values (omega arith) (omega arith) refl l

  -- If the values are legal, then readIni on any text ends: with values that are legal, or with
  -- undefined behaviour in IniReader::next.
  pub read_ini-Ended :
      (g : Group) (ini values : List ℕ)
      → AllLegal g.entries values
      → Ended (AllLegal g.entries) (read_ini strtoul g ini values)
  read_ini-Ended g ini values l =
      read_ini-keeps g (AllLegal g.entries) (set_text-AllLegal g) ini values l
