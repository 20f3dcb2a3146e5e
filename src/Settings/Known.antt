-- ===== src/Settings/Known.antt =====
-- Settings.hh: the private `set` finds the entry and the value that writeIni prints.
use mkw_sp.Base.{
  ℕ, zero, suc, ◌+◌, ◌≤◌, ◌<◌, ◌^◌, ◌≡◌, ◌∙◌, List, [], ◌∷◌, ◌++◌, Option, some, true, false, not,
  ◌==◌, length, get_elem?, set, take, arith, refl, sym, ap, Bool-cases, Option-cases, inl, inr,
  get_elem?-eq-get_or, get_or,
}
use mkw_sp.Base.Words.{add32}
use mkw_sp.IniReader.Line.Spaced.{IsName}
use mkw_sp.Settings.{
  Entry, Group, fits, find_entry, find_value, text_at, text_eq, value_of, set_text,
}
use mkw_sp.Settings.Legal.{is_legal}
use mkw_sp.Settings.Write.{value_text}
use mkw_sp.Settings.Sound.{
  Numbers, all-mid, all-get_elem?, is_name, is_name-IsName, are_different, is_entry, section_of,
  are_apart, is_group, most, value_size,
}

text_eq_refl : (xs : List ℕ) → text_eq xs xs ≡ true
text_eq_refl [] = refl
text_eq_refl (x ∷ xs) = ground (arith, text_eq_refl xs)

-- The search for a name that is different from all before it.
find_value-at :
    (names : List (List ℕ)) (all_names : List (List ℕ)) (rounds i v : ℕ) (name : List ℕ)
    → ((j : ℕ) → get_elem? all_names (i + j) ≡ get_elem? names j)
    → are_different names ≡ true
    → get_elem? names v ≡ some name
    → v < rounds
    → find_value rounds i all_names name ≡ some (i + v)
unfolding find_value
find_value-at names all_names zero i v name same d e h = absurd (omega arith)
find_value-at [] all_names (suc rounds) i v name same d e h = cc
find_value-at (x ∷ names) all_names (suc rounds) i zero name same d e h =
    let first : get_elem? all_names i ≡ some name =
      ap (get_elem? all_names) {y = i + 0} (omega arith) ∙ same 0 ∙ e in
    let t : text_at all_names i name ≡ true = rw (text_at, first) (text_eq_refl name) in
    rw t (ap some (omega arith))
find_value-at (x ∷ names) all_names (suc rounds) i (suc v) name same d e h =
    let first : get_elem? all_names i ≡ some x =
      ap (get_elem? all_names) {y = i + 0} (omega arith) ∙ same 0 in
    let differs : text_eq x name ≡ false =
      ground (arith, all-get_elem? (λ y. not (text_eq x y)) names v name (ground arith) e) in
    let rest =
      find_value-at names all_names rounds (i + 1) v name
        (λ j. ap (get_elem? all_names) {y = i + suc j} (omega arith) ∙ same (suc j)) (ground arith)
        e (omega arith) in
    let t : text_at all_names i name ≡ false = rw (text_at, first) differs in
    rw t (rest ∙ ap some (omega arith))

fits_self :
    (g : Group) (e : Entry) → is_entry g e ≡ true → fits g (some (section_of g e)) e.name e ≡ true
fits_self g e h =
    let inside : e.category < length g.category_names = ground (arith, h) in
    let q = get_elem?-eq-get_or g.category_names e.category [] inside in
    ground (arith, q, text_eq_refl (get_or g.category_names e.category []), text_eq_refl e.name)

find_entry-at :
    (g : Group) (before : List Entry) (e : Entry) (after : List Entry) (i : ℕ)
    → are_apart g (before ++ e ∷ after) ≡ true
    → is_entry g e ≡ true
    → find_entry g (some (section_of g e)) e.name i (before ++ e ∷ after) ≡ some (i + length before)
unfolding find_entry
find_entry-at g [] e after i apart ok = rw (fits_self g e ok) (ap some (omega arith))
find_entry-at g (d ∷ before) e after i apart ok =
    let misses : fits g (some (section_of g e)) e.name d ≡ false = ground (
      arith,
      all-mid (λ e. not (fits g (some (section_of g e)) e.name d)) before e after (ground arith),
    ) in
    rw misses (find_entry-at g before e after (i + 1) (ground arith) ok ∙ ap some (omega arith))

get_elem?-mid :
    (xs : List Entry) (y : Entry) (ys : List Entry) → get_elem? (xs ++ y ∷ ys) (length xs) ≡ some y
get_elem?-mid [] y ys = refl
get_elem?-mid (x ∷ xs) y ys = get_elem?-mid xs y ys

most-at :
    (names : List (List ℕ)) (i : ℕ) (name : List ℕ)
    → get_elem? names i ≡ some name
    → length name ≤ most names
most-at [] i name e = cc
most-at (x ∷ names) zero name e = let same : x ≡ name = cc in rw (← same) (omega arith)
most-at (x ∷ names) (suc i) name e = omega (arith, most-at names i name e)

module _ {strtoul : ℕ → List ℕ → Option ℕ} {dec hex8 : ℕ → List ℕ}
    (n : Numbers strtoul dec hex8) where
  -- The text of a value that an entry allows is a word that `set` understands.
  pub record Told (e : Entry) (v : ℕ) : Type 0 where
    pub text : List ℕ
    pub printed : value_text dec hex8 e v ≡ some text
    pub name : IsName text
    pub short : length text ≤ value_size e
    pub back : value_of strtoul e text ≡ some v

  take_all : (k : ℕ) (xs : List ℕ) → length xs ≤ k → take k xs ≡ xs
  take_all zero [] h = refl
  take_all (suc k) [] h = refl
  take_all zero (x ∷ xs) h = absurd (omega arith)
  take_all (suc k) (x ∷ xs) h = ap (◌∷◌ x) (take_all k xs (omega arith))

  pub legal-Told :
      (g : Group) (e : Entry) (v : ℕ)
      → is_entry g e ≡ true
      → is_legal e v ≡ true
      → v < 2 ^ 32
      → Told e v
  unfolding value_text value_of
  legal-Told g e v ok legal small = elim (Bool-cases (e.value_count == 0)) [
    | inl free ↦ record {
      text = hex8 v;
      printed = rw free refl;
      name = n.hex8_name v;
      short = rw (value_size, free) (omega (arith, n.hex8_size v small));
      back =
          rw free
            (rw (take_all 8 (hex8 v) (omega (arith, n.hex8_size v small))) (n.hex8_back v small));
    }
    | inr counted ↦ elim (Option-cases e.value_names) [
      | inl q ↦
          let in_range : v < add32 e.value_offset e.value_count =
            ground (arith, counted, q, legal) in
          let bounded : e.value_offset + e.value_count ≤ 10 ^ 8 = ground (arith, counted, q, ok) in
          let digits : length (dec v) ≤ 8 = n.dec_size v (omega arith) in
          let number : strtoul 10 (take 8 (dec v)) ≡ some v =
            rw (take_all 8 (dec v) digits) (n.dec_back v small) in
          record {
            text = dec v;
            printed = rw (counted, q) refl;
            name = n.dec_name v;
            short = rw (value_size, counted, q) digits;
            back = ground (arith, number, counted, q, legal);
          }
      | inr (names, q) ↦
          let below : v < e.value_count = ground (arith, counted, q, legal) in
          let enough : e.value_count ≤ length names = ground (arith, counted, q, ok) in
          let t = get_elem?-eq-get_or names v [] (omega arith) in
          record {
            text = get_or names v [];
            printed = rw (counted, q) t;
            short = rw (value_size, counted, q) (most-at names v (get_or names v []) t);
            name =
                is_name-IsName (get_or names v [])
                  (all-get_elem? is_name names v _ (ground (arith, counted, q, ok)) t);
            back =
                rw (counted, q)
                  (find_value-at names names e.value_count 0 v _
                      (λ j. ap (get_elem? names) (omega arith)) (ground (arith, counted, q, ok)) t
                      below
                    ∙ ap some (omega arith));
          }
    ]
  ]

  -- `set` stores what the text of a value stands for.
  pub set_text-Told :
      (g : Group) (before : List Entry) (e : Entry) (after : List Entry) (v : ℕ) (values : List ℕ)
      → g.entries ≡ before ++ e ∷ after
      → is_group g ≡ true
      → is_entry g e ≡ true
      → (t : Told e v)
      → set_text strtoul g (some (section_of g e)) e.name t.text values
        ≡ set values (length before) v
  unfolding set_text
  set_text-Told g before e after v values q ok entry t =
      let found : find_entry g (some (section_of g e)) e.name 0 g.entries ≡ some (length before) =
        ap (find_entry g (some (section_of g e)) e.name 0) q
        ∙ find_entry-at g before e after 0 (ap (are_apart g) (sym q) ∙ ground (arith, ok)) entry
        ∙ ap some (omega arith) in
      let there : get_elem? g.entries (length before) ≡ some e =
        ap (λ l. get_elem? l (length before)) q ∙ get_elem?-mid before e after in
      ground (arith, found, there, t.back)
