-- ===== src/Settings/Write.antt =====
-- payload/sp/settings/Settings.hh: writeIni. The texts of %u and %08X are the C library's.
use mkw_sp.Base.{
  ℕ, ◌-◌, List, [], ◌∷◌, ◌++◌, Option, none, some, ltb, ◌==◌, length, get_elem?, if◌then◌else◌,
}
use mkw_sp.Settings.{Entry, Group}

-- What is written, and the room that is left.
pub record Output : Type 0 where
  pub written : List ℕ
  pub room : ℕ

-- Print; none is a failed assertion.
unfoldable pub print : List ℕ → Output → Option Output
print text o =
    if ltb (length text) o.room
    then some (record { written = o.written ++ text; room = o.room - length text })
    else none

-- "\n[%.*s]\n"
abbrev pub section_text : List ℕ → List ℕ
section_text name = 10 ∷ 91 ∷ (name ++ (93 ∷ 10 ∷ []))

-- "%.*s = %.*s\n"
abbrev pub line_text : List ℕ → List ℕ → List ℕ
line_text key value = key ++ (32 ∷ 61 ∷ 32 ∷ (value ++ (10 ∷ [])))

-- "# %s\n"
abbrev pub title_text : List ℕ → List ℕ
title_text name = 35 ∷ 32 ∷ (name ++ (10 ∷ []))

unfoldable pub print_section : Group → ℕ → Entry → Output → Option Output
print_section g last e o =
    if last == e.category then some o else elim (get_elem? g.category_names e.category) [
      | none ↦ none
      | some name ↦ print (section_text name) o
    ]

module _ (dec hex8 : ℕ → List ℕ) where
  -- The text of a value; none is an index behind the names.
  unfoldable pub value_text : Entry → ℕ → Option (List ℕ)
  value_text e v =
      if e.value_count == 0
      then some (hex8 v)
      else elim e.value_names [ none ↦ some (dec v) | some names ↦ get_elem? names v ]

  unfoldable pub print_line : Entry → ℕ → Output → Option Output
  print_line e v o = elim (value_text e v) [
    | none ↦ none
    | some text ↦ print (line_text e.name text) o
  ]

  -- The loop, with lastCategory; m_values has a value for each entry.
  unfoldable pub write_loop : Group → ℕ → List Entry → List ℕ → Output → Option Output
  write_loop g last [] values o = some o
  write_loop g last (e ∷ entries) [] o = none
  write_loop g last (e ∷ entries) (v ∷ values) o = elim (print_section g last e o) [
    | none ↦ none
    | some o' ↦ elim (print_line e v o') [
      | none ↦ none
      | some o'' ↦ write_loop g e.category entries values o''
    ]
  ]

  -- writeIni(ini, length): the text in the buffer.
  unfoldable pub write_ini : Group → List ℕ → ℕ → Option (List ℕ)
  write_ini g values size =
      elim (print (title_text g.name) (record { written = []; room = size })) [
        | none ↦ none
        | some o ↦ elim (write_loop g (length g.category_names) g.entries values o) [
          | none ↦ none
          | some o' ↦ some o'.written
        ]
      ]
