-- ===== src/Settings.antt =====
-- payload/sp/settings/Settings.hh: the values of a group of settings, and how they are read.
-- `strtoul` is the C library's, on a base and a text: none if it does not reach the text's end.
pub mod Legal
pub mod Write
pub mod Sound
pub mod Known
pub mod Text
pub mod Lines
pub mod Roundtrip
pub mod Stored
pub mod Small
pub mod Names
pub mod Digits
mod Tests
use mkw_sp.Base.{
  ℕ, zero, suc, ◌+◌, List, [], ◌∷◌, Option, none, some, Bool, true, false, ltb, leb, ◌==◌, ◌&&◌,
  ◌||◌, not, length, take, get_elem?, set, if◌then◌else◌,
}
use mkw_sp.Base.Words.{add32}
use mkw_sp.IniReader.{IniReader, Property, Out, State, next}

pub record Entry : Type 0 where
  pub category : ℕ
  pub name : List ℕ
  pub default_value : ℕ
  pub value_count : ℕ
  pub value_offset : ℕ
  pub value_names : Option (List (List ℕ))

pub record Group : Type 0 where
  pub name : List ℕ
  pub category_names : List (List ℕ)
  pub entries : List Entry

abbrev pub text_eq : List ℕ → List ℕ → Bool
text_eq [] [] = true
text_eq [] (_ ∷ _) = false
text_eq (_ ∷ _) [] = false
text_eq (x ∷ xs) (y ∷ ys) = x == y && text_eq xs ys

-- Whether element i of an array of texts is a text.
abbrev pub text_at : List (List ℕ) → ℕ → List ℕ → Bool
text_at names i text = elim (get_elem? names i) [ none ↦ false | some name ↦ text_eq name text ]

unfoldable pub reset : List Entry → List ℕ
reset [] = []
reset (e ∷ entries) = e.default_value ∷ reset entries

-- A null section is none, and fits each category.
abbrev pub fits : Group → Option (List ℕ) → List ℕ → Entry → Bool
fits g none key e = text_eq key e.name
fits g (some section) key e = text_at g.category_names e.category section && text_eq key e.name

pub find_entry : Group → Option (List ℕ) → List ℕ → ℕ → List Entry → Option ℕ
find_entry g section key i [] = none
find_entry g section key i (e ∷ entries) =
    let rest = find_entry g section key (i + 1) entries in
    if fits g section key e then some i else rest

pub find_value : ℕ → ℕ → List (List ℕ) → List ℕ → Option ℕ
find_value zero i names value = none
find_value (suc rounds) i names value =
    let rest = find_value rounds (i + 1) names value in
    if text_at names i value then some i else rest

module _ (strtoul : ℕ → List ℕ → Option ℕ) where
  -- The value that a text stands for; snprintf keeps 8 characters of it.
  unfoldable pub value_of : Entry → List ℕ → Option ℕ
  value_of e value =
      let numeric : Option ℕ = elim (strtoul 10 (take 8 value)) [
        | none ↦ none
        | some v ↦
            if ltb v e.value_offset || leb (add32 e.value_offset e.value_count) v
            then none
            else some v
      ] in
      let named : Option ℕ = elim e.value_names [
        | none ↦ numeric
        | some names ↦ find_value e.value_count 0 names value
      ] in
      if e.value_count == 0 then strtoul 16 (take 8 value) else named

  -- The private `set`; it does nothing for a key or a value that it does not know.
  pub set_text : Group → Option (List ℕ) → List ℕ → List ℕ → List ℕ → List ℕ
  set_text g section key value values = elim (find_entry g section key 0 g.entries) [
    | none ↦ values
    | some i ↦ elim (get_elem? g.entries i) [
      | none ↦ values
      | some e ↦ elim (value_of e value) [ none ↦ values | some v ↦ set values i v ]
    ]
  ]

  -- How `readIni` ends: with values, undefined in IniReader::next, or not within the fuel.
  pub data Reading : Type 0 where
    done : List ℕ → Reading
    undefined unfinished : Reading

  pub read_loop : Group → ℕ → IniReader → List ℕ → Reading
  read_loop g zero r values = unfinished
  read_loop g (suc fuel) r values = elim (next r) [
    | Out.property p r' ↦ read_loop g fuel r' (set_text g p.section p.key p.value values)
    | Out.stop r' ↦ done values
    | Out.undefined s ↦ undefined
    | Out.go s ↦ undefined
  ]

  -- The fuel is a round for each character and one more.
  pub read_ini : Group → List ℕ → List ℕ → Reading
  read_ini g ini values =
      read_loop g (suc (length ini))
        (record { view = ini; pos = 0; section = none; state = State.start }) values
