-- ===== src/Settings/Names.antt =====
-- Names as lists of characters, and entries as the tables of settings write them.
use Prim.Native.Char.{code}
use Prim.Native.String.{String}
use mkw_sp.Base.{ℕ, ◌+◌, List, [], ◌∷◌, Option, some, ◌==◌, length, if◌then◌else◌}
use mkw_sp.Settings.{Entry, text_eq}

-- The characters of a text, which is ASCII.
abbrev pub codes : String → List ℕ
codes String.[] = []
codes (String.◌∷◌ c s) = code c ∷ codes s

abbrev to_first : ℕ → List (List ℕ) → List (List ℕ)
to_first c [] = (c ∷ []) ∷ []
to_first c (w ∷ ws) = (c ∷ w) ∷ ws

abbrev split : List ℕ → List (List ℕ)
split [] = [] ∷ []
split (c ∷ cs) = let rest = split cs in if c == 32 then [] ∷ rest else to_first c rest

-- The words of a text, which single blanks separate.
abbrev pub words : String → List (List ℕ)
words s = split (codes s)

abbrev index_of : List ℕ → List (List ℕ) → ℕ
index_of name [] = 0
index_of name (x ∷ xs) = let rest = index_of name xs in if text_eq x name then 0 else rest + 1

abbrev pub entry : ℕ → String → ℕ → ℕ → ℕ → Option (List (List ℕ)) → Entry
entry category name default_value value_count value_offset value_names = record {
  category = category;
  name = codes name;
  default_value = default_value;
  value_count = value_count;
  value_offset = value_offset;
  value_names = value_names;
}

-- An entry whose values are those of an enumeration, with the default one.
abbrev pub named : ℕ → String → List (List ℕ) → String → Entry
named category name names default_name =
    entry category name (index_of (codes default_name) names) (length names) 0 (some names)
