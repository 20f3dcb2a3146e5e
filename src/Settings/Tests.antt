-- ===== src/Settings/Tests.antt =====
-- The theorem about Settings.hh at a group of one setting, with a strtoul that knows one digit.
use mkw_sp.Base.{ℕ, ◌≡◌, ◌-◌, List, [], ◌∷◌, Option, none, some, refl, arith}
use mkw_sp.Settings.{Group, set_text, find_entry, value_of, read_ini, done}
use mkw_sp.Settings.Digits.{strtoul, dec, hex8, digits-Numbers}
use mkw_sp.Settings.Write.{write_ini}
use mkw_sp.Settings.Stored.{read_ini-write_ini}

abbrev test_strtoul : ℕ → List ℕ → Option ℕ
test_strtoul base [] = none
test_strtoul base (c ∷ cs) = some (c - 48)

-- [R] races, from 1 to 4
abbrev test_group : Group
test_group = record {
  name = 84 ∷ [];
  category_names = (82 ∷ []) ∷ [];
  entries =
      record {
        category = 0;
        name = 110 ∷ [];
        default_value = 1;
        value_count = 4;
        value_offset = 1;
        value_names = none;
      }
      ∷ [];
}

set_text-in_range :
    set_text test_strtoul test_group (some (82 ∷ [])) (110 ∷ []) (51 ∷ []) (1 ∷ []) ≡ 3 ∷ []
unfolding set_text find_entry value_of
set_text-in_range = refl

set_text-out_of_range : set_text test_strtoul test_group none (110 ∷ []) (53 ∷ []) (1 ∷ []) ≡ 1 ∷ []
unfolding set_text find_entry value_of
set_text-out_of_range = refl

-- With real digits.
read_ini-write_ini_example :
    (ini : List ℕ) × (write_ini dec hex8 test_group (4 ∷ []) 25 ≡ some ini)
    × (read_ini strtoul test_group ini (1 ∷ []) ≡ done (4 ∷ []))
read_ini-write_ini_example =
    read_ini-write_ini digits-Numbers test_group (4 ∷ []) (1 ∷ []) 25 refl (refl, tt)
      (omega arith, tt) refl (omega arith)
