-- ===== src/GlobalSettings.antt =====
-- payload/sp/settings/GlobalSettings.cc and GlobalSettings.hh: the settings that are read and stored
-- again at each start.
pub mod Restart
mod Tests
use mkw_sp.Base.{ℕ, List, [], ◌∷◌, ◌++◌, Option, none, some, true}
use mkw_sp.Settings.{Entry, Group, Reading, done, undefined, unfinished, reset, read_ini}
use mkw_sp.Settings.Names.{codes, words, entry, named}
use mkw_sp.Settings.Write.{write_ini}
use mkw_sp.Storage.{Drivers, FilePath, System, read_file, write_file}

abbrev file_replacement_names : List (List ℕ)
file_replacement_names = words "Off BRSTMsOnly All"

abbrev global_category_names : List (List ℕ)
global_category_names = words "MyStuff UI Miscellaneous"

abbrev pub global_entries : List Entry
global_entries =
    named 0 "FileReplacement" file_replacement_names "All"
    ∷ entry 1 "BootSection" 0xffffffff 0 0 none
    ∷ entry 2 "LogFileRetention" 7 0 0 none
    ∷ []

abbrev pub global_group : Group
global_group = record {
  name = codes "Global Settings";
  category_names = global_category_names;
  entries = global_entries;
}

abbrev pub settings_path : FilePath
settings_path = codes "/mkw-sp/settings.ini"

-- iniBuffer
abbrev pub buffer_size : ℕ
buffer_size = 2048

module _ (v : Drivers) (strtoul : ℕ → List ℕ → Option ℕ) (dec hex8 : ℕ → List ℕ) where
  -- The values after readIni, if there is a file.
  unfoldable pub read_stored : Option (List ℕ) → Reading strtoul
  read_stored none = done (reset global_entries)
  read_stored (some ini) = read_ini strtoul global_group ini (reset global_entries)

  -- writeIni and WriteFile, whose result is not looked at; none is a failed assertion.
  unfoldable pub write_back : List ℕ → System v → Option (List ℕ) × System v
  write_back values s = elim (write_ini dec hex8 global_group values buffer_size) [
    | none ↦ (none, s)
    | some ini ↦ (some values, (write_file v settings_path ini true s).1)
  ]

  unfoldable pub restore : Option (List ℕ) × System v → Option (List ℕ) × System v
  restore (file, s) = elim (read_stored file) [
    | done values ↦ write_back values s
    | undefined ↦ (none, s)
    | unfinished ↦ (none, s)
  ]

  -- Init: the values of the instance; none is a failed assertion or undefined behaviour.
  unfoldable pub init : System v → Option (List ℕ) × System v
  init s = restore (read_file v settings_path buffer_size s)
