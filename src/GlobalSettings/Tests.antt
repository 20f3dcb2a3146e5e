-- ===== src/GlobalSettings/Tests.antt =====
-- GlobalSettings.cc on a disk with one file, which may be missing.
use mkw_sp.Base.{ℕ, ◌≡◌, List, [], ◌∷◌, Option, none, some, true, false, length, arith, refl}
use mkw_sp.Settings.{reset}
use mkw_sp.Settings.Text.{group_text}
use mkw_sp.Settings.Digits.{strtoul, dec, hex8, digits-Numbers, strtoul-lt}
use mkw_sp.Storage.{
  Drivers, StorageType, Mode, FilePath, System, read_file, write_file, open_path, dispatch,
}
use mkw_sp.GlobalSettings.{global_group, global_entries, settings_path, buffer_size, init}
use mkw_sp.GlobalSettings.Restart.{init-again, Left, init-Left}

abbrev open_shelf :
    StorageType → FilePath → Mode → Option (List ℕ) → Option (Unit {0}) × Option (List ℕ)
open_shelf t p Mode.r none = (none, none)
open_shelf t p m d = (some tt, d)

abbrev size_of : Option (List ℕ) → ℕ
size_of none = 0
size_of (some bytes) = length bytes

abbrev shelf : Drivers
shelf = record {
  Disk = Option (List ℕ);
  Handle = Unit {0};
  open_file = open_shelf;
  create_dir = λ t p n d. (false, d);
  rename = λ t p q d. (true, d);
  remove = λ t p n d. (true, d);
  write = λ h bytes o d. (true, some bytes);
  read = λ h n o d. (d, d);
  size = λ h d. (size_of d, d);
  close = λ h d. (true, d);
}

-- Booting to section 0x1d, no replacement of files, logs kept for three days.
abbrev chosen : List ℕ
chosen = 0 ∷ 0x1d ∷ 3 ∷ []

abbrev no_file : System shelf
no_file = record { now = none; past = [] }

abbrev stored : System shelf
stored = record { now = some (group_text dec hex8 global_group chosen); past = [] }

read_file-no_file :
    read_file shelf settings_path buffer_size no_file
    ≡ (none, (read_file shelf settings_path buffer_size no_file).1)
unfolding read_file open_path dispatch
read_file-no_file = refl

read_file-stored : read_file shelf settings_path buffer_size stored ≡ (
  some (group_text dec hex8 global_group chosen),
  (read_file shelf settings_path buffer_size stored).1,
)
unfolding read_file open_path dispatch
read_file-stored = refl

init-again_example :
    let text = group_text dec hex8 global_group in
    let s = (read_file shelf settings_path buffer_size no_file).1 in
    let t = (read_file shelf settings_path buffer_size stored).1 in
    (init shelf strtoul dec hex8 no_file ≡ (
      some (reset global_entries),
      (write_file shelf settings_path (text (reset global_entries)) true s).1,
    ))
    × (init shelf strtoul dec hex8 stored
        ≡ (some chosen, (write_file shelf settings_path (text chosen) true t).1))
init-again_example =
    init-again digits-Numbers shelf chosen no_file
      (read_file shelf settings_path buffer_size no_file).1 stored
      (read_file shelf settings_path buffer_size stored).1 (refl, (refl, (refl, tt)))
      (omega arith, (omega arith, (omega arith, tt))) read_file-no_file read_file-stored

init-Left_example :
    Left digits-Numbers shelf
      (read_file shelf settings_path buffer_size stored)
      (init shelf strtoul dec hex8 stored)
init-Left_example = init-Left digits-Numbers shelf strtoul-lt stored
