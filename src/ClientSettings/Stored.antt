-- ===== src/ClientSettings/Stored.antt =====
-- The settings of a license are stored and read back, in the buffer of SaveManager.cc.
use mkw_sp.Base.{ℕ, ◌≡◌, true, refl, List, Option, some, length, arith}
use mkw_sp.Settings.{read_ini, done}
use mkw_sp.Settings.Legal.{AllLegal}
use mkw_sp.Settings.Write.{write_ini}
use mkw_sp.Settings.Sound.{Numbers, is_group}
use mkw_sp.Settings.Text.{AllWords}
use mkw_sp.Settings.Stored.{group_size, read_ini-write_ini}
use mkw_sp.ClientSettings.{client_group}

client_group_sound : is_group client_group ≡ true
client_group_sound = refl

client_group-size : group_size client_group ≡ 1634
client_group-size = refl

-- iniBuffer of SaveManager::initSPSave and saveSPSave
abbrev pub ini_buffer_size : ℕ
ini_buffer_size = 2048

-- Let strtoul and the formats of numbers be as documented. Whatever legal 32-bit values the settings
-- of a license have, writeIni has room for them in the 2048 bytes of the buffer, and readIni on what
-- it writes gives each of them back.
pub client_settings-stored :
    {strtoul : ℕ → List ℕ → Option ℕ} {dec hex8 : ℕ → List ℕ} (n : Numbers strtoul dec hex8)
    (values olds : List ℕ)
    → AllLegal client_group.entries values
    → AllWords values
    → length olds ≡ length client_group.entries
    → (ini : List ℕ) × (write_ini dec hex8 client_group values ini_buffer_size ≡ some ini)
      × (read_ini strtoul client_group ini olds ≡ done values)
client_settings-stored n values olds l w same =
    read_ini-write_ini n client_group values olds ini_buffer_size client_group_sound l w same
      (omega (arith, client_group-size))
