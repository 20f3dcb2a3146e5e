-- ===== src/ClientSettings/Tests.antt =====
-- The settings of a license with their default values.
use mkw_sp.Base.{map, take, ℕ, List, ◌≡◌, some, refl, replicate}
use mkw_sp.Settings.{read_ini, done, reset}
use mkw_sp.Settings.Legal.{AllLegal}
use mkw_sp.Settings.Write.{write_ini}
use mkw_sp.Settings.Text.{AllWords}
use mkw_sp.Settings.Stored.{reset-AllLegal, reset-AllWords}
use mkw_sp.Settings.Digits.{strtoul, dec, hex8, digits-Numbers}
use mkw_sp.ClientSettings.{client_group, room_entries}
use mkw_sp.Room.Types.{value_counts, value_offsets}
use mkw_sp.ClientSettings.Stored.{client_settings-stored}

-- The settings of a room are the first six of its category, with these counts and offsets.
room-value_counts : map (λ e. e.value_count) (take 6 room_entries) ≡ value_counts
room-value_counts = refl

room-value_offsets : map (λ e. e.value_offset) (take 6 room_entries) ≡ value_offsets
room-value_offsets = refl

abbrev defaults : List ℕ
defaults = reset client_group.entries

defaults-AllLegal : AllLegal client_group.entries defaults
defaults-AllLegal = reset-AllLegal client_group.entries refl

defaults-AllWords : AllWords defaults
defaults-AllWords = reset-AllWords client_group.entries refl

client_settings-stored_example :
    (ini : List ℕ) × (write_ini dec hex8 client_group defaults 2048 ≡ some ini)
    × (read_ini strtoul client_group ini (replicate 64 0) ≡ done defaults)
client_settings-stored_example =
    client_settings-stored digits-Numbers defaults (replicate 64 0) defaults-AllLegal
      defaults-AllWords refl
