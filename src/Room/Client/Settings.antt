-- ===== src/Room/Client/Settings.antt =====
-- RoomClient.cc: the check of the settings that a room sends, against their ranges in
-- ClientSettings.cc, which Settings.hh applies with `valueOffset`.
use mkw_sp.Base.{
  ℕ, ◌+◌, ◌≤◌, ◌<◌, ◌≡◌, ◌⊎◌, List, [], ◌∷◌, some, none, true, false, arith, refl, inl, inr,
}
use mkw_sp.Room.Types.{RoomClient, RoomEvent, State, value_counts, value_offsets}
use mkw_sp.Room.Client.{on_main_event, settings_below}

-- The settings that Settings.hh accepts: valueOffset ≤ v < valueOffset + valueCount.
abbrev pub InRanges : List ℕ → List ℕ → List ℕ → Type 0
InRanges [] [] [] = Unit {0}
InRanges (v ∷ vs) (o ∷ os) (n ∷ ns) = (o ≤ v) × (v < o + n) × InRanges vs os ns
InRanges _ _ _ = ⊥

settings_below-InRanges :
    (a b r c d e : ℕ)
    → InRanges (a ∷ b ∷ r ∷ c ∷ d ∷ e ∷ []) value_offsets value_counts
    → ((r ≡ 32) × (settings_below (a ∷ b ∷ r ∷ c ∷ d ∷ e ∷ []) value_counts ≡ false))
      ⊎ ((r < 32) × (settings_below (a ∷ b ∷ r ∷ c ∷ d ∷ e ∷ []) value_counts ≡ true))
unfolding settings_below
settings_below-InRanges a b r c d e h = ground arith

-- Of the room settings in the ranges of ClientSettings.cc, those with 32 races are refused in the
-- main state: no state follows and nothing changes. All others are accepted, and the main state
-- follows.
pub settings_refused :
    {W : Type 0} (c : RoomClient W)
    (team_size team_selection race_count course_selection engine_class vehicles : ℕ)
    → InRanges
        (team_size ∷ team_selection ∷ race_count ∷ course_selection ∷ engine_class ∷ vehicles ∷ [])
        value_offsets
        value_counts
    → let event = RoomEvent.settings (
        team_size ∷ team_selection ∷ race_count ∷ course_selection ∷ engine_class ∷ vehicles
        ∷ []) in
      ((race_count ≡ 32) × (on_main_event event c ≡ (none, c)))
      ⊎ ((race_count < 32) × ((on_main_event event c).0 ≡ some State.main))
unfolding on_main_event
settings_refused c ts s r cs e v h = elim (settings_below-InRanges ts s r cs e v h) [
  | inl (full, no_pass) ↦ inl (full, rw no_pass refl)
  | inr (fewer, pass) ↦ inr (fewer, rw pass (ground arith))
]
