-- ===== src/ClientSettings.antt =====
-- payload/sp/settings/ClientSettings.cc: the table of the settings of a license.
pub mod Enums
pub mod Stored
mod Tests
use mkw_sp.Base.{ℕ, List, [], ◌∷◌, ◌++◌, Option, none, some}
use mkw_sp.Settings.{Entry, Group}
use mkw_sp.Settings.Names.{codes, entry, named}
use mkw_sp.ClientSettings.Enums.{
  character_names, vehicle_names, drift_mode_names, vanilla_mode_names, simplified_controls_names,
  fov169_names, fps_mode_names, region_line_color_names, far_player_tags_names, hud_labels_names,
  hud_team_colors_names, mini_map_names, map_icons_names, input_display_names, speedometer_names,
  rank_control_names, item_music_names, last_lap_jingle_names, last_lap_speedup_names,
  ta_class_names, ta_ghost_sorting_names, ta_ghost_tag_visibility_names, ta_ghost_tag_content_names,
  ta_solid_ghosts_names, ta_ghost_sound_names, team_size_names, course_selection_names,
  engine_class_names, cpu_mode_names, vehicles_names, item_frequency_names, vs_mega_clouds_names,
  room_team_selection_names, room_course_selection_names, color_palette_names, gc_pad_rumble_names,
  page_transitions_names, perf_overlay_names, region_flag_display_names, debug_checkpoints_names,
  debug_panel_names, debug_kcl_names, y_button_names, client_category_names,
}

-- The categories.
abbrev race : ℕ
race = 0

abbrev hud : ℕ
hud = 1

abbrev sound : ℕ
sound = 2

abbrev ta : ℕ
ta = 3

abbrev vs : ℕ
vs = 4

abbrev bt : ℕ
bt = 5

abbrev room : ℕ
room = 6

abbrev license : ℕ
license = 7

abbrev debug_overlay : ℕ
debug_overlay = 8

abbrev race_entries : List Entry
race_entries =
    named race "Character" character_names "Mario"
    ∷ named race "Vehicle" vehicle_names "StandardKartMedium"
    ∷ named race "DriftMode" drift_mode_names "Manual"
    ∷ named race "VanillaMode" vanilla_mode_names "Disable"
    ∷ named race "SimplifiedControls" simplified_controls_names "Off"
    ∷ named race "FOV169" fov169_names "FOV169"
    ∷ named race "FPSMode" fps_mode_names "Vanilla"
    ∷ []

abbrev hud_entries : List Entry
hud_entries =
    named hud "RegionLineColor" region_line_color_names "Default"
    ∷ named hud "FarPlayerTags" far_player_tags_names "Disable"
    ∷ entry hud "PlayerTags" 3 13 0 none
    ∷ named hud "HUDLabels" hud_labels_names "Show"
    ∷ named hud "HUDTeamColors" hud_team_colors_names "Enable"
    ∷ named hud "MiniMap" mini_map_names "Enable"
    ∷ named hud "MapIcons" map_icons_names "Miis"
    ∷ named hud "InputDisplay" input_display_names "Simple"
    ∷ named hud "Speedometer" speedometer_names "InternalPlus"
    ∷ named hud "RankControl" rank_control_names "GPVS"
    ∷ []

abbrev sound_entries : List Entry
sound_entries =
    entry sound "Volume" 10 11 0 none
    ∷ entry sound "MusicVolume" 10 11 0 none
    ∷ named sound "ItemMusic" item_music_names "All"
    ∷ named sound "LastLapJingle" last_lap_jingle_names "GameplayOnly"
    ∷ named sound "LastLapSpeedup" last_lap_speedup_names "Static"
    ∷ []

abbrev ta_entries : List Entry
ta_entries =
    named ta "TAClass" ta_class_names "CC150"
    ∷ named ta "TAGhostSorting" ta_ghost_sorting_names "Time"
    ∷ named ta "TAGhostTagVisibility" ta_ghost_tag_visibility_names "All"
    ∷ named ta "TAGhostTagContent" ta_ghost_tag_content_names "Name"
    ∷ named ta "TASolidGhosts" ta_solid_ghosts_names "None"
    ∷ named ta "TAGhostSound" ta_ghost_sound_names "Watched"
    ∷ []

abbrev vs_entries : List Entry
vs_entries =
    named vs "VSTeamSize" team_size_names "FFA"
    ∷ entry vs "VSRaceCount" 4 32 1 none
    ∷ named vs "VSCourseSelection" course_selection_names "Choose"
    ∷ named vs "VSClass" engine_class_names "CC150"
    ∷ named vs "VSCPUMode" cpu_mode_names "Normal"
    ∷ entry vs "VSPlayerCount" 12 11 2 none
    ∷ named vs "VSVehicles" vehicles_names "All"
    ∷ named vs "VSItemFrequency" item_frequency_names "Balanced"
    ∷ named vs "VSMegaClouds" vs_mega_clouds_names "Disable"
    ∷ []

abbrev bt_entries : List Entry
bt_entries =
    named bt "BTTeamSize" team_size_names "Six"
    ∷ entry bt "BTRaceCount" 4 32 1 none
    ∷ named bt "BTCourseSelection" course_selection_names "Choose"
    ∷ named bt "BTCPUMode" cpu_mode_names "Normal"
    ∷ entry bt "BTPlayerCount" 12 11 2 none
    ∷ named bt "BTVehicles" vehicles_names "All"
    ∷ named bt "BTItemFrequency" item_frequency_names "Balanced"
    ∷ []

abbrev room_entries : List Entry
room_entries =
    named room "RoomTeamSize" team_size_names "FFA"
    ∷ named room "RoomTeamSelection" room_team_selection_names "Random"
    ∷ entry room "RoomRaceCount" 4 32 1 none
    ∷ named room "RoomCourseSelection" room_course_selection_names "Random"
    ∷ named room "RoomClass" engine_class_names "Mixed"
    ∷ named room "RoomVehicles" vehicles_names "All"
    ∷ entry room "RoomCodeHigh" 0xffffffff 0 0 none
    ∷ entry room "RoomCodeLow" 0xffffffff 0 0 none
    ∷ []

abbrev license_entries : List Entry
license_entries =
    entry license "MiiAvatar" 0x80000001 0 0 none
    ∷ entry license "MiiClient" 0xecff82d2 0 0 none
    ∷ named license "ColorPalette" color_palette_names "Vivid"
    ∷ entry license "LoadingScreenColor" 0xff 0 0 none
    ∷ named license "GCPadRumble" gc_pad_rumble_names "Enable"
    ∷ named license "PageTransitions" page_transitions_names "Enable"
    ∷ named debug_overlay "PerfOverlay" perf_overlay_names "Disable"
    ∷ named license "RegionFlagDisplay" region_flag_display_names "Enable"
    ∷ named debug_overlay "DebugCheckpoints" debug_checkpoints_names "Disable"
    ∷ named debug_overlay "DebugPanel" debug_panel_names "Disable"
    ∷ named debug_overlay "DebugKCL" debug_kcl_names "Disable"
    ∷ named debug_overlay "YButton" y_button_names "Screenshot"
    ∷ []

abbrev pub client_entries : List Entry
client_entries =
    race_entries ++ hud_entries ++ sound_entries ++ ta_entries ++ vs_entries ++ bt_entries
    ++ room_entries ++ license_entries

abbrev pub client_group : Group
client_group = record {
  name = codes "MKW-SP Settings";
  category_names = client_category_names;
  entries = client_entries;
}
