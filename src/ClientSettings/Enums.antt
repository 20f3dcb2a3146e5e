-- ===== src/ClientSettings/Enums.antt =====
-- payload/sp/settings/ClientSettings.hh and payload/game/util/Registry.hh: the names of the values of
-- the enumerations, in the order of the values, as magic_enum gives them.
use mkw_sp.Base.{ℕ, List, ◌++◌}
use mkw_sp.Settings.Names.{words}

abbrev pub character_names : List (List ℕ)
character_names =
    words "Mario BabyPeach Waluigi Bowser BabyDaisy DryBones BabyMario Luigi Toad DonkeyKong"
    ++ words "Yoshi Wario BabyLuigi Toadette KoopaTroopa Daisy Peach Birdo DiddyKong KingBoo"
    ++ words "BowserJr DryBowser FunkyKong Rosalina SmallMiiOutfitAMale SmallMiiOutfitAFemale"
    ++ words "SmallMiiOutfitBMale SmallMiiOutfitBFemale SmallMiiOutfitCMale SmallMiiOutfitCFemale"
    ++ words "MediumMiiOutfitAMale MediumMiiOutfitAFemale MediumMiiOutfitBMale"
    ++ words "MediumMiiOutfitBFemale MediumMiiOutfitCMale MediumMiiOutfitCFemale"
    ++ words "LargeMiiOutfitAMale LargeMiiOutfitAFemale LargeMiiOutfitBMale LargeMiiOutfitBFemale"
    ++ words "LargeMiiOutfitCMale LargeMiiOutfitCFemale MediumMii SmallMii LargeMii"

abbrev pub vehicle_names : List (List ℕ)
vehicle_names =
    words "StandardKartSmall StandardKartMedium StandardKartLarge BoosterSeat ClassicDragster"
    ++ words "Offroader MiniBeast WildWing FlameFlyer CheepCharger SuperBlooper PiranhaProwler"
    ++ words "TinyTitan Daytripper Jetsetter BlueFalcon Sprinter Honeycoupe StandardBikeSmall"
    ++ words "StandardBikeMedium StandardBikeLarge BulletBike MachBike FlameRunner BitBike"
    ++ words "Sugarscoot WarioBike Quacker ZipZip ShootingStar Magikruiser Sneakster Spear"
    ++ words "JetBubble DolphinDasher Phantom"

abbrev pub drift_mode_names : List (List ℕ)
drift_mode_names = words "Manual Auto"

abbrev pub vanilla_mode_names : List (List ℕ)
vanilla_mode_names = words "Disable Enable"

abbrev pub simplified_controls_names : List (List ℕ)
simplified_controls_names = words "Off NonExclusive Exclusive"

abbrev pub fov169_names : List (List ℕ)
fov169_names = words "FOV169 FOV43"

abbrev pub fps_mode_names : List (List ℕ)
fps_mode_names = words "Vanilla Force60 Force30"

abbrev pub region_line_color_names : List (List ℕ)
region_line_color_names = words "Red Blue Green Yellow White Pink Default"

abbrev pub far_player_tags_names : List (List ℕ)
far_player_tags_names = words "Disable Enable"

abbrev pub hud_labels_names : List (List ℕ)
hud_labels_names = words "Hide Show"

abbrev pub hud_team_colors_names : List (List ℕ)
hud_team_colors_names = words "Disable Enable"

abbrev pub mini_map_names : List (List ℕ)
mini_map_names = words "Enable Disable"

abbrev pub map_icons_names : List (List ℕ)
map_icons_names = words "Characters Miis"

abbrev pub input_display_names : List (List ℕ)
input_display_names = words "Disable Simple"

abbrev pub speedometer_names : List (List ℕ)
speedometer_names = words "InternalPlus Internal XYZ XZ Y Off"

abbrev pub rank_control_names : List (List ℕ)
rank_control_names = words "GPVS Always"

abbrev pub item_music_names : List (List ℕ)
item_music_names = words "None DamageOnly All"

abbrev pub last_lap_jingle_names : List (List ℕ)
last_lap_jingle_names = words "GameplayOnly Always"

abbrev pub last_lap_speedup_names : List (List ℕ)
last_lap_speedup_names = words "None Static Dynamic"

abbrev pub ta_class_names : List (List ℕ)
ta_class_names = words "CC150 CC200 Mirror"

abbrev pub ta_ghost_sorting_names : List (List ℕ)
ta_ghost_sorting_names = words "Time Date Flap Lap2Pace Lap3Pace"

abbrev pub ta_ghost_tag_visibility_names : List (List ℕ)
ta_ghost_tag_visibility_names = words "None Watched All"

abbrev pub ta_ghost_tag_content_names : List (List ℕ)
ta_ghost_tag_content_names = words "Name Time TimeNoLeading Date"

abbrev pub ta_solid_ghosts_names : List (List ℕ)
ta_solid_ghosts_names = words "None Watched All"

abbrev pub ta_ghost_sound_names : List (List ℕ)
ta_ghost_sound_names = words "None Watched All"

abbrev pub team_size_names : List (List ℕ)
team_size_names = words "FFA Two Three Four Six Random"

abbrev pub course_selection_names : List (List ℕ)
course_selection_names = words "Choose Random InOrder"

abbrev pub engine_class_names : List (List ℕ)
engine_class_names = words "Mixed CC150 CC200 Mirror CC50 CC100"

abbrev pub cpu_mode_names : List (List ℕ)
cpu_mode_names = words "Easy Normal Hard"

abbrev pub vehicles_names : List (List ℕ)
vehicles_names = words "All Karts Bikes"

abbrev pub item_frequency_names : List (List ℕ)
item_frequency_names = words "Balanced Aggressive Strategic None"

abbrev pub vs_mega_clouds_names : List (List ℕ)
vs_mega_clouds_names = words "Disable Enable"

abbrev pub room_team_selection_names : List (List ℕ)
room_team_selection_names = words "Random Host Players"

abbrev pub room_course_selection_names : List (List ℕ)
room_course_selection_names = words "Random InOrder Host Vote"

abbrev pub color_palette_names : List (List ℕ)
color_palette_names = words "Vivid Colorblind"

abbrev pub gc_pad_rumble_names : List (List ℕ)
gc_pad_rumble_names = words "Disable Enable"

abbrev pub page_transitions_names : List (List ℕ)
page_transitions_names = words "Disable Enable"

abbrev pub perf_overlay_names : List (List ℕ)
perf_overlay_names = words "Disable Enable"

abbrev pub region_flag_display_names : List (List ℕ)
region_flag_display_names = words "Disable Enable"

abbrev pub debug_checkpoints_names : List (List ℕ)
debug_checkpoints_names = words "Disable Enable"

abbrev pub debug_panel_names : List (List ℕ)
debug_panel_names = words "Disable Player Online"

abbrev pub debug_kcl_names : List (List ℕ)
debug_kcl_names = words "Disable Overlay Replace"

abbrev pub y_button_names : List (List ℕ)
y_button_names = words "Disabled Screenshot ItemWheel"

abbrev pub client_category_names : List (List ℕ)
client_category_names = words "Race HUD Sound TA VS BT Room License DebugOverlay"
