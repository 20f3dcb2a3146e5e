-- ===== src/Race/Tests.antt =====
-- The theorems about RaceClient.cc at a race of one player, with two datagrams of which one is a frame.
use mkw_sp.Base.{
  ℕ, ◌≤◌, ◌+◌, ◌≡◌, ◌↔◌, arith, refl, List, [], ◌∷◌, Option, some, none, Bool, true, false, ltb,
  replicate,
}
use mkw_sp.Room.Types.{RoomClient, State}
use mkw_sp.Race.{
  Floats, PlayerFrame, RaceServerFrame, Received, RaceClient, RaceLink, is_frame_valid,
  are_times_later, are_players_valid, is_player_valid, is_input_state_valid, are_boosts_valid,
  is_vec3_valid, is_outside, is_quat_valid, is_f32_valid, calc_read,
}
use mkw_sp.Race.Valid.{Follows, is_frame_valid_iff}
use mkw_sp.Race.Progress.{received, Waiting, Synced, is_some, calc_read-Synced}

-- Whole thousandths with a sign, which have no NaN.
abbrev test_lt : Bool × ℕ → Bool × ℕ → Bool
test_lt (true, a) (true, b) = ltb b a
test_lt (true, a) (false, b) = true
test_lt (false, a) (true, b) = false
test_lt (false, a) (false, b) = ltb a b

abbrev test_floats : Floats
test_floats = record {
  F32 = Bool × ℕ;
  is_nan = λ x. false;
  lt = test_lt;
  literal = λ sign x. (sign, x);
}

abbrev test_player : PlayerFrame test_floats
test_player = record {
  input_state = record { stick_x = 14; stick_y = 7; trick = 0 };
  time_before_respawn = 190;
  time_in_respawn = 0;
  times_before_boost_end = 180 ∷ 0 ∷ 0 ∷ [];
  pos = record { x = (true, 25); y = (false, 500); z = (false, 0) };
  main_rot = record { x = (false, 0); y = (false, 0); z = (false, 0); w = (true, 1000) };
  internal_speed = (false, 85000);
}

abbrev test_frame : ℕ → RaceServerFrame test_floats
test_frame time = record { time = time; player_times = time ∷ []; players = test_player ∷ [] }

abbrev test_read :
    List (Option (RaceServerFrame test_floats))
    → Received test_floats × List (Option (RaceServerFrame test_floats))
test_read [] = (Received.nothing, [])
test_read (d ∷ ds) = (received d, ds)

abbrev test_link : RaceLink test_floats (List (Option (RaceServerFrame test_floats)))
test_link = record { read = test_read; write_ping = λ u. u }

abbrev test_room : RoomClient Bool
test_room = record {
  player_count = 1;
  players = [];
  settings = [];
  gamemode = 0;
  vote_player_order = replicate 12 0;
  vote_current_player_idx = 0;
  local_player_count = 1;
  local_player_ids = 0 ∷ 0 ∷ [];
  local_settings_changed = false;
  state = State.main;
  socket = true;
  login_info = none;
  error_code = none;
  reported_error = false;
  calls = [];
}

abbrev test_datagrams : List (Option (RaceServerFrame test_floats))
test_datagrams = none ∷ some (test_frame 9) ∷ some (test_frame 8) ∷ []

abbrev test_client : RaceClient test_floats Bool (List (Option (RaceServerFrame test_floats)))
test_client = record {
  room_client = test_room;
  socket = test_datagrams;
  frame_count = 4;
  frame = some (test_frame 7);
  can_start_countdown = false;
}

is_frame_valid_iff_example :
    (is_frame_valid test_floats 1 (some (test_frame 7)) (test_frame 9) ≡ true)
    ↔ Follows test_floats 1 (some (test_frame 7)) (test_frame 9)
is_frame_valid_iff_example = is_frame_valid_iff test_floats 1 (some (test_frame 7)) (test_frame 9)

-- The frame at 9 is one that the frame at 7 admits.
accepts_later : is_frame_valid test_floats 1 (some (test_frame 7)) (test_frame 9) ≡ true
unfolding is_frame_valid are_times_later are_players_valid is_player_valid is_input_state_valid
    are_boosts_valid is_vec3_valid is_outside is_quat_valid is_f32_valid
accepts_later = refl

calc_read-Synced_example :
    (c' : RaceClient test_floats Bool (List (Option (RaceServerFrame test_floats)))) × (calc_read
        test_floats test_link 4 test_client
      ≡ some c')
    × (s : Synced test_link test_client test_datagrams [] c') × (c'.can_start_countdown
        ≡ is_some c'.frame)
    × ((a : RaceServerFrame test_floats)
        → some (test_frame 7) ≡ some a
        → (b : RaceServerFrame test_floats) × (c'.frame ≡ some b) × (a.time + s.count ≤ b.time))
calc_read-Synced_example =
    calc_read-Synced test_link 4 test_client test_datagrams []
      (Waiting.more refl (Waiting.more refl (Waiting.more refl (Waiting.empty refl)))) (omega arith)
      (omega arith)
