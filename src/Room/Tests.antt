-- ===== src/Room/Tests.antt =====
-- The theorems about RoomClient.cc at a room of three players, one of them local.
use mkw_sp.Base.{
  ℕ, zero, suc, ◌≡◌, ◌⊎◌, ◌<◌, arith, refl, List, [], ◌∷◌, some, none, true, false, replicate,
  get_or,
}
use mkw_sp.Room.Types.{Player, State, RoomClient, RoomEvent, ReadEvent, Link, Local, Call}
use mkw_sp.Room.Players.{is_player_local, on_player_leave}
use mkw_sp.Room.Players.Leave.{HasLeft, on_player_leave-HasLeft}
use mkw_sp.Room.Requests.{handle_error}
use mkw_sp.Room.Client.{resolve, on_main_event}
use mkw_sp.Room.Client.Graph.{Follows, resolve-Follows}
use mkw_sp.Room.Client.Errors.{calcs, handle_error-calcs}
use mkw_sp.Room.Client.Settings.{InRanges, settings_refused}

abbrev test_player : ℕ → Player
test_player client_id = record {
  client_id = client_id;
  mii = [];
  location = 0;
  latitude = 0;
  longitude = 0;
  region_line_color = 0;
  course = 0;
  character = 0;
  vehicle = 0;
  drift_is_auto = false;
  team_id = 0;
}

-- Player 2 is the local one.
abbrev test_client : RoomClient (List RoomEvent)
test_client = record {
  player_count = 3;
  players = test_player 10 ∷ test_player 11 ∷ test_player 12 ∷ replicate 9 (test_player 0);
  settings = 2 ∷ 0 ∷ 4 ∷ 0 ∷ 0 ∷ 0 ∷ [];
  gamemode = 0;
  vote_player_order = replicate 12 0;
  vote_current_player_idx = 0;
  local_player_count = 1;
  local_player_ids = 2 ∷ 0 ∷ [];
  local_settings_changed = false;
  state = State.main;
  socket = RoomEvent.start 1 ∷ [];
  login_info = none;
  error_code = none;
  reported_error = false;
  calls = [];
}

abbrev test_read : List RoomEvent → ReadEvent × List RoomEvent
test_read [] = (ReadEvent.nothing, [])
test_read (e ∷ w) = (ReadEvent.event e, w)

abbrev test_link : Link (List RoomEvent)
test_link = record {
  ready = λ w. true;
  poll = λ w. (true, w);
  read = test_read;
  write = λ request w. (true, w);
}

abbrev test_local : Local
test_local = record {
  mii = λ i. [];
  location = 0;
  latitude = 0;
  longitude = 0;
  region_line_color = 0;
  setting = λ i. 0;
}

seated : (j : ℕ) → j < 1 → get_or test_client.local_player_ids j 0 < 3
seated zero h = omega arith
seated (suc j) h = absurd (omega arith)

remote : is_player_local test_client 1 ≡ false
unfolding is_player_local
remote = refl

on_player_leave-HasLeft_example :
    ((on_player_leave 1 test_client).0 ≡ true)
    × HasLeft 1 test_client (on_player_leave 1 test_client).1
on_player_leave-HasLeft_example =
    on_player_leave-HasLeft test_client 1 refl (omega arith) (omega arith) (omega arith) remote
      seated

resolve-Follows_example : Follows State.main (resolve test_link test_local test_client).0
resolve-Follows_example = resolve-Follows test_link test_local test_client

abbrev two_rounds : List (List ℕ)
two_rounds = [] ∷ (30002 ∷ []) ∷ []

handle_error-calcs_example :
    calcs test_link test_local two_rounds (handle_error 30001 test_client) ≡ record test_client {
      error_code = some 30001;
      reported_error = false;
      calls = Call.on_error 30001 ∷ Call.on_error 30001 ∷ [];
    }
handle_error-calcs_example =
    handle_error-calcs test_link test_local test_client 30001 two_rounds refl

thirty_two_races-InRanges :
    InRanges
      (2 ∷ 0 ∷ 32 ∷ 0 ∷ 0 ∷ 0 ∷ [])
      (0 ∷ 0 ∷ 1 ∷ 0 ∷ 0 ∷ 0 ∷ [])
      (6 ∷ 3 ∷ 32 ∷ 4 ∷ 6 ∷ 3 ∷ [])
thirty_two_races-InRanges = omega arith

settings_refused_example :
    let event = RoomEvent.settings (2 ∷ 0 ∷ 32 ∷ 0 ∷ 0 ∷ 0 ∷ []) in
    let races : ℕ = 32 in
    ((races ≡ 32) × (on_main_event event test_client ≡ (none, test_client)))
    ⊎ ((races < 32) × ((on_main_event event test_client).0 ≡ some State.main))
settings_refused_example = settings_refused test_client 2 0 32 0 0 0 thirty_two_races-InRanges
