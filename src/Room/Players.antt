-- ===== src/Room/Players.antt =====
-- RoomClient.cc: the players of the room.
pub mod Leave
use mkw_sp.Base.{
  ℕ, zero, suc, ◌+◌, ◌-◌, List, [], ◌∷◌, none, some, Bool, true, false, ltb, leb, ◌==◌, ◌&&◌, ◌||◌,
  not, get_elem?, set, take, drop, if◌then◌else◌, ◌++◌,
}
use mkw_sp.Base.Words.{u8}
use mkw_sp.Room.Types.{Player, Properties, RoomClient, Call, call, max_players}

abbrev pub has_id : List ℕ → ℕ → Bool
has_id [] player_id = false
has_id (i ∷ ids) player_id = i == player_id || has_id ids player_id

-- The loop that closes the gap: players i .. i + rounds - 1 take the place before them.
unfoldable pub shift_players : ℕ → ℕ → List Player → List Player
shift_players zero i players = players
shift_players (suc rounds) i players = elim (get_elem? players (i + 1)) [
  | none ↦ players
  | some player ↦ shift_players rounds (i + 1) (set players i player)
]

abbrev pub lower_ids : ℕ → List ℕ → List ℕ
lower_ids player_id [] = []
lower_ids player_id (i ∷ ids) = (if ltb player_id i then i - 1 else i) ∷ lower_ids player_id ids

abbrev pub with_properties : Properties → Player → Player
with_properties q player = record player {
  course = q.course;
  character = q.character;
  vehicle = q.vehicle;
  drift_is_auto = q.drift_type;
}

module _ {W : Type 0} where
  unfoldable pub is_player_local : RoomClient W → ℕ → Bool
  is_player_local c player_id = has_id (take c.local_player_count c.local_player_ids) player_id

  pub is_player_remote : RoomClient W → ℕ → Bool
  is_player_remote c player_id = ltb player_id c.player_count && not (is_player_local c player_id)

  pub can_select_team : RoomClient W → ℕ → Bool
  can_select_team c player_id = is_player_local c player_id

  unfoldable pub on_player_join : List ℕ → ℕ → ℕ → ℕ → ℕ → RoomClient W → Bool × RoomClient W
  on_player_join mii location latitude longitude region_line_color c =
      let joined : Player = record {
        client_id = 0xFFFFFFFF;
        mii = mii;
        location = location;
        latitude = latitude;
        longitude = longitude;
        region_line_color = region_line_color;
        course = 0xFFFFFFFF;
        character = 0;
        vehicle = 0;
        drift_is_auto = false;
        team_id = 0;
      } in
      if c.player_count == max_players then (false, c) else (
        true,
        call (Call.on_player_join mii location latitude longitude region_line_color) (record c {
          players = set c.players c.player_count joined;
          player_count = c.player_count + 1;
        }),
      )

  unfoldable pub on_player_leave : ℕ → RoomClient W → Bool × RoomClient W
  on_player_leave player_id c =
      let count = c.player_count - 1 in
      if leb c.player_count player_id
      then (false, c)
      else if is_player_local c player_id
      then (false, c)
      else (
        true,
        call (Call.on_player_leave player_id) (record c {
          player_count = count;
          players = shift_players (count - player_id) player_id c.players;
          local_player_ids =
              lower_ids player_id (take c.local_player_count c.local_player_ids)
              ++ drop c.local_player_count c.local_player_ids;
        }),
      )

  unfoldable pub on_receive_comment : ℕ → ℕ → RoomClient W → Bool × RoomClient W
  on_receive_comment player_id message_id c =
      if leb c.player_count player_id
      then (false, c)
      else if leb 96 message_id
      then (false, c)
      else (true, call (Call.on_receive_comment player_id message_id) c)

  unfoldable pub on_room_start : ℕ → RoomClient W → Bool × RoomClient W
  on_room_start gamemode c =
      if leb 3 gamemode then (false, c) else (true, record c { gamemode = gamemode })

  unfoldable pub on_receive_team_select : ℕ → ℕ → RoomClient W → Bool × RoomClient W
  on_receive_team_select player_id team_id c =
      if leb c.player_count player_id
      then (false, c)
      else if leb 6 team_id
      then (false, c)
      else (true, call (Call.on_receive_team_select player_id team_id) c)

  -- The order is an array of s8; here it holds the bytes.
  unfoldable pub on_receive_pulse : ℕ → RoomClient W → Bool × RoomClient W
  on_receive_pulse player_id c = if leb c.player_count player_id then (false, c) else (
    true,
    call (Call.on_receive_pulse player_id) (record c {
      vote_player_order = set c.vote_player_order player_id c.vote_current_player_idx;
      vote_current_player_idx = u8 (c.vote_current_player_idx + 1);
    }),
  )

  -- The loop of onReceiveInfo, from player i.
  unfoldable pub receive_infos : ℕ → List Properties → ℕ → RoomClient W → RoomClient W
  receive_infos i [] selected c = c
  receive_infos i (q ∷ infos) selected c =
      let players : List Player = elim (get_elem? c.players i) [
        | none ↦ c.players
        | some player ↦ set c.players i (with_properties q player)
      ] in
      receive_infos (i + 1) infos selected (
        call (Call.on_receive_info i q.course selected q.character q.vehicle)
          (record c { players = players }))

  unfoldable pub on_receive_info : List Properties → ℕ → RoomClient W → Bool × RoomClient W
  on_receive_info infos selected c = (true, receive_infos 0 infos selected c)
