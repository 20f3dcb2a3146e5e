-- ===== src/Room/Types.antt =====
-- RoomManager.hh and RoomClient.hh: the members of a RoomClient, the events of Room.proto, and what
-- a client does to its surroundings.
use mkw_sp.Base.{ℕ, List, Option, Bool, [], ◌∷◌}

-- RoomManager::Player
pub record Player : Type 0 where
  pub client_id : ℕ
  pub mii : List ℕ
  pub location : ℕ
  pub latitude : ℕ
  pub longitude : ℕ
  pub region_line_color : ℕ
  pub course : ℕ
  pub character : ℕ
  pub vehicle : ℕ
  pub drift_is_auto : Bool
  pub team_id : ℕ

-- RoomManager::ClientState
pub data State : Type 0 where
  connect setup main team_select select race : State

-- RoomEvent_Properties
pub record Properties : Type 0 where
  pub character : ℕ
  pub vehicle : ℕ
  pub drift_type : Bool
  pub course : ℕ

-- RoomEvent; `other` is an event that no state of the client looks at.
pub data RoomEvent : Type 0 where
  join : List ℕ → ℕ → ℕ → ℕ → ℕ → RoomEvent
  leave : ℕ → RoomEvent
  comment : ℕ → ℕ → RoomEvent
  settings : List ℕ → RoomEvent
  start : ℕ → RoomEvent
  team_select : ℕ → ℕ → RoomEvent
  select_pulse : ℕ → RoomEvent
  select_info : List Properties → ℕ → RoomEvent
  other : RoomEvent

-- RoomRequest
pub data RoomRequest : Type 0 where
  join : List (List ℕ) → Option ℕ → ℕ → ℕ → ℕ → ℕ → List ℕ → RoomRequest
  comment : ℕ → RoomRequest
  start : ℕ → RoomRequest
  settings : List ℕ → RoomRequest
  team_select : ℕ → ℕ → RoomRequest
  vote : ℕ → Option Properties → RoomRequest

-- The calls of the page that handles the room, RoomManager::Handler.
pub data Call : Type 0 where
  on_setup on_main on_team_select on_select : Call
  on_player_join : List ℕ → ℕ → ℕ → ℕ → ℕ → Call
  on_player_leave : ℕ → Call
  on_receive_comment : ℕ → ℕ → Call
  on_settings_change : List ℕ → Call
  on_receive_team_select : ℕ → ℕ → Call
  on_receive_pulse : ℕ → Call
  on_receive_info : ℕ → ℕ → ℕ → ℕ → ℕ → Call
  on_error : ℕ → Call

-- What RoomClient::read gets from the socket and the decoder of protobuf.
pub data ReadEvent : Type 0 where
  broken : ReadEvent
  nothing : ReadEvent
  event : RoomEvent → ReadEvent

-- The socket with the encoding of protobuf.
pub record Link (W : Type 0) : Type 0 where
  pub ready : W → Bool
  pub poll : W → Bool × W
  pub read : W → ReadEvent × W
  pub write : RoomRequest → W → Bool × W

-- What the client takes from the SaveManager and the GlobalContext.
pub record Local : Type 0 where
  pub mii : ℕ → List ℕ
  pub location : ℕ
  pub latitude : ℕ
  pub longitude : ℕ
  pub region_line_color : ℕ
  pub setting : ℕ → ℕ

-- The members; `calls` are the calls of the handler, the latest first. The members that the
-- constructor leaves uninitialised may hold anything.
pub record RoomClient (W : Type 0) : Type 0 where
  pub player_count : ℕ
  pub players : List Player
  pub settings : List ℕ
  pub gamemode : ℕ
  pub vote_player_order : List ℕ
  pub vote_current_player_idx : ℕ
  pub local_player_count : ℕ
  pub local_player_ids : List ℕ
  pub local_settings_changed : Bool
  pub state : State
  pub socket : W
  pub login_info : Option ℕ
  pub error_code : Option ℕ
  pub reported_error : Bool
  pub calls : List Call

abbrev pub max_players : ℕ
max_players = 12

-- RoomSettings::count, and `valueCount` and `valueOffset` of the entries of ClientSettings.cc from
-- RoomTeamSize to RoomVehicles.
abbrev pub settings_count : ℕ
settings_count = 6

abbrev pub value_counts : List ℕ
value_counts = 6 ∷ 3 ∷ 32 ∷ 4 ∷ 6 ∷ 3 ∷ []

abbrev pub value_offsets : List ℕ
value_offsets = 0 ∷ 0 ∷ 1 ∷ 0 ∷ 0 ∷ 0 ∷ []

-- sizeof(System::RawMii)
abbrev pub mii_size : ℕ
mii_size = 76

abbrev pub call : {W : Type 0} → Call → RoomClient W → RoomClient W
call e c = record c { calls = e ∷ c.calls }
