-- ===== src/Race.antt =====
-- payload/sp/cs: RaceClient.cc, RaceClient.hh, RaceManager.cc. A frame is what the decoder of
-- protobuf makes of a datagram; a float is an abstract type with the tests that the code makes.
pub mod Valid
pub mod Progress
mod Tests
use mkw_sp.Base.{
  ℕ, zero, suc, ◌+◌, List, [], ◌∷◌, Option, none, some, Bool, true, false, not, ltb, ◌==◌, ◌&&◌,
  ◌||◌, length, get_or, if◌then◌else◌,
}
use mkw_sp.Base.Words.{u32}
use mkw_sp.Room.Types.{RoomClient, Link}
use mkw_sp.Room.Requests.{handle_error}

-- f32: std::isnan, `<`, and the literals, as a sign and thousandths.
pub record Floats : Type 1 where
  pub F32 : Type 0
  pub is_nan : F32 → Bool
  pub lt : F32 → F32 → Bool
  pub literal : Bool → ℕ → F32

pub record InputState : Type 0 where
  pub stick_x : ℕ
  pub stick_y : ℕ
  pub trick : ℕ

-- RaceManager::IsInputStateValid
unfoldable pub is_input_state_valid : InputState → Bool
is_input_state_valid s = not (ltb 14 s.stick_x) && not (ltb 14 s.stick_y) && not (ltb 4 s.trick)

module _ (f : Floats) where
  open f use {F32, is_nan, lt, literal}

  pub record Vec3 : Type 0 where
    pub x : F32
    pub y : F32
    pub z : F32

  pub record Quat : Type 0 where
    pub x : F32
    pub y : F32
    pub z : F32
    pub w : F32

  pub record PlayerFrame : Type 0 where
    pub input_state : InputState
    pub time_before_respawn : ℕ
    pub time_in_respawn : ℕ
    pub times_before_boost_end : List ℕ
    pub pos : Vec3
    pub main_rot : Quat
    pub internal_speed : F32

  pub record RaceServerFrame : Type 0 where
    pub time : ℕ
    pub player_times : List ℕ
    pub players : List PlayerFrame

  -- std::isnan(v) || v < -bound || v > bound
  pub is_outside : ℕ → F32 → Bool
  is_outside bound v = is_nan v || lt v (literal true bound) || lt (literal false bound) v

  pub is_vec3_valid : Vec3 → Bool
  is_vec3_valid v =
      not (is_outside 1000000000 v.x)
      && not (is_outside 1000000000 v.y)
      && not (is_outside 1000000000 v.z)

  pub is_quat_valid : Quat → Bool
  is_quat_valid q =
      not (is_outside 1001 q.x)
      && not (is_outside 1001 q.y)
      && not (is_outside 1001 q.z)
      && not (is_outside 1001 q.w)

  pub is_f32_valid : F32 → Bool
  is_f32_valid s =
      not (is_nan s) && not (lt s (literal true 20000)) && not (lt (literal false 120000) s)

  -- The loop over timesBeforeBoostEnd.
  pub are_boosts_valid : List ℕ → Bool
  are_boosts_valid [] = true
  are_boosts_valid (t ∷ times) = not (ltb 180 t) && are_boosts_valid times

  -- The body of the loop over the players.
  pub is_player_valid : PlayerFrame → Bool
  is_player_valid p =
      is_input_state_valid p.input_state
      && not (ltb 190 p.time_before_respawn)
      && not (ltb 140 p.time_in_respawn)
      && not (not (p.time_before_respawn == 0) && not (p.time_in_respawn == 0))
      && length p.times_before_boost_end == 3
      && are_boosts_valid p.times_before_boost_end
      && is_vec3_valid p.pos
      && is_quat_valid p.main_rot
      && is_f32_valid p.internal_speed

  pub are_players_valid : List PlayerFrame → Bool
  are_players_valid [] = true
  are_players_valid (p ∷ players) = is_player_valid p && are_players_valid players

  -- No player's time is below the old one, for players i .. i + rounds - 1. The arrays have 12
  -- places; what the decoder does not fill is 0.
  pub are_times_later : ℕ → ℕ → List ℕ → List ℕ → Bool
  are_times_later zero i new old = true
  are_times_later (suc rounds) i new old =
      not (ltb (get_or new i 0) (get_or old i 0)) && are_times_later rounds (i + 1) new old

  pub is_frame_valid : ℕ → Option RaceServerFrame → RaceServerFrame → Bool
  is_frame_valid player_count old frame =
      let later : Bool = elim old [ none ↦ true | some o ↦ ltb o.time frame.time ] in
      let times : Bool = elim old [
        | none ↦ true
        | some o ↦ are_times_later (length frame.players) 0 frame.player_times o.player_times
      ] in
      later
      && length frame.player_times == player_count
      && times
      && length frame.players == player_count
      && are_players_valid frame.players

  -- What the race socket and the decoder make of the datagrams: none if none is left, or the
  -- datagram's frame, if it has one.
  pub data Received : Type 0 where
    nothing : Received
    garbage : Received
    frame : RaceServerFrame → Received

  pub record RaceLink (U : Type 0) : Type 0 where
    pub read : U → Received × U
    pub write_ping : U → U

  -- RoomRequest_race
  pub record RaceRequest : Type 0 where
    pub time : ℕ
    pub server_time : ℕ
    pub players : List PlayerFrame

  module _ (W U : Type 0) where
    pub record RaceClient : Type 0 where
      pub room_client : RoomClient W
      pub socket : U
      pub frame_count : ℕ
      pub frame : Option RaceServerFrame
      -- RaceManager::m_canStartCountdown
      pub can_start_countdown : Bool

  module _ {W U : Type 0} (link : RaceLink U) where
    pub on_frame : RaceServerFrame → RaceClient W U → RaceClient W U
    on_frame new c =
        if is_frame_valid c.room_client.player_count c.frame new
        then record c { frame_count = u32 (c.frame_count + 1); frame = some new }
        else c

    -- The loop of calcRead, with fuel: it ends when no datagram is left.
    pub read_loop : ℕ → RaceClient W U → Option (RaceClient W U)
    read_loop zero c = none
    read_loop (suc fuel) c =
        let (r, u) = link.read c.socket in
        let c' = record c { socket = u } in
        elim r [
          | nothing ↦ some c'
          | garbage ↦ read_loop fuel c'
          | frame new ↦ read_loop fuel (on_frame new c')
        ]

    pub start_countdown : RaceClient W U → RaceClient W U
    start_countdown c = elim c.frame [ none ↦ c | some _ ↦ record c { can_start_countdown = true } ]

    pub calc_read : ℕ → RaceClient W U → Option (RaceClient W U)
    calc_read fuel c = elim (read_loop fuel c) [ none ↦ none | some c' ↦ some (start_countdown c') ]

    -- calcWrite: `time` and `players` are those of the game's race. The result of the write of the
    -- request is dropped.
    pub calc_write :
        Link W
        → (RaceRequest → W → Bool × W)
        → ℕ
        → List PlayerFrame
        → RaceClient W U
        → RaceClient W U
    calc_write room write_race time players c =
        let socket : U = elim c.frame [ none ↦ link.write_ping c.socket | some _ ↦ c.socket ] in
        let server_time : ℕ = elim c.frame [ none ↦ 0 | some old ↦ old.time ] in
        let request : RaceRequest = record {
          time = time;
          server_time = server_time;
          players = players;
        } in
        let (written, w) = write_race request c.room_client.socket in
        let (ok, w') = room.poll w in
        let r = record c.room_client { socket = w' } in
        record c { room_client = if ok then r else handle_error 30001 r; socket = socket }
