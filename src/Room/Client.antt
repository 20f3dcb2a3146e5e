-- ===== src/Room/Client.antt =====
-- RoomClient.cc: the state machine that `calc` runs.
pub mod Graph
pub mod Errors
pub mod Settings
use mkw_sp.Base.{
  ℕ, zero, suc, ◌+◌, List, [], ◌∷◌, Option, none, some, Bool, true, false, not, ltb, ◌==◌, ◌&&◌,
  if◌then◌else◌, length, set, get_or,
}
use mkw_sp.Base.Words.{u16}
use mkw_sp.Room.Types.{
  RoomClient, RoomEvent, ReadEvent, State, Call, Link, Local, call, settings_count, value_counts,
  mii_size,
}
use mkw_sp.Room.Players.{
  is_player_local, on_player_join, on_player_leave, on_receive_comment, on_room_start,
  on_receive_team_select, on_receive_pulse, on_receive_info,
}
use mkw_sp.Room.Requests.{tabulate, write_join, write_settings}

-- The check of received settings: as many as the client has, each below the count of its values.
unfoldable pub settings_below : List ℕ → List ℕ → Bool
settings_below [] [] = true
settings_below [] (_ ∷ _) = false
settings_below (_ ∷ _) [] = false
settings_below (s ∷ settings) (n ∷ counts) = ltb s n && settings_below settings counts

abbrev pub lists_eq : List ℕ → List ℕ → Bool
lists_eq [] [] = true
lists_eq [] (_ ∷ _) = false
lists_eq (_ ∷ _) [] = false
lists_eq (x ∷ xs) (y ∷ ys) = x == y && lists_eq xs ys

-- std::optional<State>, with the client as it is then.
abbrev pub Result : Type 0 → Type 0
Result W = Option State × RoomClient W

module _ {W : Type 0} where
  -- if (!result) return {}; return state
  abbrev pub then_state : Bool × RoomClient W → State → Result W
  then_state (true, c) state = (some state, c)
  then_state (false, c) state = (none, c)

  -- What calcSetup and calcMain do with a join event.
  unfoldable pub on_join_event : List ℕ → ℕ → ℕ → ℕ → ℕ → State → RoomClient W → Result W
  on_join_event mii location latitude longitude region_line_color state c =
      if length mii == mii_size
      then then_state
          (on_player_join mii location (u16 latitude) (u16 longitude) region_line_color c) state
      else (none, c)

  on_team_event : RoomEvent → RoomClient W → Result W
  on_team_event (RoomEvent.team_select player_id team_id) c =
      then_state (on_receive_team_select player_id team_id c) State.team_select
  on_team_event _ c = (some State.team_select, c)

  on_select_event : RoomEvent → RoomClient W → Result W
  on_select_event (RoomEvent.select_pulse player_id) c =
      then_state (on_receive_pulse player_id c) State.select
  on_select_event (RoomEvent.select_info infos selected) c =
      then_state (on_receive_info infos selected c) State.select
  on_select_event _ c = (some State.select, c)

  unfoldable pub on_main_event : RoomEvent → RoomClient W → Result W
  on_main_event (RoomEvent.join mii location latitude longitude color) c =
      on_join_event mii location latitude longitude color State.main c
  on_main_event (RoomEvent.leave player_id) c = then_state (on_player_leave player_id c) State.main
  on_main_event (RoomEvent.comment player_id message_id) c =
      then_state (on_receive_comment player_id message_id c) State.main
  on_main_event (RoomEvent.settings settings) c =
      let c' = record c { settings = settings } in
      if not (settings_below settings value_counts)
      then (none, c)
      else if lists_eq settings c.settings
      then (some State.main, c')
      else (some State.main, call (Call.on_settings_change settings) c')
  on_main_event (RoomEvent.start gamemode) c =
      then_state (on_room_start gamemode c)
        (if get_or c.settings 0 0 == 0 then State.select else State.team_select)
  on_main_event _ c = (some State.main, c)

  module _ (k : Link W) where
    -- read(event), and what to do with the event.
    unfoldable pub with_event :
        State → (RoomEvent → RoomClient W → Result W) → RoomClient W → Result W
    with_event idle handle c =
        let (r, w) = k.read c.socket in
        let c' = record c { socket = w } in
        elim r [
          | ReadEvent.broken ↦ (none, c')
          | ReadEvent.nothing ↦ (some idle, c')
          | ReadEvent.event e ↦ handle e c'
        ]

    unfoldable pub calc_connect : RoomClient W → Result W
    calc_connect c = (some (if k.ready c.socket then State.setup else State.connect), c)

    unfoldable pub calc_team_select : RoomClient W → Result W
    unfolding on_team_event
    calc_team_select c = with_event State.team_select on_team_event c

    unfoldable pub calc_select : RoomClient W → Result W
    unfolding on_select_event
    calc_select c = with_event State.select on_select_event c

    module _ (l : Local) where
      unfoldable pub on_setup_event : RoomEvent → RoomClient W → Result W
      on_setup_event (RoomEvent.join mii location latitude longitude color) c =
          on_join_event mii location latitude longitude color State.setup c
      on_setup_event (RoomEvent.settings settings) c =
          let own = tabulate settings_count 0 l.setting in
          if c.player_count == 0
          then (some State.main, call (Call.on_settings_change own) (record c { settings = own }))
          else if settings_below settings value_counts
          then (
            some State.main,
            call (Call.on_settings_change settings) (record c { settings = settings }),
          )
          else (none, c)
      on_setup_event _ c = (none, c)

      unfoldable pub calc_setup : RoomClient W → Result W
      calc_setup c = with_event State.setup on_setup_event c

      unfoldable pub flush_settings : RoomClient W → RoomClient W
      flush_settings c =
          let c' = if is_player_local c 0 then write_settings k l c else c in
          if c.local_settings_changed then record c' { local_settings_changed = false } else c

      unfoldable pub calc_main : RoomClient W → Result W
      calc_main c = with_event State.main on_main_event (flush_settings c)

      -- The switch of `resolve`.
      unfoldable pub resolve_in : State → RoomClient W → Result W
      resolve_in State.connect c = calc_connect c
      resolve_in State.setup c = calc_setup c
      resolve_in State.main c = calc_main c
      resolve_in State.team_select c = calc_team_select c
      resolve_in State.select c = calc_select c
      resolve_in State.race c = (some State.race, c)

      unfoldable pub resolve : RoomClient W → Result W
      resolve c = resolve_in c.state c

      -- The loop of onMain: local players i .. i + rounds - 1 join. The ids stand in an array of 2.
      unfoldable pub join_locals : ℕ → ℕ → RoomClient W → Bool × RoomClient W
      join_locals zero i c = (true, c)
      join_locals (suc rounds) i c =
          let (joined, c') =
            on_player_join (l.mii i) l.location l.latitude l.longitude l.region_line_color
              (record c { local_player_ids = set c.local_player_ids i c.player_count }) in
          let rest = join_locals rounds (i + 1) c' in if joined then rest else (false, c')

      unfoldable pub on_enter : State → RoomClient W → Bool × RoomClient W
      on_enter State.connect c = (true, c)
      on_enter State.setup c = (true, write_join k l (call Call.on_setup c))
      on_enter State.main c = join_locals c.local_player_count 0 (call Call.on_main c)
      on_enter State.team_select c = (true, call Call.on_team_select c)
      on_enter State.select c = (true, call Call.on_select c)
      on_enter State.race c = (true, c)

      abbrev pub same_state : State → State → Bool
      same_state State.connect State.connect = true
      same_state State.setup State.setup = true
      same_state State.main State.main = true
      same_state State.team_select State.team_select = true
      same_state State.select State.select = true
      same_state State.race State.race = true
      same_state _ _ = false

      pub transition : State → RoomClient W → Bool × RoomClient W
      transition state c =
          let (result, c') = on_enter state c in
          if same_state state c.state then (true, c) else (result, record c' { state = state })

      -- if (auto state = resolve(handler)) { if (!transition(handler, *state)) return false; } ...
      pub advance : RoomClient W → Bool × RoomClient W
      advance c =
          let (state, c') = resolve c in
          elim state [ none ↦ (false, c') | some state' ↦ transition state' c' ]

      poll_and_advance : Bool × RoomClient W → Bool × RoomClient W
      poll_and_advance (false, c) = (false, c)
      poll_and_advance (true, c) =
          let (ok, w) = k.poll c.socket in
          let c' = record c { socket = w } in if ok then advance c' else (false, c')

      pub calc : RoomClient W → Bool × RoomClient W
      unfolding poll_and_advance
      calc c = elim c.error_code [
        | some code ↦ (true, if c.reported_error then c else call (Call.on_error code) c)
        | none ↦ poll_and_advance (advance c)
      ]
