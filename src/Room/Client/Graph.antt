-- ===== src/Room/Client/Graph.antt =====
-- RoomClient.cc: which states follow which.
use mkw_sp.Base.{
  ℕ, List, Option, some, none, true, false, Bool, inl, inr, Bool-cases, length, ◌==◌, get_or,
}
use mkw_sp.Room.Types.{RoomClient, RoomEvent, State, Link, Local, ReadEvent}
use mkw_sp.Room.Client.{
  Result, resolve, with_event, calc_connect, calc_setup, calc_main, calc_team_select, calc_select,
  on_setup_event, on_main_event, on_team_event, on_select_event, on_join_event, then_state,
  flush_settings, settings_below, mii_size, value_counts, lists_eq, resolve_in,
}

-- The edges of the state machine. There is none from `team_select` to `select`, and none to `race`.
pub data Edge : State → State → Type 0 where
  stay : (s : State) → Edge s s
  connected : Edge State.connect State.setup
  configured : Edge State.setup State.main
  started_teams : Edge State.main State.team_select
  started_ffa : Edge State.main State.select

-- A state, if there is one, is reached by an edge.
abbrev pub Follows : State → Option State → Type 0
Follows s none = Unit {0}
Follows s (some t) = Edge s t

module _ {W : Type 0} where
  Follows-then : (s t : State) (r : Bool × RoomClient W) → Edge s t → Follows s (then_state r t).0
  Follows-then s t (true, c) e = e
  Follows-then s t (false, c) e = tt

  Follows-join :
      (s : State) (mii : List ℕ) (a b d e : ℕ) (c : RoomClient W)
      → Follows s (on_join_event mii a b d e s c).0
  unfolding on_join_event
  Follows-join s mii a b d e c = elim (Bool-cases (length mii == mii_size)) [
    | inl y ↦ rw y (Follows-then s s _ (stay s))
    | inr n ↦ rw n tt
  ]

  main-Follows : (e : RoomEvent) (c : RoomClient W) → Follows State.main (on_main_event e c).0
  unfolding on_main_event
  main-Follows (RoomEvent.join mii a b d f) c = Follows-join State.main mii a b d f c
  main-Follows (RoomEvent.leave i) c = Follows-then _ _ _ (stay _)
  main-Follows (RoomEvent.comment i m) c = Follows-then _ _ _ (stay _)
  main-Follows (RoomEvent.settings s) c = elim (Bool-cases (settings_below s value_counts)) [
    | inr n ↦ rw n tt
    | inl y ↦ elim (Bool-cases (lists_eq s c.settings)) [
      | inl same ↦ rw (y, same) (stay _)
      | inr new ↦ rw (y, new) (stay _)
    ]
  ]
  main-Follows (RoomEvent.start m) c = elim (Bool-cases (get_or c.settings 0 0 == 0)) [
    | inl ffa ↦ rw ffa (Follows-then _ _ _ started_ffa)
    | inr teams ↦ rw teams (Follows-then _ _ _ started_teams)
  ]
  main-Follows (RoomEvent.team_select i t) c = stay _
  main-Follows (RoomEvent.select_pulse i) c = stay _
  main-Follows (RoomEvent.select_info i s) c = stay _
  main-Follows RoomEvent.other c = stay _

  team-Follows :
      (e : RoomEvent) (c : RoomClient W) → Follows State.team_select (on_team_event e c).0
  unfolding on_team_event
  team-Follows (RoomEvent.team_select i t) c = Follows-then _ _ _ (stay _)
  team-Follows _ c = stay _

  select-Follows : (e : RoomEvent) (c : RoomClient W) → Follows State.select (on_select_event e c).0
  unfolding on_select_event
  select-Follows (RoomEvent.select_pulse i) c = Follows-then _ _ _ (stay _)
  select-Follows (RoomEvent.select_info i s) c = Follows-then _ _ _ (stay _)
  select-Follows _ c = stay _

  module _ (k : Link W) where
    event-Follows :
        (s : State) (handle : RoomEvent → RoomClient W → Result W) (c : RoomClient W)
        → ((e : RoomEvent) (c : RoomClient W) → Follows s (handle e c).0)
        → Follows s (with_event k s handle c).0
    unfolding with_event
    event-Follows s handle c h = go (k.read c.socket).0
      where
        go :
            (r : ReadEvent)
            → Follows s
                (let c' = record c { socket = (k.read c.socket).1 } in
                  let out : Result W = elim r [
                    | ReadEvent.broken ↦ (none, c')
                    | ReadEvent.nothing ↦ (some s, c')
                    | ReadEvent.event e ↦ handle e c'
                  ] in
                  out).0
        go ReadEvent.broken = tt
        go ReadEvent.nothing = stay s
        go (ReadEvent.event e) = h e _

    module _ (l : Local) where
      setup-Follows :
          (e : RoomEvent) (c : RoomClient W) → Follows State.setup (on_setup_event k l e c).0
      unfolding on_setup_event
      setup-Follows (RoomEvent.join mii a b d f) c = Follows-join State.setup mii a b d f c
      setup-Follows (RoomEvent.settings s) c = elim (Bool-cases (c.player_count == 0)) [
        | inl host ↦ rw host configured
        | inr guest ↦ elim (Bool-cases (settings_below s value_counts)) [
          | inl y ↦ rw (guest, y) configured
          | inr n ↦ rw (guest, n) tt
        ]
      ]
      setup-Follows _ c = tt

      resolve_in-Follows : (s : State) (c : RoomClient W) → Follows s (resolve_in k l s c).0
      unfolding resolve_in calc_connect calc_setup calc_main calc_team_select calc_select
      resolve_in-Follows State.connect c = elim (Bool-cases (k.ready c.socket)) [
        | inl y ↦ rw y connected
        | inr n ↦ rw n (stay _)
      ]
      resolve_in-Follows State.setup c = event-Follows State.setup _ c setup-Follows
      resolve_in-Follows State.main c =
          event-Follows State.main _ (flush_settings k l c) main-Follows
      resolve_in-Follows State.team_select c = event-Follows State.team_select _ c team-Follows
      resolve_in-Follows State.select c = event-Follows State.select _ c select-Follows
      resolve_in-Follows State.race c = stay _

      -- The state that `resolve` asks for is the current one or follows it by an edge of the
      -- machine, whatever the client holds and whatever event it reads.
      pub resolve-Follows : (c : RoomClient W) → Follows c.state (resolve k l c).0
      unfolding resolve
      resolve-Follows c = resolve_in-Follows c.state c
