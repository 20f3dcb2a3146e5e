-- ===== src/Room/Requests.antt =====
-- RoomClient.cc: the requests that a client writes, and handleError.
use mkw_sp.Base.{
  ℕ, zero, suc, ◌+◌, List, [], ◌∷◌, Option, none, some, true, false, if◌then◌else◌, ◌%◌, get_elem?,
  set,
}
use mkw_sp.Room.Types.{Properties, RoomClient, RoomRequest, Link, Local, settings_count}

-- f 0, f 1, ..., f (n - 1)
abbrev pub tabulate {ℓ} : {A : Type ℓ} → ℕ → ℕ → (ℕ → A) → List A
tabulate zero i f = []
tabulate (suc n) i f = f i ∷ tabulate n (i + 1) f

module _ {W : Type 0} where
  -- An error that is reported after another one is dropped.
  unfoldable pub handle_error : ℕ → RoomClient W → RoomClient W
  handle_error code c = elim c.error_code [
    | some _ ↦ c
    | none ↦ record c { error_code = some code; reported_error = false }
  ]

  module _ (k : Link W) where
    unfoldable pub write : RoomRequest → RoomClient W → RoomClient W
    unfolding handle_error
    write request c =
        let (ok, w) = k.write request c.socket in
        let c' = record c { socket = w } in if ok then c' else handle_error 30003 c'

    pub write_comment : ℕ → RoomClient W → RoomClient W
    write_comment message_id c = write (RoomRequest.comment message_id) c

    pub write_start : ℕ → RoomClient W → RoomClient W
    write_start gamemode c = write (RoomRequest.start gamemode) c

    pub write_team_select : ℕ → ℕ → RoomClient W → RoomClient W
    write_team_select player_id team_id c = write (RoomRequest.team_select player_id team_id) c

    pub write_vote : ℕ → Option Properties → RoomClient W → RoomClient W
    write_vote course properties c = write (RoomRequest.vote course properties) c

    pub send_comment : ℕ → RoomClient W → RoomClient W
    send_comment comment_id c = write_comment comment_id c

    pub start_room : ℕ → RoomClient W → RoomClient W
    start_room gamemode c = write_start gamemode c

    -- `none`: the source reads outside the array of players.
    pub send_team_select : ℕ → RoomClient W → Option (RoomClient W)
    send_team_select player_id c = elim (get_elem? c.players player_id) [
      | none ↦ none
      | some player ↦
          let team = (player.team_id + 1) % 6 in
          some (
            write_team_select player_id team
              (record c { players = set c.players player_id (record player { team_id = team }) }))
    ]

    pub send_vote : ℕ → Option Properties → RoomClient W → RoomClient W
    send_vote course properties c = write_vote course properties c

    module _ (l : Local) where
      unfoldable pub write_join : RoomClient W → RoomClient W
      write_join c =
          write
            (RoomRequest.join (tabulate c.local_player_count 0 l.mii) c.login_info l.location
              l.latitude l.longitude l.region_line_color (tabulate settings_count 0 l.setting))
            (record c { local_settings_changed = false })

      unfoldable pub write_settings : RoomClient W → RoomClient W
      write_settings c = write (RoomRequest.settings (tabulate settings_count 0 l.setting)) c

  pub change_local_settings : RoomClient W → RoomClient W
  change_local_settings c = record c { local_settings_changed = true }
