-- ===== src/Net/Handshake.antt =====
-- AsyncSocket.cc: the parts of `poll` that connect and exchange keys.
use mkw_sp.Base.{none, some, Bool, true, false, ltb, ◌==◌, ◌&&◌, ◌||◌, not, if◌then◌else◌}
use mkw_sp.Net.{Platform, ConnectResult}
use mkw_sp.Net.Task.{go, ret, recv, send, packet1_bytes, packet2_bytes, packet3_bytes}
use mkw_sp.Net.State.{InitTask, Phase, ◌>=>◌}

module _ (p : Platform) where
  open p use {World, kx_xx_2, kx_xx_3, kx_xx_4}

  unfoldable pub connect_phase : Phase p
  connect_phase s w = elim s.connect_task [
    | none ↦ (go, s, w)
    | some address ↦
        let (r, w') = p.connect address w in
        elim r [
          | ConnectResult.in_progress ↦ (ret true, s, w')
          | ConnectResult.refused ↦ (ret false, s, w')
          | ConnectResult.connected ↦ (go, record s { connect_task = none }, w')
        ]
  ]

  -- A part of the key exchange, which runs if there is one and on the side that it is for.
  abbrev pub on_side : Bool → (InitTask p → Phase p) → Phase p
  on_side server f s w = elim s.init_task [
    | none ↦ (go, s, w)
    | some t ↦
        if t.is_server && server || not t.is_server && not server then f t s w else (go, s, w)
  ]

  unfoldable pub server_xx1 : InitTask p → Phase p
  server_xx1 t s w =
      let (ok, x, w') = recv p t.xx1 packet1_bytes w in
      let t' = record t { xx1 = x } in
      if ltb t.xx1.offset packet1_bytes
      then if not ok
        then (ret false, record s { init_task = some t' }, w')
        else if x.offset == packet1_bytes
        then elim (kx_xx_2 t.state t.keypair x.buffer) [
          | none ↦ (ret false, record s { init_task = some t' }, w')
          | some (state, xx2) ↦ (
            go,
            record s {
              init_task = some (record t' { state = state; xx2 = record t.xx2 { buffer = xx2 } });
            },
            w',
          )
        ]
        else (go, record s { init_task = some t' }, w')
      else (go, s, w)

  unfoldable pub server_xx2 : InitTask p → Phase p
  server_xx2 t s w =
      let (ok, x, w') = send p t.xx2 packet2_bytes w in
      if t.xx1.offset == packet1_bytes && ltb t.xx2.offset packet2_bytes
      then (if ok then go else ret false, record s { init_task = some (record t { xx2 = x }) }, w')
      else (go, s, w)

  unfoldable pub server_xx3 : InitTask p → Phase p
  server_xx3 t s w =
      let (ok, x, w') = recv p t.xx3 packet3_bytes w in
      let s' = record s { init_task = some (record t { xx3 = x }) } in
      if t.xx2.offset == packet2_bytes
      then if not ok
        then (ret false, s', w')
        else if x.offset == packet3_bytes
        then elim (kx_xx_4 t.state x.buffer) [
          | none ↦ (ret false, s', w')
          | some session ↦ (go, record s { init_task = none; session = session }, w')
        ]
        else (go, s', w')
      else (go, s, w)

  unfoldable pub client_xx1 : InitTask p → Phase p
  client_xx1 t s w =
      let (ok, x, w') = send p t.xx1 packet1_bytes w in
      if ltb t.xx1.offset packet1_bytes
      then (if ok then go else ret false, record s { init_task = some (record t { xx1 = x }) }, w')
      else (go, s, w)

  unfoldable pub client_xx2 : InitTask p → Phase p
  client_xx2 t s w =
      let (ok, x, w') = recv p t.xx2 packet2_bytes w in
      let t' = record t { xx2 = x } in
      if t.xx1.offset == packet1_bytes && ltb t.xx2.offset packet2_bytes
      then if not ok
        then (ret false, record s { init_task = some t' }, w')
        else if x.offset == packet2_bytes
        then elim (kx_xx_3 t.state t.keypair x.buffer) [
          | none ↦ (ret false, record s { init_task = some t' }, w')
          | some (state, session, xx3) ↦ (
            go,
            record s {
              init_task = some (record t' { state = state; xx3 = record t.xx3 { buffer = xx3 } });
              session = session;
            },
            w',
          )
        ]
        else (go, record s { init_task = some t' }, w')
      else (go, s, w)

  unfoldable pub client_xx3 : InitTask p → Phase p
  client_xx3 t s w =
      let (ok, x, w') = send p t.xx3 packet3_bytes w in
      let s' = record s { init_task = some (record t { xx3 = x }) } in
      if t.xx2.offset == packet2_bytes
      then if not ok
        then (ret false, s', w')
        else (go, if x.offset == packet3_bytes then record s { init_task = none } else s', w')
      else (go, s, w)

  unfoldable pub key_exchange : Phase p
  key_exchange =
      on_side true server_xx1
      >=> on_side true server_xx2
      >=> on_side true server_xx3
      >=> on_side false client_xx1
      >=> on_side false client_xx2
      >=> on_side false client_xx3
