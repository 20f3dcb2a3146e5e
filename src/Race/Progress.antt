-- ===== src/Race/Progress.antt =====
-- RaceClient::calcRead over a whole call: what its loop makes of the datagrams that wait.
use mkw_sp.Base.{
  ℕ, zero, suc, ◌+◌, ◌≤◌, ◌<◌, ◌^◌, ◌≡◌, List, [], ◌∷◌, Option, none, some, Bool, true, false,
  arith, refl, Bool-cases, Option-cases, length, ap, ◌∙◌, inl, inr, ◌||◌,
}
use mkw_sp.Base.Words.{u32}
use mkw_sp.Race.{
  Floats, RaceServerFrame, RaceClient, RaceLink, Received, is_frame_valid, on_frame, read_loop,
  start_countdown, calc_read,
}
use mkw_sp.Race.Valid.{Follows, is_frame_valid_iff}

abbrev pub is_some : {A : Type 0} → Option A → Bool
is_some none = false
is_some (some _) = true

module _ {f : Floats} where
  -- What becomes of the kept frame over a list of datagrams, those without a frame being none, and
  -- how many of the frames are accepted: a frame is accepted exactly if it may follow the kept one.
  pub data Chain (n : ℕ)
      : Option (RaceServerFrame f)
        → List (Option (RaceServerFrame f))
        → ℕ
        → Option (RaceServerFrame f)
        → Type 0 where
    done : {o : Option (RaceServerFrame f)} → Chain n o [] 0 o
    garbage :
        {o : Option (RaceServerFrame f)} {ds : List (Option (RaceServerFrame f))} {k : ℕ}
        {r : Option (RaceServerFrame f)}
        → Chain n o ds k r
        → Chain n o (none ∷ ds) k r
    refused :
        {o : Option (RaceServerFrame f)} {new : RaceServerFrame f}
        {ds : List (Option (RaceServerFrame f))} {k : ℕ} {r : Option (RaceServerFrame f)}
        → ¬ Follows f n o new
        → Chain n o ds k r
        → Chain n o (some new ∷ ds) k r
    accepted :
        {o : Option (RaceServerFrame f)} {new : RaceServerFrame f}
        {ds : List (Option (RaceServerFrame f))} {k : ℕ} {r : Option (RaceServerFrame f)}
        → Follows f n o new
        → Chain n (some new) ds k r
        → Chain n o (some new ∷ ds) (k + 1) r

  abbrev pub received : Option (RaceServerFrame f) → Received f
  received none = Received.garbage
  received (some new) = Received.frame new

  -- The datagrams that wait at a socket, and the socket after they are taken.
  pub data Waiting {U : Type 0} (link : RaceLink f U)
      : U → List (Option (RaceServerFrame f)) → U → Type 0 where
    empty : {u u' : U} → link.read u ≡ (Received.nothing, u') → Waiting link u [] u'
    more :
        {u u' u'' : U} {d : Option (RaceServerFrame f)} {ds : List (Option (RaceServerFrame f))}
        → link.read u ≡ (received d, u')
        → Waiting link u' ds u''
        → Waiting link u (d ∷ ds) u''

  -- Every accepted frame is later than the one before it.
  Chain-later :
      {n k : ℕ} {o r : Option (RaceServerFrame f)} {ds : List (Option (RaceServerFrame f))}
      → Chain n o ds k r
      → (a : RaceServerFrame f) → o ≡ some a
      → (b : RaceServerFrame f) × (r ≡ some b) × (a.time + k ≤ b.time)
  Chain-later Chain.done a e = (a, e, omega arith)
  Chain-later (Chain.garbage c) a e = Chain-later c a e
  Chain-later (Chain.refused denied c) a e = Chain-later c a e
  Chain-later (Chain.accepted {new = new} follows c) a e =
      let (b, same, le) = Chain-later c new refl in (b, same, omega (arith, follows.later a e))

  module _ {W U : Type 0} (link : RaceLink f U) where
    -- The client after a call that took `ds` and left the socket `u`.
    pub record Synced (c : RaceClient f W U) (ds : List (Option (RaceServerFrame f))) (u : U)
        (c' : RaceClient f W U) : Type 0 where
      pub count : ℕ
      pub chain : Chain c.room_client.player_count c.frame ds count c'.frame
      pub frame_count : c'.frame_count ≡ u32 (c.frame_count + count)
      pub room_client : c'.room_client ≡ c.room_client
      pub socket : c'.socket ≡ u

    taken : Option (RaceServerFrame f) → RaceClient f W U → RaceClient f W U
    taken none c = c
    taken (some new) c = on_frame f link new c

    read_loop-nothing :
        (fuel : ℕ) (c : RaceClient f W U) (u : U)
        → link.read c.socket ≡ (Received.nothing, u)
        → read_loop f link (suc fuel) c ≡ some (record c { socket = u })
    unfolding read_loop
    read_loop-nothing fuel c u e = rw (read_loop, ap (λ x. x.0) e, ap (λ x. x.1) e) refl

    read_loop-received :
        (fuel : ℕ) (c : RaceClient f W U) (u : U) (d : Option (RaceServerFrame f))
        → link.read c.socket ≡ (received d, u)
        → read_loop f link (suc fuel) c ≡ read_loop f link fuel (taken d (record c { socket = u }))
    unfolding read_loop taken
    read_loop-received fuel c u none e = rw (read_loop, ap (λ x. x.0) e, ap (λ x. x.1) e) refl
    read_loop-received fuel c u (some new) e = rw (read_loop, ap (λ x. x.0) e, ap (λ x. x.1) e) refl

    read_loop-Synced :
        (fuel : ℕ) (c : RaceClient f W U) (ds : List (Option (RaceServerFrame f))) (u : U)
        → Waiting link c.socket ds u
        → length ds < fuel
        → c.frame_count < 2 ^ 32
        → (c' : RaceClient f W U) × (read_loop f link fuel c ≡ some c')
          × Synced c ds u c'
          × (c'.can_start_countdown ≡ c.can_start_countdown)
    unfolding taken on_frame
    read_loop-Synced zero c ds u w lt b = absurd (omega arith)
    read_loop-Synced (suc fuel) c [] u (Waiting.empty e) lt b = (
      record c { socket = u },
      read_loop-nothing fuel c u e,
      record {
        count = 0;
        chain = Chain.done;
        frame_count = omega arith;
        room_client = refl;
        socket = refl;
      },
      refl,
    )
    read_loop-Synced (suc fuel) c (none ∷ ds) u (Waiting.more {u' = v} e w) lt b =
        let (c', runs, s, same) =
          read_loop-Synced fuel (record c { socket = v }) ds u w (omega arith) b in
        (
          c',
          read_loop-received fuel c v none e ∙ runs,
          record {
            count = s.count;
            chain = Chain.garbage s.chain;
            frame_count = s.frame_count;
            room_client = s.room_client;
            socket = s.socket;
          },
          same,
        )
    read_loop-Synced (suc fuel) c (some new ∷ ds) u (Waiting.more {u' = v} e w) lt b =
        elim (Bool-cases (is_frame_valid f c.room_client.player_count c.frame new)) [
          | inl y ↦
              let (c', runs, s, same) =
                read_loop-Synced fuel
                  (record c { socket = v; frame_count = u32 (c.frame_count + 1); frame = some new })
                  ds u w (omega arith) (omega arith) in
              (
                c',
                read_loop-received fuel c v (some new) e ∙ rw y runs,
                record {
                  count = s.count + 1;
                  chain = Chain.accepted ((is_frame_valid_iff f _ _ _).0 y) s.chain;
                  frame_count = omega (arith, s.frame_count);
                  room_client = s.room_client;
                  socket = s.socket;
                },
                same,
              )
          | inr n ↦
              let (c', runs, s, same) =
                read_loop-Synced fuel (record c { socket = v }) ds u w (omega arith) b in
              (
                c',
                read_loop-received fuel c v (some new) e ∙ rw n runs,
                record {
                  count = s.count;
                  chain = Chain.refused (λ v. cc ((is_frame_valid_iff f _ _ _).1 v)) s.chain;
                  frame_count = s.frame_count;
                  room_client = s.room_client;
                  socket = s.socket;
                },
                same,
              )
        ]

    start_countdown_lem :
        (c : RaceClient f W U)
        → start_countdown f link c
          ≡ record c { can_start_countdown = c.can_start_countdown || is_some c.frame }
    unfolding start_countdown
    start_countdown_lem c = elim (Option-cases c.frame) [
      | inl e ↦ ground (arith, e)
      | inr (x, e) ↦ ground (arith, e)
    ]

    -- With a frame count in range, and fuel for the datagrams that wait, calcRead takes all of them
    -- and returns. It keeps the last frame of the chain of those that may follow the kept frame and
    -- one another, counts the accepted ones, changes nothing of the room client, and allows the
    -- countdown once there is a frame. From one kept frame to another the time grows by at least the
    -- number of frames accepted.
    pub calc_read-Synced :
        (fuel : ℕ) (c : RaceClient f W U) (ds : List (Option (RaceServerFrame f))) (u : U)
        → Waiting link c.socket ds u
        → length ds < fuel
        → c.frame_count < 2 ^ 32
        → (c' : RaceClient f W U) × (calc_read f link fuel c ≡ some c')
          × (s : Synced c ds u c') × (c'.can_start_countdown
              ≡ (c.can_start_countdown || is_some c'.frame))
          × ((a : RaceServerFrame f)
              → c.frame ≡ some a
              → (b : RaceServerFrame f) × (c'.frame ≡ some b) × (a.time + s.count ≤ b.time))
    unfolding calc_read
    calc_read-Synced fuel c ds u w lt b =
        let (c', runs, s, same) = read_loop-Synced fuel c ds u w lt b in
        (
          record c' { can_start_countdown = c'.can_start_countdown || is_some c'.frame },
          rw (calc_read, runs) (ap some (start_countdown_lem c')),
          record {
            count = s.count;
            chain = s.chain;
            frame_count = s.frame_count;
            room_client = s.room_client;
            socket = s.socket;
          },
          ap (λ x. x || is_some c'.frame) same,
          λ a e. Chain-later s.chain a e,
        )
