-- ===== src/Race/Valid.antt =====
-- RaceClient::isFrameValid: which frames it accepts.
use mkw_sp.Base.{
  ℕ, zero, suc, ◌+◌, ◌≤◌, ◌<◌, ◌≡◌, ◌↔◌, ◌⊎◌, List, [], ◌∷◌, Option, none, some, true, false,
  length, get_or, get_elem?, arith, refl, subst,
}
use mkw_sp.Race.{
  Floats, PlayerFrame, RaceServerFrame, is_input_state_valid, is_vec3_valid, is_quat_valid,
  is_f32_valid, are_boosts_valid, is_player_valid, are_players_valid, are_times_later,
  is_frame_valid, is_outside,
}
use mathlib.Core.Option.{some-injective}
use native.Mathlib.Decide.{ℕ_discrete}

module _ (f : Floats) where
  -- A number that is not NaN and not outside of two bounds.
  pub record InRange (lo hi x : f.F32) : Type 0 where
    pub number : f.is_nan x ≡ false
    pub low : f.lt x lo ≡ false
    pub high : f.lt hi x ≡ false

  -- Within a bound on both sides of 0, in thousandths.
  abbrev Within : ℕ → f.F32 → Type 0
  Within bound = InRange (f.literal true bound) (f.literal false bound)

  -- The ranges of a player's fields.
  pub record IsPlayer (p : PlayerFrame f) : Type 0 where
    pub sticks : (p.input_state.stick_x ≤ 14) × (p.input_state.stick_y ≤ 14)
    pub trick : p.input_state.trick ≤ 4
    pub before_respawn : p.time_before_respawn ≤ 190
    pub in_respawn : p.time_in_respawn ≤ 140
    pub one_respawn : (p.time_before_respawn ≡ 0) ⊎ (p.time_in_respawn ≡ 0)
    pub boosts_count : length p.times_before_boost_end ≡ 3
    pub boosts : (i : ℕ) → get_or p.times_before_boost_end i 0 ≤ 180
    -- 1e6
    pub pos : Within 1000000000 p.pos.x × Within 1000000000 p.pos.y × Within 1000000000 p.pos.z
    -- 1.001
    pub main_rot :
        Within 1001 p.main_rot.x
        × Within 1001 p.main_rot.y
        × Within 1001 p.main_rot.z
        × Within 1001 p.main_rot.w
    -- From -20 to 120.
    pub internal_speed : InRange (f.literal true 20000) (f.literal false 120000) p.internal_speed

  -- What a frame must be to take the place of another one, if there is one.
  pub record Follows (player_count : ℕ) (old : Option (RaceServerFrame f)) (new : RaceServerFrame f)
      : Type 0 where
    pub later : (o : RaceServerFrame f) → old ≡ some o → o.time < new.time
    pub times_count : length new.player_times ≡ player_count
    pub players_count : length new.players ≡ player_count
    pub times :
        (o : RaceServerFrame f) (i : ℕ)
        → old ≡ some o
        → i < player_count
        → get_or o.player_times i 0 ≤ get_or new.player_times i 0
    pub each : (i : ℕ) (p : PlayerFrame f) → get_elem? new.players i ≡ some p → IsPlayer p

  boosts-le : (times : List ℕ) → are_boosts_valid f times ≡ true → (i : ℕ) → get_or times i 0 ≤ 180
  unfolding are_boosts_valid
  boosts-le [] h i = omega arith
  boosts-le (t ∷ times) h zero = ground arith
  boosts-le (t ∷ times) h (suc i) = boosts-le times (ground arith) i

  are_boosts_valid-of_le :
      (times : List ℕ) → ((i : ℕ) → get_or times i 0 ≤ 180) → are_boosts_valid f times ≡ true
  unfolding are_boosts_valid
  are_boosts_valid-of_le [] h = refl
  are_boosts_valid-of_le (t ∷ times) h =
      ground (arith, h 0, are_boosts_valid-of_le times (λ i. h (suc i)))

  is_outside-Within : (bound : ℕ) (x : f.F32) → is_outside f bound x ≡ false → Within bound x
  unfolding is_outside
  is_outside-Within bound x h = record {
    number = ground (arith, h);
    low = ground (arith, h);
    high = ground (arith, h);
  }

  is_outside-of_Within : (bound : ℕ) (x : f.F32) → Within bound x → is_outside f bound x ≡ false
  unfolding is_outside
  is_outside-of_Within bound x v = ground (arith, v.number, v.low, v.high)

  is_player_valid-IsPlayer : (p : PlayerFrame f) → is_player_valid f p ≡ true → IsPlayer p
  unfolding is_player_valid is_input_state_valid is_vec3_valid is_quat_valid is_f32_valid
  is_player_valid-IsPlayer p h = record {
    sticks = ground arith;
    trick = ground arith;
    before_respawn = ground arith;
    in_respawn = ground arith;
    one_respawn = ground arith;
    boosts_count = ground arith;
    boosts = λ i. boosts-le p.times_before_boost_end (ground arith) i;
    pos = (
      is_outside-Within _ p.pos.x (ground (arith, h)),
      is_outside-Within _ p.pos.y (ground (arith, h)),
      is_outside-Within _ p.pos.z (ground (arith, h)),
    );
    main_rot = (
      is_outside-Within _ p.main_rot.x (ground (arith, h)),
      is_outside-Within _ p.main_rot.y (ground (arith, h)),
      is_outside-Within _ p.main_rot.z (ground (arith, h)),
      is_outside-Within _ p.main_rot.w (ground (arith, h)),
    );
    internal_speed = record {
      number = ground (arith, h);
      low = ground (arith, h);
      high = ground (arith, h);
    };
  }

  is_player_valid-of_IsPlayer : (p : PlayerFrame f) → IsPlayer p → is_player_valid f p ≡ true
  unfolding is_player_valid is_input_state_valid is_vec3_valid is_quat_valid is_f32_valid
  is_player_valid-of_IsPlayer p v = ground (
    arith,
    v.sticks,
    v.trick,
    v.before_respawn,
    v.in_respawn,
    v.one_respawn,
    v.boosts_count,
    is_outside-of_Within _ p.pos.x v.pos.0,
    is_outside-of_Within _ p.pos.y v.pos.1,
    is_outside-of_Within _ p.pos.z v.pos.2,
    is_outside-of_Within _ p.main_rot.x v.main_rot.0,
    is_outside-of_Within _ p.main_rot.y v.main_rot.1,
    is_outside-of_Within _ p.main_rot.z v.main_rot.2,
    is_outside-of_Within _ p.main_rot.w v.main_rot.3,
    v.internal_speed.number,
    v.internal_speed.low,
    v.internal_speed.high,
    are_boosts_valid-of_le p.times_before_boost_end v.boosts,
  )

  are_players_valid-each :
      (players : List (PlayerFrame f)) (i : ℕ) (p : PlayerFrame f)
      → are_players_valid f players ≡ true
      → get_elem? players i ≡ some p
      → is_player_valid f p ≡ true
  unfolding are_players_valid
  are_players_valid-each [] i p h e = cc
  are_players_valid-each (q ∷ players) zero p h e = ground (arith, e)
  are_players_valid-each (q ∷ players) (suc i) p h e =
      are_players_valid-each players i p (ground arith) e

  are_players_valid-of_each :
      (players : List (PlayerFrame f))
      → ((i : ℕ) (p : PlayerFrame f) → get_elem? players i ≡ some p → is_player_valid f p ≡ true)
      → are_players_valid f players ≡ true
  unfolding are_players_valid
  are_players_valid-of_each [] h = refl
  are_players_valid-of_each (q ∷ players) h =
      ground (arith, h 0 q refl, are_players_valid-of_each players (λ i p e. h (suc i) p e))

  are_times_later-le :
      (rounds i j : ℕ) (new old : List ℕ)
      → are_times_later f rounds i new old ≡ true
      → i ≤ j
      → j < i + rounds
      → get_or old j 0 ≤ get_or new j 0
  unfolding are_times_later
  are_times_later-le zero i j new old h a b = absurd (omega arith)
  are_times_later-le (suc rounds) i j new old h a b = elim (ℕ_discrete i j) [
    | yes e ↦ rw (← e) (ground arith)
    | no ne ↦ are_times_later-le rounds (i + 1) j new old (ground arith) (omega arith) (omega arith)
  ]

  are_times_later-of_le :
      (rounds i : ℕ) (new old : List ℕ)
      → ((j : ℕ) → i ≤ j → j < i + rounds → get_or old j 0 ≤ get_or new j 0)
      → are_times_later f rounds i new old ≡ true
  unfolding are_times_later
  are_times_later-of_le zero i new old h = refl
  are_times_later-of_le (suc rounds) i new old h = ground (
    arith,
    h i (omega arith) (omega arith),
    are_times_later-of_le rounds (i + 1) new old (λ j a b. h j (omega arith) (omega arith)),
  )

  -- isFrameValid accepts exactly the frames with a time and a player for each of `player_count`,
  -- later than the old frame and with none of the times earlier, if there is an old frame, whose
  -- players all have sticks of at most 14, a trick of at most 4, at most 190 frames before and at
  -- most 140 in a respawn and not both, three boosts of at most 180, and floats that are not NaN:
  -- a position within 1e6, a rotation within 1.001 and a speed from -20 to 120.
  pub is_frame_valid_iff :
      (player_count : ℕ) (old : Option (RaceServerFrame f)) (new : RaceServerFrame f)
      → (is_frame_valid f player_count old new ≡ true) ↔ Follows player_count old new
  unfolding is_frame_valid
  is_frame_valid_iff n none new = (
    λ h. record {
      later = λ o e. cc;
      times_count = ground arith;
      players_count = ground arith;
      times = λ o i e. cc;
      each = λ i p e.
          is_player_valid-IsPlayer p (are_players_valid-each new.players i p (ground arith) e);
    },
    λ v. ground (
      arith,
      v.times_count,
      v.players_count,
      are_players_valid-of_each new.players (λ i p e. is_player_valid-of_IsPlayer p (v.each i p e)),
    ),
  )
  is_frame_valid_iff n (some o) new = (
    λ h. record {
      later = λ o' e. subst (λ x. x.time < new.time) (some-injective _ _ e) (ground arith);
      times_count = ground arith;
      players_count = ground arith;
      times = λ o' i e lt.
          subst (λ x. get_or x.player_times i 0 ≤ get_or new.player_times i 0)
            (some-injective _ _ e)
            (are_times_later-le (length new.players) 0 i new.player_times o.player_times
              (ground arith) (omega arith) (ground arith));
      each = λ i p e.
          is_player_valid-IsPlayer p (are_players_valid-each new.players i p (ground arith) e);
    },
    λ v. ground (
      arith,
      v.later o refl,
      v.times_count,
      v.players_count,
      are_players_valid-of_each new.players (λ i p e. is_player_valid-of_IsPlayer p (v.each i p e)),
      are_times_later-of_le (length new.players) 0 new.player_times o.player_times
          (λ j a b. v.times o j refl (rw (← v.players_count) (omega arith))),
    ),
  )
