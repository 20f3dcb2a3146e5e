-- ===== src/Room/Players/Leave.antt =====
-- RoomClient::onPlayerLeave: the array of players loses one, and the local ids follow.
use mkw_sp.Base.{
  ℕ, zero, suc, ◌+◌, ◌-◌, ◌≤◌, ◌<◌, ◌≡◌, ◌≢◌, List, [], ◌∷◌, Option, some, true, false, arith, refl,
  get_or, get_elem?, length, set, take, ltb, ap, if◌then◌else◌, length-set, ◌∙◌, ◌++◌, drop,
  length-take, leb, get_or-append_left, get_or-take, Bool-cases, inl, inr, ltb→lt,
}
use mkw_sp.Room.Types.{RoomClient, Player}
use mkw_sp.Room.Players.{shift_players, lower_ids, on_player_leave, has_id, is_player_local}

get_elem?-set_self :
    (xs : List Player) (i : ℕ) (v : Player) → i < length xs → get_elem? (set xs i v) i ≡ some v
get_elem?-set_self [] i v h = elim h [ ]
get_elem?-set_self (x ∷ xs) zero v h = refl
get_elem?-set_self (x ∷ xs) (suc i) v h = get_elem?-set_self xs i v (omega arith)

get_elem?-set_ne :
    (xs : List Player) (i j : ℕ) (v : Player) → i ≢ j → get_elem? (set xs i v) j ≡ get_elem? xs j
get_elem?-set_ne [] i j v h = refl
get_elem?-set_ne (x ∷ xs) zero zero v h = absurd (h refl)
get_elem?-set_ne (x ∷ xs) zero (suc j) v h = refl
get_elem?-set_ne (x ∷ xs) (suc i) zero v h = refl
get_elem?-set_ne (x ∷ xs) (suc i) (suc j) v h = get_elem?-set_ne xs i j v (λ e. h (ap suc e))

get_elem?-some :
    (xs : List Player) (i : ℕ) → i < length xs → (x : Player) × (get_elem? xs i ≡ some x)
get_elem?-some [] i h = elim h [ ]
get_elem?-some (x ∷ xs) zero h = (x, refl)
get_elem?-some (x ∷ xs) (suc i) h = get_elem?-some xs i (omega arith)

-- Below the gap nothing moves, from it on each place takes the player behind it.
shift_players-get :
    (rounds i j : ℕ) (players : List Player)
    → i + rounds < length players
    → j < i + rounds
    → get_elem? (shift_players rounds i players) j
      ≡ (if ltb j i then get_elem? players j else get_elem? players (j + 1))
unfolding shift_players
shift_players-get zero i j players h k = let t : ltb j i ≡ true = ground arith in rw t
shift_players-get (suc rounds) i j players h k =
    let (x, e) = get_elem?-some players (i + 1) (omega arith) in
    let len = length-set players i x in
    rw (e, shift_players)
      (shift_players-get rounds (i + 1) j (set players i x) (omega arith) (omega arith) ∙ place x e)
  where
    place :
        (x : Player)
        → get_elem? players (i + 1) ≡ some x
        → (if ltb j (i + 1)
            then get_elem? (set players i x) j
            else get_elem? (set players i x) (j + 1))
          ≡ (if ltb j i then get_elem? players j else get_elem? players (j + 1))
    place x e = ground (
      arith,
      e,
      get_elem?-set_self players i x,
      get_elem?-set_ne players i j x,
      get_elem?-set_ne players i (j + 1) x,
      ap (get_elem? players) {x = j + 1} {y = i + 1},
    )

get_or-lower_ids :
    (player_id : ℕ) (ids : List ℕ) (j : ℕ)
    → j < length ids
    → get_or (lower_ids player_id ids) j 0
      ≡ (if ltb player_id (get_or ids j 0) then get_or ids j 0 - 1 else get_or ids j 0)
get_or-lower_ids player_id [] j h = elim h [ ]
get_or-lower_ids player_id (i ∷ ids) zero h = refl
get_or-lower_ids player_id (i ∷ ids) (suc j) h = get_or-lower_ids player_id ids j (omega arith)

length-lower_ids : (player_id : ℕ) (ids : List ℕ) → length (lower_ids player_id ids) ≡ length ids
length-lower_ids player_id [] = refl
length-lower_ids player_id (i ∷ ids) = ap suc (length-lower_ids player_id ids)

has_id-ne :
    (ids : List ℕ) (player_id j : ℕ)
    → has_id ids player_id ≡ false
    → j < length ids
    → get_or ids j 0 ≢ player_id
has_id-ne [] player_id j f h = elim h [ ]
has_id-ne (i ∷ ids) player_id zero f h = ground arith
has_id-ne (i ∷ ids) player_id (suc j) f h = has_id-ne ids player_id j (ground arith) (omega arith)

-- The player that stands for the j-th local one.
abbrev pub local_player : {W : Type 0} → RoomClient W → ℕ → Option Player
local_player c j = get_elem? c.players (get_or c.local_player_ids j 0)

-- What holds after a player has left.
pub record HasLeft {W : Type 0} (player_id : ℕ) (c c' : RoomClient W) : Type 0 where
  pub one_less : c'.player_count + 1 ≡ c.player_count
  pub others :
      (j : ℕ)
      → j < c'.player_count
      → get_elem? c'.players j
        ≡ (if ltb j player_id then get_elem? c.players j else get_elem? c.players (j + 1))
  pub locals : (j : ℕ) → j < c.local_player_count → local_player c' j ≡ local_player c j

module _ {W : Type 0} (c : RoomClient W) (player_id : ℕ) where
  lowered_id :
      (j : ℕ)
      → c.local_player_count ≤ length c.local_player_ids
      → j < c.local_player_count
      → get_or
          (lower_ids player_id (take c.local_player_count c.local_player_ids)
            ++ drop c.local_player_count c.local_player_ids)
          j
          0
        ≡ (let i = get_or c.local_player_ids j 0 in if ltb player_id i then i - 1 else i)
  lowered_id j room h =
      let n = c.local_player_count in
      let ids = c.local_player_ids in
      let len : length (take n ids) ≡ n = omega (arith, length-take n ids) in
      get_or-append_left (lower_ids player_id (take n ids)) (drop n ids) j 0
        (omega (arith, length-lower_ids player_id (take n ids), len))
      ∙ get_or-lower_ids player_id (take n ids) j (omega (arith, len))
      ∙ ap (λ i. if ltb player_id i then i - 1 else i) (get_or-take n ids j 0 h)

  -- Suppose that the array has 12 places, that at most 12 are taken, that the local ids fit their
  -- array and are of players of the room, and that a player of the room is not local. Then
  -- onPlayerLeave for that player succeeds, the players behind it move up by one place in order, and
  -- each local player is still the one that its id names.
  pub on_player_leave-HasLeft :
      length c.players ≡ 12
      → c.player_count ≤ 12
      → c.local_player_count ≤ length c.local_player_ids
      → player_id < c.player_count
      → is_player_local c player_id ≡ false
      → ((j : ℕ) → j < c.local_player_count → get_or c.local_player_ids j 0 < c.player_count)
      → ((on_player_leave player_id c).0 ≡ true)
        × HasLeft player_id c (on_player_leave player_id c).1
  unfolding on_player_leave is_player_local
  on_player_leave-HasLeft len most room inside remote seated =
      let t : leb c.player_count player_id ≡ false = ground arith in
      rw (t, remote) (refl, record { one_less = omega arith; others = others; locals = locals })
    where
      count : ℕ
      count = c.player_count - 1

      others :
          (j : ℕ)
          → j < count
          → get_elem? (shift_players (count - player_id) player_id c.players) j
            ≡ (if ltb j player_id then get_elem? c.players j else get_elem? c.players (j + 1))
      others j h =
          shift_players-get (count - player_id) player_id j c.players (omega arith) (omega arith)

      moved :
          (i : ℕ)
          → i ≢ player_id
          → i < c.player_count
          → get_elem?
              (shift_players (count - player_id) player_id c.players)
              (if ltb player_id i then i - 1 else i)
            ≡ get_elem? c.players i
      moved i ne h = elim (Bool-cases (ltb player_id i)) [
        | inl behind ↦
            let t : ltb (i - 1) player_id ≡ false = ground arith in
            rw behind (
              others (i - 1) (ground arith)
              ∙ rw t (ap (get_elem? c.players) (omega (arith, ltb→lt _ _ behind))))
        | inr before ↦
            let t : ltb i player_id ≡ true = ground arith in
            rw before (others i (ground arith) ∙ rw t refl)
      ]

      locals :
          (j : ℕ)
          → j < c.local_player_count
          → get_elem? (shift_players (count - player_id) player_id c.players) (
              get_or
                (lower_ids player_id (take c.local_player_count c.local_player_ids)
                  ++ drop c.local_player_count c.local_player_ids)
                j
                0)
            ≡ local_player c j
      locals j h =
          let i = get_or c.local_player_ids j 0 in
          let taken = get_or-take c.local_player_count c.local_player_ids j 0 h in
          let ne : i ≢ player_id = λ e.
            has_id-ne (take c.local_player_count c.local_player_ids) player_id j remote
              (omega (arith, length-take c.local_player_count c.local_player_ids)) (taken ∙ e) in
          ap (get_elem? (shift_players (count - player_id) player_id c.players))
            (lowered_id j room h)
          ∙ moved i ne (seated j h)
