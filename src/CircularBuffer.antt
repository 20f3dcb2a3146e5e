-- ===== src/CircularBuffer.antt =====
-- payload/sp/CircularBuffer.hh. A cell of the storage holds a value or no live object.
pub mod Slots
pub mod Refine
pub mod Remove
mod Tests
use mkw_sp.Base.{
  ℕ, zero, suc, ◌+◌, ◌%◌, List, Option, none, some, Bool, true, false, ltb, ◌==◌, if◌then◌else◌,
  get_or, set, replicate,
}
use mkw_sp.Base.Words.{add32, sub32}

pub record CircularBuffer {ℓ} (A : Type ℓ) : Type ℓ where
  pub vals : List (Option A)
  pub front_idx : ℕ
  pub count : ℕ

-- `n` is the template parameter N.
module _ {ℓ} {A : Type ℓ} (n : ℕ) where
  pub new : CircularBuffer A
  new = record { vals = replicate n none; front_idx = 0; count = 0 }

  abbrev pub empty : CircularBuffer A → Bool
  empty b = b.count == 0

  abbrev pub full : CircularBuffer A → Bool
  full b = b.count == n

  -- (m_front + index) % N
  abbrev pub slot : CircularBuffer A → ℕ → ℕ
  slot b index = add32 b.front_idx index % n

  -- A `T *` into the storage is the index of its cell.
  pub front : CircularBuffer A → Option ℕ
  front b = if empty b then none else some b.front_idx

  pub back : CircularBuffer A → Option ℕ
  back b = if empty b then none else some (sub32 (add32 b.front_idx b.count) 1 % n)

  -- What a pointer to a cell reads.
  abbrev pub load : CircularBuffer A → ℕ → Option A
  load b p = get_or b.vals p none

  pub push_back : CircularBuffer A → A → Bool × CircularBuffer A
  push_back b v =
      if full b
      then (false, b)
      else (true, record b { vals = set b.vals (slot b b.count) (some v); count = add32 b.count 1 })

  pub pop_front : CircularBuffer A → CircularBuffer A
  pop_front b = record b {
    vals = set b.vals b.front_idx none;
    front_idx = add32 b.front_idx 1 % n;
    count = sub32 b.count 1;
  }

  pub contains_from : (A → A → Bool) → A → CircularBuffer A → ℕ → ℕ → Bool
  contains_from eq needle b zero i = false
  contains_from eq needle b (suc rounds) i =
      let rest = contains_from eq needle b rounds (i + 1) in
      elim (load b (slot b i)) [ none ↦ rest | some v ↦ if eq v needle then true else rest ]

  pub contains : (A → A → Bool) → A → CircularBuffer A → Bool
  unfolding contains_from
  contains eq needle b = contains_from eq needle b b.count 0

  -- The body of the loop of `remove`: cell `index` takes the value of the next one.
  pub shift : CircularBuffer A → ℕ → CircularBuffer A
  shift b index = record b { vals = set b.vals (slot b index) (load b (slot b (index + 1))) }

  pub remove_loop : ℕ → CircularBuffer A → ℕ → CircularBuffer A
  remove_loop zero b index = b
  remove_loop (suc fuel) b index =
      let rest = remove_loop fuel (shift b index) (index + 1) in
      if ltb index (sub32 b.count 1) then rest else b

  -- m_count rounds of fuel: `index` rises in each, below m_count - 1.
  pub remove : CircularBuffer A → ℕ → CircularBuffer A
  remove b index =
      let moved = remove_loop b.count (record b { vals = set b.vals (slot b index) none }) index in
      record moved { count = sub32 moved.count 1 }

  pub reset_loop : ℕ → CircularBuffer A → CircularBuffer A
  reset_loop zero b = b
  reset_loop (suc fuel) b = let rest = reset_loop fuel (pop_front b) in if empty b then b else rest

  pub reset : CircularBuffer A → CircularBuffer A
  reset b = reset_loop b.count b
