-- ===== src/CircularBuffer/Slots.antt =====
-- The index arithmetic of CircularBuffer.hh: which cells the elements of a buffer stand in.
use mkw_sp.Base.{ℕ, ◌+◌, ◌-◌, ◌%◌, ◌^◌, ◌≤◌, ◌<◌, ◌≡◌, ◌≢◌, ◌⊎◌, inl, inr, arith, length}
use mkw_sp.Base.Words.{add32}
use mkw_sp.CircularBuffer.{CircularBuffer, slot}
use native.Mathlib.Nat.{mod-eq_of_lt, mod-eq-sub-mod}
use native.Mathlib.Decide.{dec_lt}

-- The invariant of the fields: all cells are there, and no index leaves the storage.
pub record IsValid {ℓ} {A : Type ℓ} (n : ℕ) (b : CircularBuffer A) : Type ℓ where
  pub storage : length b.vals ≡ n
  pub small : n ≤ 2 ^ 31
  pub front_in : b.front_idx < n
  pub count_in : b.count ≤ n

pub mod-cases : (x n : ℕ) → x < n + n → ((x < n) × (x % n ≡ x)) ⊎ ((n ≤ x) × (x % n ≡ x - n))
mod-cases x n h = elim (dec_lt x n) [
  | yes p ↦ inl (p, mod-eq_of_lt p)
  | no p ↦ inr (
    omega arith,
    omega (
      arith,
      mod-eq-sub-mod {n = x} {m = n} (omega arith),
      mod-eq_of_lt {n = x - n} {m = n} (omega arith),
    ),
  )
]

module _ {ℓ} {A : Type ℓ} {n : ℕ} {b : CircularBuffer A} (v : IsValid n b) where
  pub slot-cases :
      (i : ℕ)
      → i ≤ n
      → ((b.front_idx + i < n) × (slot n b i ≡ b.front_idx + i))
        ⊎ ((n ≤ b.front_idx + i) × (slot n b i ≡ b.front_idx + i - n))
  slot-cases i h =
      let e : add32 b.front_idx i ≡ b.front_idx + i = omega (arith, v.small, v.front_in) in
      subst_sum e (mod-cases (b.front_idx + i) n (omega (arith, v.front_in)))
    where
      subst_sum :
          add32 b.front_idx i ≡ b.front_idx + i
          → ((b.front_idx + i < n) × ((b.front_idx + i) % n ≡ b.front_idx + i))
            ⊎ ((n ≤ b.front_idx + i) × ((b.front_idx + i) % n ≡ b.front_idx + i - n))
          → ((b.front_idx + i < n) × (slot n b i ≡ b.front_idx + i))
            ⊎ ((n ≤ b.front_idx + i) × (slot n b i ≡ b.front_idx + i - n))
      subst_sum e h = rw e h

  pub slot-lt : (i : ℕ) → i ≤ n → slot n b i < n
  slot-lt i h = omega (arith, slot-cases i h, v.front_in)

  -- Two elements never share a cell.
  pub slot-ne : (i j : ℕ) → i < n → j < n → i ≢ j → slot n b i ≢ slot n b j
  slot-ne i j hi hj ne =
      omega (arith, slot-cases i (omega arith), slot-cases j (omega arith), v.front_in)

  pub slot-zero : slot n b 0 ≡ b.front_idx
  slot-zero = omega (arith, slot-cases 0 (omega arith), v.front_in)
