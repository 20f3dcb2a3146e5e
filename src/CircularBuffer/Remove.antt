-- ===== src/CircularBuffer/Remove.antt =====
-- CircularBuffer.hh: `remove`, `reset` and `contains` against the queue of the elements.
use mkw_sp.Base.{
  ℕ, zero, suc, ◌+◌, ◌-◌, ◌≤◌, ◌<◌, ◌≡◌, ◌≢◌, ◌∙◌, inl, inr, arith, refl, sym, ap, subst, List, [],
  ◌∷◌, none, some, Bool, true, false, ltb, ◌==◌, length, get_elem?, erase_idx, length-set,
  get_or-set_self, get_or-set_ne, length-erase_idx, get_elem?-erase_idx_ge, if◌then◌else◌,
  Bool-cases, ltb→lt, ltb→le, set, get_elem?-erase_idx_lt,
}
use mkw_sp.Base.Words.{sub32}
use mkw_sp.CircularBuffer.{
  CircularBuffer, load, slot, pop_front, shift, remove_loop, remove, reset_loop, reset,
  contains_from, contains,
}
use mkw_sp.CircularBuffer.Slots.{IsValid, slot-lt, slot-ne}
use mkw_sp.CircularBuffer.Refine.{Holds, pop_front-Holds}
use native.Mathlib.Decide.{ℕ_discrete}

-- How far the loop of `remove` has come: below `k` the shorter list, above `k` still the old one.
record Moved {ℓ} {A : Type ℓ} (n : ℕ) (xs : List A) (i k : ℕ) (b : CircularBuffer A) : Type ℓ where
  valid : IsValid n b
  count_eq : b.count ≡ length xs
  done : (j : ℕ) → j < k → load n b (slot n b j) ≡ get_elem? (erase_idx xs i) j
  todo : (j : ℕ) → k < j → j < length xs → load n b (slot n b j) ≡ get_elem? xs j

module _ {ℓ} {A : Type ℓ} {n : ℕ} (xs : List A) (i : ℕ) where
  shift-Moved :
      (k : ℕ) (b : CircularBuffer A)
      → i ≤ k
      → suc k < length xs
      → Moved n xs i k b
      → Moved n xs i (suc k) (shift n b k)
  unfolding shift
  shift-Moved k b ik hk m = record {
    valid = record {
      storage = length-set b.vals _ _ ∙ m.valid.storage;
      small = m.valid.small;
      front_in = m.valid.front_in;
      count_in = m.valid.count_in;
    };
    count_eq = m.count_eq;
    done = moved;
    todo = λ j kj hj.
        get_or-set_ne b.vals _ _ _ none (apart j (omega arith) hj) ∙ m.todo j (omega arith) hj;
  }
    where
      apart : (j : ℕ) → k ≢ j → j < length xs → slot n b k ≢ slot n b j
      apart j ne hj =
          slot-ne m.valid k j (omega (arith, m.count_eq, m.valid.count_in))
            (omega (arith, m.count_eq, m.valid.count_in)) ne

      here : (j : ℕ) → k ≡ j → load n (shift n b k) (slot n b j) ≡ get_elem? (erase_idx xs i) j
      here j e =
          subst (λ j. load n (shift n b k) (slot n b j) ≡ get_elem? (erase_idx xs i) j) e
            (get_or-set_self b.vals (slot n b k) _ none (
                omega (
                  arith,
                  slot-lt m.valid k (omega (arith, m.count_eq, m.valid.count_in)),
                  m.valid.storage,
                ))
              ∙ m.todo (k + 1) (omega arith) (omega arith)
              ∙ ap (get_elem? xs) (omega arith)
              ∙ sym (get_elem?-erase_idx_ge xs i k ik))

      moved : (j : ℕ) → j < suc k → load n (shift n b k) (slot n b j) ≡ get_elem? (erase_idx xs i) j
      moved j hj = elim (ℕ_discrete k j) [
        | yes e ↦ here j e
        | no ne ↦
            get_or-set_ne b.vals _ _ _ none (apart j ne (omega arith)) ∙ m.done j (omega arith)
      ]

  remove_loop-Moved :
      (fuel k : ℕ) (b : CircularBuffer A)
      → i ≤ k
      → k < length xs
      → length xs ≤ k + fuel
      → Moved n xs i k b
      → Moved n xs i (length xs - 1) (remove_loop n fuel b k)
  unfolding remove_loop
  remove_loop-Moved zero k b ik hk hf m = absurd (omega arith)
  remove_loop-Moved (suc fuel) k b ik hk hf m = elim (Bool-cases (ltb k (sub32 b.count 1))) [
    | inl more ↦
        let lt : suc k < length xs =
          omega (arith, ltb→lt _ _ more, m.count_eq, m.valid.count_in, m.valid.small) in
        rw more (
          remove_loop-Moved fuel (k + 1) (shift n b k) (omega arith) (omega arith) (omega arith)
            (subst (λ j. Moved n xs i j (shift n b k)) (omega arith) (shift-Moved k b ik lt m)))
    | inr stop ↦ rw stop (
        subst (λ j. Moved n xs i j b)
          (omega (arith, ltb→le _ _ stop, m.count_eq, m.valid.count_in, m.valid.small)) m)
  ]

module _ {ℓ} {A : Type ℓ} {n : ℕ} {b : CircularBuffer A} {xs : List A} (h : Holds n b xs) where
  cleared-Moved :
      (i : ℕ) → i < length xs → Moved n xs i i (record b { vals = set b.vals (slot n b i) none })
  cleared-Moved i hi = record {
    valid = record {
      storage = length-set b.vals _ none ∙ h.valid.storage;
      small = h.valid.small;
      front_in = h.valid.front_in;
      count_in = h.valid.count_in;
    };
    count_eq = h.count_eq;
    done = λ j hj.
        get_or-set_ne b.vals _ _ none none (apart j (omega arith) (omega arith))
        ∙ h.elem j (omega arith)
        ∙ sym (get_elem?-erase_idx_lt xs i j hj);
    todo = λ j kj hj. get_or-set_ne b.vals _ _ none none (apart j (omega arith) hj) ∙ h.elem j hj;
  }
    where
      apart : (j : ℕ) → i ≢ j → j < length xs → slot n b i ≢ slot n b j
      apart j ne hj =
          slot-ne h.valid i j (omega (arith, h.count_eq, h.valid.count_in))
            (omega (arith, h.count_eq, h.valid.count_in)) ne

  -- If a valid buffer holds a queue, `remove` at an index of it leaves a valid buffer that holds the
  -- queue without that element, the others in order.
  pub remove-Holds : (i : ℕ) → i < length xs → Holds n (remove n b i) (erase_idx xs i)
  unfolding remove
  remove-Holds i hi =
      let m =
        remove_loop-Moved xs i b.count i (record b { vals = set b.vals (slot n b i) none })
          (omega arith) hi (omega (arith, h.count_eq)) (cleared-Moved i hi) in
      record {
        valid = record {
          storage = m.valid.storage;
          small = m.valid.small;
          front_in = m.valid.front_in;
          count_in = omega (arith, m.count_eq, m.valid.count_in, m.valid.small);
        };
        count_eq =
            omega (arith, m.count_eq, m.valid.count_in, m.valid.small, length-erase_idx xs i);
        elem = λ j hj. m.done j (omega (arith, length-erase_idx xs i));
      }

reset_loop-Holds {ℓ} :
    {A : Type ℓ} {n : ℕ} (xs : List A) (fuel : ℕ) (b : CircularBuffer A)
    → length xs ≤ fuel
    → Holds n b xs
    → Holds n (reset_loop n fuel b) []
unfolding reset_loop
reset_loop-Holds [] zero b hf h = h
reset_loop-Holds [] (suc fuel) b hf h =
    let e : (b.count == 0) ≡ true = ground (arith, h.count_eq) in rw e h
reset_loop-Holds (x ∷ xs) zero b hf h = absurd (omega arith)
reset_loop-Holds {n} (x ∷ xs) (suc fuel) b hf h =
    let e : (b.count == 0) ≡ false = ground (arith, h.count_eq) in
    rw e (reset_loop-Holds xs fuel (pop_front n b) (omega arith) (pop_front-Holds h x xs refl))

-- If a valid buffer holds a queue, `reset` ends within a round for each element and leaves a valid
-- buffer that holds nothing.
pub reset-Holds {ℓ} :
    {A : Type ℓ} {n : ℕ} {b : CircularBuffer A} {xs : List A}
    → Holds n b xs
    → Holds n (reset n b) []
unfolding reset
reset-Holds {b} {xs} h = reset_loop-Holds xs b.count b (omega (arith, h.count_eq)) h

-- Whether an element of a list passes a test against the needle.
abbrev pub any_eq {ℓ} : {A : Type ℓ} → (A → A → Bool) → A → List A → Bool
any_eq eq needle [] = false
any_eq eq needle (x ∷ xs) = let rest = any_eq eq needle xs in if eq x needle then true else rest

contains_from-any_eq {ℓ} :
    {A : Type ℓ} (n : ℕ) (eq : A → A → Bool) (needle : A) (b : CircularBuffer A) (xs : List A)
    (i : ℕ)
    → ((j : ℕ) → j < length xs → load n b (slot n b (i + j)) ≡ get_elem? xs j)
    → contains_from n eq needle b (length xs) i ≡ any_eq eq needle xs
unfolding contains_from
contains_from-any_eq n eq needle b [] i h = refl
contains_from-any_eq n eq needle b (x ∷ xs) i h =
    let first : load n b (slot n b i) ≡ some x =
      ap (λ k. load n b (slot n b k)) (omega arith) ∙ h 0 (omega arith) in
    let rest =
      contains_from-any_eq n eq needle b xs (i + 1)
        (λ j hj. ap (λ k. load n b (slot n b k)) (omega arith) ∙ h (suc j) (omega arith)) in
    ground (arith, first, rest)

-- If a valid buffer holds a queue, `contains` says whether some element of it passes the equality
-- test with the needle.
pub contains-any_eq {ℓ} :
    {A : Type ℓ} {n : ℕ} {b : CircularBuffer A} {xs : List A} (eq : A → A → Bool) (needle : A)
    → Holds n b xs
    → contains n eq needle b ≡ any_eq eq needle xs
unfolding contains
contains-any_eq {n} {b} {xs} eq needle h = rw h.count_eq (
    contains_from-any_eq n eq needle b xs 0
      (λ j hj. ap (λ k. load n b (slot n b k)) (omega arith) ∙ h.elem j hj))
