-- ===== src/CircularBuffer/Refine.antt =====
-- CircularBuffer.hh against the queue of its elements, oldest first.
use mkw_sp.Base.{
  ℕ, suc, ◌-◌, ◌^◌, ◌≤◌, ◌<◌, ◌≡◌, ◌⊎◌, ◌∙◌, inl, inr, arith, refl, sym, ap, List, [], ◌∷◌, ◌++◌,
  none, some, true, false, ◌==◌, length, get_elem?, get_or, set, length-append, length-set,
  length-replicate, get_or-set_self, get_or-set_ne, get_elem?-append_left, get_elem?-append_length,
}
use mkw_sp.Base.Words.{add32, sub32}
use mkw_sp.CircularBuffer.{CircularBuffer, new, front, back, load, slot, push_back, pop_front}
use mkw_sp.CircularBuffer.Slots.{IsValid, slot-cases, slot-lt, slot-ne, slot-zero}
use native.Mathlib.Decide.{ℕ_discrete}

-- The buffer holds the elements of `xs` in order, from its front.
pub record Holds {ℓ} {A : Type ℓ} (n : ℕ) (b : CircularBuffer A) (xs : List A) : Type ℓ where
  pub valid : IsValid n b
  pub count_eq : b.count ≡ length xs
  pub elem : (i : ℕ) → i < length xs → load n b (slot n b i) ≡ get_elem? xs i

module _ {ℓ} {A : Type ℓ} (n : ℕ) where
  -- A new buffer holds nothing.
  pub new-Holds : 0 < n → n ≤ 2 ^ 31 → Holds n (new {A = A} n) []
  unfolding new
  new-Holds pos small = record {
    valid = record {
      storage = length-replicate n none;
      small = small;
      front_in = pos;
      count_in = omega arith;
    };
    count_eq = refl;
    elem = λ i h. absurd (omega arith);
  }

module _ {ℓ} {A : Type ℓ} {n : ℕ} {b : CircularBuffer A} {xs : List A} (h : Holds n b xs) where
  front-some : 0 < length xs → front n b ≡ some (slot n b 0)
  unfolding front
  front-some pos = ground (arith, h.count_eq, slot-zero h.valid)

  front-none : xs ≡ [] → front n b ≡ none
  unfolding front
  front-none e = ground (arith, h.count_eq, ap length e)

  back-some : 0 < length xs → back n b ≡ some (slot n b (length xs - 1))
  unfolding back
  back-some pos =
      let same : sub32 (add32 b.front_idx b.count) 1 ≡ add32 b.front_idx (length xs - 1) =
        omega (arith, h.count_eq, h.valid.small, h.valid.front_in, h.valid.count_in) in
      let filled : (b.count == 0) ≡ false = ground (arith, h.count_eq) in rw (filled, same)

  push_back-elem :
      (x : A)
      → length xs < n
      → (i : ℕ) → i < length (xs ++ x ∷ [])
      → get_or (set b.vals (slot n b b.count) (some x)) (slot n b i) none
        ≡ get_elem? (xs ++ x ∷ []) i
  push_back-elem x room i hi = elim (ℕ_discrete i (length xs)) [
    | yes e ↦
        rw (e, h.count_eq)
          (get_or-set_self b.vals (slot n b (length xs)) (some x) none
              (omega (arith, slot-lt h.valid (length xs) (omega arith), h.valid.storage))
            ∙ sym (get_elem?-append_length xs x))
    | no ne ↦
        let lt : i < length xs = omega (arith, length-append xs (x ∷ [])) in
        get_or-set_ne b.vals (slot n b b.count) (slot n b i) (some x) none (
          slot-ne h.valid b.count i (omega (arith, h.count_eq)) (omega arith)
            (omega (arith, h.count_eq)))
        ∙ h.elem i lt
        ∙ sym (get_elem?-append_left xs (x ∷ []) i lt)
  ]

  placed-Holds :
      (x : A)
      → length xs < n
      → Holds n
          (record b { vals = set b.vals (slot n b b.count) (some x); count = add32 b.count 1 })
          (xs ++ x ∷ [])
  placed-Holds x room = record {
    valid = record {
      storage = length-set b.vals _ (some x) ∙ h.valid.storage;
      small = h.valid.small;
      front_in = h.valid.front_in;
      count_in = omega (arith, h.count_eq, h.valid.small);
    };
    count_eq = omega (arith, h.count_eq, h.valid.small, length-append xs (x ∷ []));
    elem = push_back-elem x room;
  }

  -- On a valid buffer that holds a queue, `push_back` appends the value and returns true if fewer
  -- than N elements are there; with N elements it returns false and changes nothing.
  pub push_back_refines :
      (x : A)
      → let (done, b') = push_back n b x in
        ((length xs < n) × (done ≡ true) × Holds n b' (xs ++ x ∷ []))
        ⊎ ((length xs ≡ n) × (done ≡ false) × (b' ≡ b))
  unfolding push_back
  push_back_refines x = elim (ℕ_discrete b.count n) [
    | yes e ↦
        let f : (b.count == n) ≡ true = ground arith in
        rw f (inr (omega (arith, h.count_eq), refl, refl))
    | no ne ↦
        let f : (b.count == n) ≡ false = ground arith in
        let room : length xs < n = omega (arith, h.count_eq, h.valid.count_in) in
        rw f (inl (room, refl, placed-Holds x room))
  ]

  popped-IsValid : 0 < length xs → IsValid n (pop_front n b)
  unfolding pop_front
  popped-IsValid pos = record {
    storage = length-set b.vals _ none ∙ h.valid.storage;
    small = h.valid.small;
    front_in = omega (arith, h.valid.front_in);
    count_in = omega (arith, h.valid.small, h.valid.count_in, h.count_eq);
  }

  -- Element i of the shorter queue stands where element i + 1 stood.
  slot-pop_front : (i : ℕ) → i < length xs → slot n (pop_front n b) i ≡ slot n b (suc i)
  unfolding pop_front
  slot-pop_front i hi = omega (
    arith,
    slot-cases (popped-IsValid (omega arith)) i (omega (arith, h.count_eq, h.valid.count_in)),
    slot-cases h.valid (suc i) (omega (arith, h.count_eq, h.valid.count_in)),
    slot-cases h.valid 1 (omega (arith, h.valid.front_in)),
    h.valid.front_in,
  )

  -- If a valid buffer holds a queue that is not empty, `pop_front` leaves a valid buffer that holds
  -- the queue without its oldest element.
  pub pop_front-Holds : (x : A) (ys : List A) → xs ≡ x ∷ ys → Holds n (pop_front n b) ys
  pop_front-Holds x ys e = record {
    valid = popped-IsValid (omega (arith, ap length e));
    count_eq =
        unfold pop_front in omega (arith, h.valid.small, h.valid.count_in, h.count_eq, ap length e);
    elem = elems;
  }
    where
      elems :
          (i : ℕ)
          → i < length ys
          → load n (pop_front n b) (slot n (pop_front n b) i) ≡ get_elem? ys i
      elems i hi = rw (slot-pop_front i (omega (arith, ap length e))) (
          unfold pop_front in
          get_or-set_ne b.vals b.front_idx (slot n b (suc i)) none none (λ q.
            slot-ne h.valid 0 (suc i) (omega (arith, h.valid.front_in))
              (omega (arith, h.count_eq, h.valid.count_in, ap length e)) (omega arith)
              (slot-zero h.valid ∙ q))
          ∙ h.elem (suc i) (omega (arith, ap length e))
          ∙ ap (λ l. get_elem? l (suc i)) e)
