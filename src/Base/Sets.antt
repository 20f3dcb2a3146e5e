-- ===== src/Base/Sets.antt =====
-- What a write to an array does to its other cells and its parts.
use Prim.Native.Nat.{ℕ, zero, suc, ◌≤◌, ◌<◌}
use mathlib.Core.Path.{◌≡◌, refl, ap, ◌∙◌}
use mathlib.Core.Logic.{◌≢◌}
use mathlib.Core.List.{List, [], ◌∷◌, ◌++◌}
use native.Mathlib.Omega.{arith}
use mkw_sp.Base.Lists.{length, get_or, set, take}

module _ {ℓ} {A : Type ℓ} where
  pub set-set_self : (xs : List A) (i : ℕ) (a b : A) → set (set xs i a) i b ≡ set xs i b
  set-set_self [] i a b = refl
  set-set_self (x ∷ xs) zero a b = refl
  set-set_self (x ∷ xs) (suc i) a b = ap (◌∷◌ x) (set-set_self xs i a b)

  pub set-set_comm :
      (xs : List A) (i j : ℕ) (a b : A) → i ≢ j → set (set xs i a) j b ≡ set (set xs j b) i a
  set-set_comm [] i j a b n = refl
  set-set_comm (x ∷ xs) zero zero a b n = absurd (n refl)
  set-set_comm (x ∷ xs) zero (suc j) a b n = refl
  set-set_comm (x ∷ xs) (suc i) zero a b n = refl
  set-set_comm (x ∷ xs) (suc i) (suc j) a b n =
      ap (◌∷◌ x) (set-set_comm xs i j a b (λ e. n (ap suc e)))

  pub set-get_or : (xs : List A) (i : ℕ) (d : A) → set xs i (get_or xs i d) ≡ xs
  set-get_or [] i d = refl
  set-get_or (x ∷ xs) zero d = refl
  set-get_or (x ∷ xs) (suc i) d = ap (◌∷◌ x) (set-get_or xs i d)

  -- A write just behind a prefix.
  pub take-set_next :
      (xs : List A) (n : ℕ) (v : A)
      → n < length xs
      → take (suc n) (set xs n v) ≡ take n xs ++ v ∷ []
  take-set_next [] n v h = absurd (omega arith)
  take-set_next (x ∷ xs) zero v h = refl
  take-set_next (x ∷ xs) (suc n) v h = ap (◌∷◌ x) (take-set_next xs n v (omega arith))

  -- Two arrays with the same first cells have the same prefix.
  pub take_ext :
      (n : ℕ) (xs ys : List A) (d : A)
      → n ≤ length xs
      → n ≤ length ys
      → ((j : ℕ) → j < n → get_or xs j d ≡ get_or ys j d)
      → take n xs ≡ take n ys
  take_ext zero xs ys d a b h = refl
  take_ext (suc n) [] ys d a b h = absurd (omega arith)
  take_ext (suc n) (x ∷ xs) [] d a b h = absurd (omega arith)
  take_ext (suc n) (x ∷ xs) (y ∷ ys) d a b h =
      ap (λ z. z ∷ take n xs) (h 0 (omega arith))
      ∙ ap (◌∷◌ y) (take_ext n xs ys d (omega arith) (omega arith) (λ j l. h (suc j) (omega arith)))
