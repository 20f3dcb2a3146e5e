-- ===== src/Room/Client/Errors.antt =====
-- RoomClient.cc: handleError, and what `calc` does with the error.
use mkw_sp.Base.{
  ℕ, zero, suc, ◌≡◌, ◌++◌, List, [], length, some, none, false, arith, refl, replicate, ◌∙◌, ◌∷◌,
  ap, length,
}
use mkw_sp.Room.Types.{RoomClient, Link, Local, Call, call}
use mkw_sp.Room.Requests.{handle_error}
use mkw_sp.Room.Client.{calc}

replicate_shift {ℓ} :
    {A : Type ℓ} (n : ℕ) (a : A) (xs : List A) → replicate n a ++ a ∷ xs ≡ a ∷ (replicate n a ++ xs)
replicate_shift zero a xs = refl
replicate_shift (suc n) a xs = ap (◌∷◌ a) (replicate_shift n a xs)

module _ {W : Type 0} where
  -- handleError for one error after the other.
  pub handle_errors : List ℕ → RoomClient W → RoomClient W
  handle_errors [] c = c
  handle_errors (code ∷ codes) c = handle_errors codes (handle_error code c)

  handle_error-kept :
      (c : RoomClient W) (code d : ℕ) → c.error_code ≡ some code → handle_error d c ≡ c
  unfolding handle_error
  handle_error-kept c code d e = ground (arith, e)

  handle_errors-kept :
      (codes : List ℕ) (c : RoomClient W) (code : ℕ)
      → c.error_code ≡ some code
      → handle_errors codes c ≡ c
  unfolding handle_errors
  handle_errors-kept [] c code e = refl
  handle_errors-kept (d ∷ codes) c code e =
      ap (handle_errors codes) (handle_error-kept c code d e) ∙ handle_errors-kept codes c code e

  module _ (k : Link W) (l : Local) where
    -- Some more rounds of errors, each followed by a `calc`.
    pub calcs : List (List ℕ) → RoomClient W → RoomClient W
    calcs [] c = c
    calcs (codes ∷ rounds) c = calcs rounds (calc k l (handle_errors codes c)).1

    calc-error :
        (c : RoomClient W) (code : ℕ)
        → c.error_code ≡ some code
        → c.reported_error ≡ false
        → (calc k l c).1 ≡ call (Call.on_error code) c
    unfolding calc
    calc-error c code e r = ground arith

    calcs-error :
        (rounds : List (List ℕ)) (c : RoomClient W) (code : ℕ)
        → c.error_code ≡ some code
        → c.reported_error ≡ false
        → calcs rounds c
          ≡ record c { calls = replicate (length rounds) (Call.on_error code) ++ c.calls }
    unfolding calcs
    calcs-error [] c code e r = refl
    calcs-error (codes ∷ rounds) c code e r = rw (handle_errors-kept codes c code e) (
        rw (calc-error c code e r) (
          calcs-error rounds (call (Call.on_error code) c) code e r
          ∙ ap (λ x. record c { calls = x })
              (replicate_shift (length rounds) (Call.on_error code) c.calls)))

    -- If handleError is called on a client without an error, and after it there are any rounds of
    -- further calls of handleError and one of `calc`, then each `calc` tells the handler of the
    -- first error again, the further errors are forgotten, and nothing else of the client changes.
    pub handle_error-calcs :
        (c : RoomClient W) (first : ℕ) (rounds : List (List ℕ))
        → c.error_code ≡ none
        → calcs rounds (handle_error first c) ≡ record c {
          error_code = some first;
          reported_error = false;
          calls = replicate (length rounds) (Call.on_error first) ++ c.calls;
        }
    unfolding handle_error
    handle_error-calcs c first rounds e = rw e (calcs-error rounds _ first refl refl)
