-- ===== src/Exchange/Paired.antt =====
-- Exchange.hh: whatever the interleaving, the two sides swap their values call by call.
use mathlib.Core.Option.{some-injective}
use mkw_sp.Base.{ℕ, ◌+◌, ◌≡◌, ◌⊎◌, inl, inr, none, some, refl, subst}
use mkw_sp.Exchange.{Pc, Side, Exchange, enter, retest, resume, Step, Reachable}

-- What the two sides can be between two steps, `me` being the one that came first or, where neither
-- waits, the one that returned first.
data Phase {T U : Type 0} (a : ℕ → T) (b : ℕ → U) : Side T U → Side U T → Type 0 where
  calm :
      (i : ℕ)
      → Phase a b
          (record { slot = none; pc = Pc.idle; returned = i })
          (record { slot = none; pc = Pc.idle; returned = i })
  first :
      (i : ℕ)
      → Phase a b
          (record { slot = some (a i); pc = Pc.waits; returned = i })
          (record { slot = none; pc = Pc.idle; returned = i })
  waking :
      (i : ℕ)
      → Phase a b
          (record { slot = none; pc = Pc.woken; returned = i })
          (record { slot = some (b i); pc = Pc.wakes (a i); returned = i })
  left_waking :
      (i : ℕ)
      → Phase a b
          (record { slot = none; pc = Pc.idle; returned = i + 1 })
          (record { slot = none; pc = Pc.wakes (a i); returned = i })
  ahead_waking :
      (i : ℕ)
      → Phase a b
          (record { slot = some (a (i + 1)); pc = Pc.waits; returned = i + 1 })
          (record { slot = none; pc = Pc.wakes (a i); returned = i })
  taken :
      (i : ℕ)
      → Phase a b
          (record { slot = none; pc = Pc.woken; returned = i })
          (record { slot = some (b i); pc = Pc.holds (a i); returned = i })
  given :
      (i : ℕ)
      → Phase a b
          (record { slot = none; pc = Pc.idle; returned = i + 1 })
          (record { slot = none; pc = Pc.released (a i); returned = i })
  again :
      (i : ℕ)
      → Phase a b
          (record { slot = some (a (i + 1)); pc = Pc.waits; returned = i + 1 })
          (record { slot = none; pc = Pc.released (a i); returned = i })

abbrev Phases : {T U : Type 0} → (ℕ → T) → (ℕ → U) → Side T U → Side U T → Type 0
Phases a b l r = Phase a b l r ⊎ Phase b a r l

flip :
    {T U : Type 0} {a : ℕ → T} {b : ℕ → U} {l : Side T U} {r : Side U T}
    → Phases a b l r
    → Phases b a r l
flip (inl p) = inr p
flip (inr p) = inl p

-- A side can return, or it will return after its test without a sleep.
abbrev pub Runs : {T U : Type 0} → Side T U → Side U T → Type 0
Runs {T = T} {U = U} me you =
    ((x : U × Side T U × Side U T) × (resume me you ≡ some x))
    ⊎ ((me' : Side T U) × (retest me ≡ some me')
        × (x : U × Side T U × Side U T) × (resume me' you ≡ some x))

-- The values that the next return of a side has, and that one of two sides can return.
pub record Paired {T U : Type 0} (a : ℕ → T) (b : ℕ → U) (s : Exchange T U) : Type 0 where
  pub left_value :
      (u : U) (l : Side T U) (r : Side U T)
      → resume s.left s.right ≡ some (u, l, r)
      → u ≡ b s.left.returned
  pub right_value :
      (t : T) (r : Side U T) (l : Side T U)
      → resume s.right s.left ≡ some (t, r, l)
      → t ≡ a s.right.returned
  pub runs :
      ¬ (s.left.pc ≡ Pc.idle) → ¬ (s.right.pc ≡ Pc.idle) → Runs s.left s.right ⊎ Runs s.right s.left

-- What a return gives, and the sides after it.
record Gives {T U : Type 0} (a : ℕ → T) (b : ℕ → U) (me : Side T U) (u : U) (me' : Side T U)
    (you' : Side U T) : Type 0 where
  value : u ≡ b me.returned
  phases : Phases a b me' you'

module _ {T U : Type 0} {a : ℕ → T} {b : ℕ → U} where
  me_enters :
      {me : Side T U} {you : Side U T}
      → Phase a b me you
      → me.pc ≡ Pc.idle
      → Phases a b (enter (a me.returned) me you).0 (enter (a me.returned) me you).1
  unfolding enter
  me_enters (Phase.calm i) e = inl (Phase.first i)
  me_enters (Phase.first i) e = cc
  me_enters (Phase.waking i) e = cc
  me_enters (Phase.left_waking i) e = inl (Phase.ahead_waking i)
  me_enters (Phase.ahead_waking i) e = cc
  me_enters (Phase.taken i) e = cc
  me_enters (Phase.given i) e = inl (Phase.again i)
  me_enters (Phase.again i) e = cc

  you_enters :
      {me : Side T U} {you : Side U T}
      → Phase a b me you
      → you.pc ≡ Pc.idle
      → Phases a b (enter (b you.returned) you me).1 (enter (b you.returned) you me).0
  unfolding enter
  you_enters (Phase.calm i) e = inr (Phase.first i)
  you_enters (Phase.first i) e = inl (Phase.waking i)
  you_enters (Phase.waking i) e = cc
  you_enters (Phase.left_waking i) e = cc
  you_enters (Phase.ahead_waking i) e = cc
  you_enters (Phase.taken i) e = cc
  you_enters (Phase.given i) e = cc
  you_enters (Phase.again i) e = cc

  me_retests :
      {me me' : Side T U} {you : Side U T}
      → Phase a b me you
      → retest me ≡ some me'
      → Phases a b me' you
  unfolding retest
  me_retests (Phase.calm i) e = cc
  me_retests (Phase.first i) e = cc
  me_retests (Phase.waking i) e = cc
  me_retests (Phase.left_waking i) e = cc
  me_retests (Phase.ahead_waking i) e = cc
  me_retests (Phase.taken i) e = cc
  me_retests (Phase.given i) e = cc
  me_retests (Phase.again i) e = cc

  you_retests :
      {me : Side T U} {you you' : Side U T}
      → Phase a b me you
      → retest you ≡ some you'
      → Phases a b me you'
  unfolding retest
  you_retests (Phase.calm i) e = cc
  you_retests (Phase.first i) e = cc
  you_retests {me = me} (Phase.waking i) e =
      subst (Phases a b _) (some-injective _ _ e) (inl (Phase.taken i))
  you_retests {me = me} (Phase.left_waking i) e =
      subst (Phases a b _) (some-injective _ _ e) (inl (Phase.given i))
  you_retests {me = me} (Phase.ahead_waking i) e =
      subst (Phases a b _) (some-injective _ _ e) (inl (Phase.again i))
  you_retests (Phase.taken i) e = cc
  you_retests (Phase.given i) e = cc
  you_retests (Phase.again i) e = cc

  gives :
      (me : Side T U) (x x' : U × Side T U × Side U T)
      → some x ≡ some x'
      → Gives a b me x.0 x.1 x.2
      → Gives a b me x'.0 x'.1 x'.2
  gives me x x' e g = subst (λ y. Gives a b me y.0 y.1 y.2) (some-injective _ _ e) g

  me_returns :
      {me : Side T U} {you : Side U T} (x : U × Side T U × Side U T)
      → Phase a b me you
      → resume me you ≡ some x
      → Gives a b me x.0 x.1 x.2
  unfolding resume
  me_returns x (Phase.calm i) e = cc
  me_returns x (Phase.first i) e = cc
  me_returns x (Phase.waking i) e =
      gives _ _ x e (record { value = refl; phases = inl (Phase.left_waking i) })
  me_returns x (Phase.left_waking i) e = cc
  me_returns x (Phase.ahead_waking i) e = cc
  me_returns x (Phase.taken i) e =
      gives _ _ x e (record { value = refl; phases = inl (Phase.given i) })
  me_returns x (Phase.given i) e = cc
  me_returns x (Phase.again i) e = cc

module _ {T U : Type 0} {a : ℕ → T} {b : ℕ → U} where
  you_returns :
      {me : Side T U} {you : Side U T} (x : T × Side U T × Side T U)
      → Phase a b me you
      → resume you me ≡ some x
      → Gives b a you x.0 x.1 x.2
  unfolding resume
  you_returns x (Phase.calm i) e = cc
  you_returns x (Phase.first i) e = cc
  you_returns x (Phase.waking i) e = cc
  you_returns x (Phase.left_waking i) e = cc
  you_returns x (Phase.ahead_waking i) e = cc
  you_returns x (Phase.taken i) e = cc
  you_returns x (Phase.given i) e =
      gives _ _ x e (record { value = refl; phases = inr (Phase.calm (i + 1)) })
  you_returns x (Phase.again i) e =
      gives _ _ x e (record { value = refl; phases = inr (Phase.first (i + 1)) })

module _ {T U : Type 0} {a : ℕ → T} {b : ℕ → U} where
  left-Gives :
      (l : Side T U) (r : Side U T) (x : U × Side T U × Side U T)
      → Phases a b l r
      → resume l r ≡ some x
      → Gives a b l x.0 x.1 x.2
  left-Gives l r x (inl p) e = me_returns x p e
  left-Gives l r x (inr p) e = you_returns x p e

  right-Gives :
      (l : Side T U) (r : Side U T) (x : T × Side U T × Side T U)
      → Phases a b l r
      → resume r l ≡ some x
      → Gives b a r x.0 x.1 x.2
  right-Gives l r x (inl p) e = you_returns x p e
  right-Gives l r x (inr p) e = me_returns x p e

  step-Phases :
      {s s' : Exchange T U}
      → Step a b s s'
      → Phases a b s.left s.right
      → Phases a b s'.left s'.right
  step-Phases (Step.left_enter e) (inl p) = me_enters p e
  step-Phases (Step.left_enter e) (inr p) = flip (you_enters p e)
  step-Phases (Step.right_enter e) (inl p) = you_enters p e
  step-Phases (Step.right_enter e) (inr p) = flip (me_enters p e)
  step-Phases (Step.left_retest e) (inl p) = me_retests p e
  step-Phases (Step.left_retest e) (inr p) = flip (you_retests p e)
  step-Phases (Step.right_retest e) (inl p) = you_retests p e
  step-Phases (Step.right_retest e) (inr p) = flip (me_retests p e)
  step-Phases (Step.left_return e) p = (left-Gives _ _ _ p e).phases
  step-Phases (Step.right_return e) p = flip ((right-Gives _ _ _ p e).phases)

  reachable-Phases : {s : Exchange T U} → Reachable a b s → Phases a b s.left s.right
  reachable-Phases Reachable.fresh = inl (Phase.calm 0)
  reachable-Phases (Reachable.after h step) = step-Phases step (reachable-Phases h)

  one_returns :
      {me : Side T U} {you : Side U T}
      → Phase a b me you
      → ¬ (me.pc ≡ Pc.idle)
      → ¬ (you.pc ≡ Pc.idle)
      → Runs me you ⊎ Runs you me
  unfolding resume retest
  one_returns (Phase.calm i) m y = absurd (m refl)
  one_returns (Phase.first i) m y = absurd (y refl)
  one_returns (Phase.waking i) m y = inl (inl (_, refl))
  one_returns (Phase.left_waking i) m y = absurd (m refl)
  one_returns (Phase.ahead_waking i) m y = inr (inr (_, refl, _, refl))
  one_returns (Phase.taken i) m y = inl (inl (_, refl))
  one_returns (Phase.given i) m y = absurd (m refl)
  one_returns (Phase.again i) m y = inr (inl (_, refl))

-- In every state that two threads reach that call `left` and `right` again and again: what a call
-- of one side returns is the value of the same call of the other side, counted from the start;
-- and if both sides are inside their methods, one of them can return, at once or after the test
-- that follows its OSWakeupThread, so they do not deadlock.
pub reachable-Paired :
    {T U : Type 0} (a : ℕ → T) (b : ℕ → U) (s : Exchange T U) → Reachable a b s → Paired a b s
reachable-Paired a b s h =
    let p = reachable-Phases h in
    record {
      left_value = λ u l r e. (left-Gives s.left s.right (u, l, r) p e).value;
      right_value = λ t r l e. (right-Gives s.left s.right (t, r, l) p e).value;
      runs = λ m y. elim p [
        | inl q ↦ one_returns q m y
        | inr q ↦ elim (one_returns q y m) [ inl x ↦ inr x | inr x ↦ inl x ]
      ];
    }
