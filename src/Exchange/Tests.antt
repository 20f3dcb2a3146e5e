-- ===== src/Exchange/Tests.antt =====
-- Two calls of each side, the left one first.
use mkw_sp.Base.{ℕ, ◌+◌, some, none, refl}
use mkw_sp.Exchange.{Pc, Exchange, Step, Reachable, enter, resume, retest}
use mkw_sp.Exchange.Paired.{Paired, reachable-Paired}

abbrev left_values : ℕ → ℕ
left_values i = 10 + i

abbrev right_values : ℕ → ℕ
right_values i = 20 + i

-- The left side has returned once and waits again before the right one, which took 10 and woke it,
-- made its test.
abbrev ahead : Exchange ℕ ℕ
ahead = record {
  left = record { slot = some 11; pc = Pc.waits; returned = 1 };
  right = record { slot = none; pc = Pc.released 10; returned = 0 };
}

ahead-Reachable : Reachable left_values right_values ahead
unfolding enter retest resume
ahead-Reachable =
    Reachable.after
      (Reachable.after
        (Reachable.after
          (Reachable.after (Reachable.after Reachable.fresh (Step.left_enter refl))
            (Step.right_enter refl))
          (Step.left_return refl))
        (Step.left_enter refl))
      (Step.right_retest refl)

reachable-Paired_example : Paired left_values right_values ahead
reachable-Paired_example = reachable-Paired left_values right_values ahead ahead-Reachable
