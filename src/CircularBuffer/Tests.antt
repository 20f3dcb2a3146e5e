-- ===== src/CircularBuffer/Tests.antt =====
-- Runs of CircularBuffer.hh on three cells, and the theorems about it at those buffers.
use mkw_sp.Base.{
  ℕ, zero, suc, ◌<◌, ◌≡◌, ◌⊎◌, arith, refl, List, [], ◌∷◌, none, some, true, false, length,
  get_elem?,
}
use mkw_sp.CircularBuffer.{
  CircularBuffer, front, back, load, slot, push_back, pop_front, remove, remove_loop, shift, reset,
}
use mkw_sp.CircularBuffer.Refine.{Holds, push_back_refines, pop_front-Holds}
use mkw_sp.CircularBuffer.Remove.{remove-Holds, reset-Holds}

-- 8, then 9, round the end of the storage
abbrev wrapped : CircularBuffer ℕ
wrapped = record { vals = some 9 ∷ none ∷ some 8 ∷ []; front_idx = 2; count = 2 }

abbrev test_queue : List ℕ
test_queue = 8 ∷ 9 ∷ []

wrapped-elem : (i : ℕ) → i < 2 → load 3 wrapped (slot 3 wrapped i) ≡ get_elem? test_queue i
wrapped-elem zero h = refl
wrapped-elem (suc zero) h = refl
wrapped-elem (suc (suc i)) h = absurd (omega arith)

wrapped-Holds : Holds 3 wrapped test_queue
wrapped-Holds = record {
  valid = record {
    storage = refl;
    small = omega arith;
    front_in = omega arith;
    count_in = omega arith;
  };
  count_eq = refl;
  elem = wrapped-elem;
}

front-wrapped : front 3 wrapped ≡ some 2
unfolding front
front-wrapped = refl

back-wrapped : back 3 wrapped ≡ some 0
unfolding back
back-wrapped = refl

remove-wrapped :
    remove 3 wrapped 0 ≡ record { vals = some 9 ∷ none ∷ some 9 ∷ []; front_idx = 2; count = 1 }
unfolding remove remove_loop shift
remove-wrapped = refl

push_back_refines_example :
    let (done, b') = push_back 3 wrapped 7 in
    ((2 < 3) × (done ≡ true) × Holds 3 b' (8 ∷ 9 ∷ 7 ∷ []))
    ⊎ ((length test_queue ≡ 3) × (done ≡ false) × (b' ≡ wrapped))
push_back_refines_example = push_back_refines wrapped-Holds 7

pop_front-Holds_example : Holds 3 (pop_front 3 wrapped) (9 ∷ [])
pop_front-Holds_example = pop_front-Holds wrapped-Holds 8 (9 ∷ []) refl

remove-Holds_example : Holds 3 (remove 3 wrapped 0) (9 ∷ [])
remove-Holds_example = remove-Holds wrapped-Holds 0 (omega arith)

reset-Holds_example : Holds 3 (reset 3 wrapped) []
reset-Holds_example = reset-Holds wrapped-Holds
