-- ===== src/Exchange.antt =====
-- payload/sp/Exchange.hh: two threads that hand each other a value. Interrupts are off but where a
-- thread sleeps or wakes another one, which may then run before it, so what `left` or `right` does
-- between two such calls is one step.
pub mod Paired
mod Tests
use mkw_sp.Base.{ℕ, ◌+◌, Option, none, some, ◌≡◌}

-- Where a side is: outside its method; asleep or woken before it has taken a value; after it has
-- taken one, which it will return: in the call that wakes the other side, asleep, or with nothing
-- left but to return.
pub data Pc (U : Type 0) : Type 0 where
  idle waits woken : Pc U
  wakes holds released : U → Pc U

-- A side of the exchange: its optional (m_left, m_right), where it is, and how often it returned.
pub record Side (T U : Type 0) : Type 0 where
  pub slot : Option T
  pub pc : Pc U
  pub returned : ℕ

-- OSWakeupThread on the side's queue.
abbrev wake : {T U : Type 0} → Side T U → Side T U
wake s = record s {
  pc = elim s.pc [
    | idle ↦ Pc.idle
    | waits ↦ Pc.woken
    | woken ↦ Pc.woken
    | wakes u ↦ Pc.wakes u
    | holds u ↦ Pc.released u
    | released u ↦ Pc.released u
  ];
}

-- The method up to its first sleep, or into OSWakeupThread where it takes a value.
unfoldable pub enter : {T U : Type 0} → T → Side T U → Side U T → Side T U × Side U T
enter x me you = elim you.slot [
  | none ↦ (record me { slot = some x; pc = Pc.waits }, you)
  | some y ↦ (record me { slot = some x; pc = Pc.wakes y }, wake (record you { slot = none }))
]

-- What follows that OSWakeupThread: the side sleeps if its own optional is still set, which the
-- other side may have reset meanwhile. none if the side is not there.
unfoldable pub retest : {T U : Type 0} → Side T U → Option (Side T U)
retest me = elim me.pc [
  | idle ↦ none
  | waits ↦ none
  | woken ↦ none
  | wakes u ↦ elim me.slot [
    | some x ↦ some (record me { pc = Pc.holds u })
    | none ↦ some (record me { pc = Pc.released u })
  ]
  | holds u ↦ none
  | released u ↦ none
]

-- The method from a sleep to its return, with the value; none if the side is not woken, or if it
-- reads an empty optional. Behind its OSWakeupThread there is only the return.
unfoldable pub resume : {T U : Type 0} → Side T U → Side U T → Option (U × Side T U × Side U T)
resume me you = elim me.pc [
  | idle ↦ none
  | waits ↦ none
  | woken ↦ elim you.slot [
    | none ↦ none
    | some y ↦ some (
      y,
      record me { pc = Pc.idle; returned = me.returned + 1 },
      wake (record you { slot = none }),
    )
  ]
  | wakes u ↦ none
  | holds u ↦ none
  | released u ↦ some (u, record me { pc = Pc.idle; returned = me.returned + 1 }, you)
]

pub record Exchange (T U : Type 0) : Type 0 where
  pub left : Side T U
  pub right : Side U T

abbrev pub fresh_side : {T U : Type 0} → Side T U
fresh_side = record { slot = none; pc = Pc.idle; returned = 0 }

abbrev pub fresh_exchange : {T U : Type 0} → Exchange T U
fresh_exchange = record { left = fresh_side; right = fresh_side }

-- The steps of two threads that call `left` and `right` again and again, with a 0, a 1, … and with
-- b 0, b 1, …, in any interleaving.
pub data Step {T U : Type 0} (a : ℕ → T) (b : ℕ → U) : Exchange T U → Exchange T U → Type 0 where
  left_enter :
      {l : Side T U} {r : Side U T}
      → l.pc ≡ Pc.idle
      → Step a b
          (record { left = l; right = r })
          (record { left = (enter (a l.returned) l r).0; right = (enter (a l.returned) l r).1 })
  right_enter :
      {l : Side T U} {r : Side U T}
      → r.pc ≡ Pc.idle
      → Step a b
          (record { left = l; right = r })
          (record { left = (enter (b r.returned) r l).1; right = (enter (b r.returned) r l).0 })
  left_retest :
      {l l' : Side T U} {r : Side U T}
      → retest l ≡ some l'
      → Step a b (record { left = l; right = r }) (record { left = l'; right = r })
  right_retest :
      {l : Side T U} {r r' : Side U T}
      → retest r ≡ some r'
      → Step a b (record { left = l; right = r }) (record { left = l; right = r' })
  left_return :
      {l l' : Side T U} {r r' : Side U T} {u : U}
      → resume l r ≡ some (u, l', r')
      → Step a b (record { left = l; right = r }) (record { left = l'; right = r' })
  right_return :
      {l l' : Side T U} {r r' : Side U T} {t : T}
      → resume r l ≡ some (t, r', l')
      → Step a b (record { left = l; right = r }) (record { left = l'; right = r' })

-- The states that the threads can reach.
pub data Reachable {T U : Type 0} (a : ℕ → T) (b : ℕ → U) : Exchange T U → Type 0 where
  fresh : Reachable a b fresh_exchange
  after : {s s' : Exchange T U} → Reachable a b s → Step a b s s' → Reachable a b s'
