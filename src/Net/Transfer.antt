-- ===== src/Net/Transfer.antt =====
-- AsyncSocket.cc: the parts of `poll` that move messages.
pub mod Framing
use mkw_sp.Base.{
  ◌+◌, ◌-◌, List, [], ◌∷◌, ◌++◌, Option, none, some, Bool, true, false, ltb, leb, ◌==◌, ◌&&◌,
  length, if◌then◌else◌,
}
use mkw_sp.Base.Words.{u16, sub32}
use mkw_sp.Bytes.{read16}
use mkw_sp.Net.{Platform}
use mkw_sp.Net.Task.{Task, Flow, go, ret, recv, send, new_task, queue_size, buffer_size}
use mkw_sp.Net.State.{AsyncSocket, Phase, ◌>=>◌}

-- push_back of a CircularBuffer of 32 elements
abbrev pub push_back : List Task → Task → Bool × List Task
push_back q t = if length q == queue_size then (false, q) else (true, q ++ t ∷ [])

abbrev pub back : List Task → Option Task
back [] = none
back (t ∷ []) = some t
back (t ∷ u ∷ q) = back (u ∷ q)

abbrev pub set_back : List Task → Task → List Task
set_back [] t' = []
set_back (t ∷ []) t' = t' ∷ []
set_back (t ∷ u ∷ q) t' = t ∷ set_back (u ∷ q) t'

abbrev pub is_complete : Task → Bool
is_complete t = t.offset == 2 + t.size

module _ (p : Platform) where
  open p use {World}

  -- if (m_initTask) return true
  unfoldable pub init_check : Phase p
  init_check s w = elim s.init_task [ none ↦ (go, s, w) | some _ ↦ (ret true, s, w) ]

  unfoldable pub write_phase : Phase p
  write_phase s w = elim s.write_queue [
    | [] ↦ (go, s, w)
    | t ∷ rest ↦
        let (ok, t', w') = send p t t.size w in
        if ok
        then (go, record s { write_queue = if t'.offset == t'.size then rest else t' ∷ rest }, w')
        else (ret false, record s { write_queue = t' ∷ rest }, w')
  ]

  unfoldable pub push_phase : Phase p
  push_phase s w =
      let pushed : Flow × AsyncSocket p × World =
        (go, record s { read_queue = (push_back s.read_queue new_task).1 }, w) in
      elim (back s.read_queue) [
        | none ↦ pushed
        | some t ↦ if is_complete t then pushed else (go, s, w)
      ]

  unfoldable pub on_size : Bool × Task × World → Bool × Task × World
  on_size (ok, t, w) =
      let size = read16 t.buffer 0 in
      if ok && t.offset == 2
      then (leb size (buffer_size - 2), record t { size = size }, w)
      else (ok, t, w)

  -- The first half of the reading: the two bytes that hold the size.
  unfoldable pub read_size : Task → World → Bool × Task × World
  read_size t w =
      let received = recv p t 2 w in if ltb t.offset 2 then on_size received else (true, t, w)

  -- The second half. `size - sizeof(u16)` is a size_t, which wraps.
  unfoldable pub read_body : Task → World → Bool × Task × World
  read_body t w =
      if leb 2 t.offset && ltb t.offset (sub32 t.size 2)
      then recv p t (u16 (2 + t.size)) w
      else (true, t, w)

  unfoldable pub read_task : Task → World → Bool × Task × World
  read_task t w =
      let (ok, t', w') = read_size t w in if ok then read_body t' w' else (false, t', w')

  unfoldable pub read_phase : Phase p
  read_phase s w = elim (back s.read_queue) [
    | none ↦ (go, s, w)
    | some t ↦
        let (ok, t', w') = read_task t w in
        (if ok then go else ret false, record s { read_queue = set_back s.read_queue t' }, w')
  ]

  unfoldable pub transfer : Phase p
  transfer = write_phase >=> push_phase >=> read_phase
