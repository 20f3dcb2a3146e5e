-- ===== src/Net/AsyncSocket/Stall.antt =====
-- AsyncSocket::poll: the guard of the second half of the reading, which stops four bytes early.
use mkw_sp.Base.{
  ℕ, zero, suc, ◌+◌, ◌≤◌, ◌<◌, ◌≡◌, ◌∙◌, List, [], ◌∷◌, some, true, false, arith, refl, ap, ltb,
}
use mkw_sp.Base.Words.{sub32}
use mkw_sp.Net.{Platform}
use mkw_sp.Net.Task.{Task, Flow, go, ret}
use mkw_sp.Net.State.{AsyncSocket, after}
use mkw_sp.Net.Transfer.{
  back, set_back, write_phase, push_phase, read_size, read_body, read_task, read_phase, transfer,
}
use mkw_sp.Net.AsyncSocket.Ready.{ready-poll, poll-ready, returned_lem}
use mkw_sp.Net.AsyncSocket.{poll, ready}

-- The size is known, one to four bytes of the message are missing.
pub record IsStuck (t : Task) : Type 0 where
  pub started : 2 ≤ t.offset
  pub sized : (2 ≤ t.size) × (t.size ≤ 1022)
  pub late : t.size ≤ t.offset + 2
  pub partial : t.offset < 2 + t.size

set_back_self : (q : List Task) (t : Task) → back q ≡ some t → set_back q t ≡ q
set_back_self [] t e = cc
set_back_self (x ∷ []) t e = cc
set_back_self (x ∷ y ∷ q) t e = ap (◌∷◌ x) (set_back_self (y ∷ q) t e)

-- A socket after a number of polls.
pub polls : (p : Platform) → ℕ → AsyncSocket p → p.World → AsyncSocket p
polls p zero s w = s
polls p (suc n) s w = polls p n (poll p s w).1 (poll p s w).2

module _ (p : Platform) (t : Task) (k : IsStuck t) where
  read_task-stuck : (w : p.World) → read_task p t w ≡ (true, t, w)
  unfolding read_task read_size read_body
  read_task-stuck w =
      let started : ltb t.offset 2 ≡ false = ground (arith, k.started) in
      let late : ltb t.offset (sub32 t.size 2) ≡ false =
        ground (arith, k.late, k.sized, k.started) in
      rw (started, late) (ground arith)

  read_phase-stuck :
      (s : AsyncSocket p) (w : p.World) → back s.read_queue ≡ some t → read_phase p s w ≡ (go, s, w)
  unfolding read_phase
  read_phase-stuck s w e = ground (arith, e, read_task-stuck w, set_back_self s.read_queue t e)

  push_phase-stuck :
      (s : AsyncSocket p) (w : p.World) → back s.read_queue ≡ some t → push_phase p s w ≡ (go, s, w)
  unfolding push_phase
  push_phase-stuck s w e = ground (arith, e, k.partial)

  write_phase-read_queue :
      (s : AsyncSocket p) (w : p.World) → (write_phase p s w).1.read_queue ≡ s.read_queue
  unfolding write_phase
  write_phase-read_queue s w = ground arith

  transfer-stuck :
      (s : AsyncSocket p) (w : p.World)
      → back s.read_queue ≡ some t
      → (transfer p s w).1.read_queue ≡ s.read_queue
  unfolding transfer
  transfer-stuck s w e = step (write_phase p s w) (write_phase-read_queue s w)
    where
      step :
          (r : Flow × AsyncSocket p × p.World)
          → r.1.read_queue ≡ s.read_queue
          → (after (after r (push_phase p)) (read_phase p)).1.read_queue ≡ s.read_queue
      step (ret b, s', w') q = q
      step (go, s', w') q =
          let e' : back s'.read_queue ≡ some t = ap back q ∙ e in
          rw (push_phase-stuck s' w' e', read_phase-stuck s' w' e') q

  poll-stuck :
      (s : AsyncSocket p) (w : p.World)
      → ready p s ≡ true
      → back s.read_queue ≡ some t
      → (poll p s w).1.read_queue ≡ s.read_queue
  poll-stuck s w r e =
      ap (λ x. x.1.read_queue) (poll-ready p s w r)
      ∙ ap (λ x. x.read_queue) (returned_lem p (transfer p s w))
      ∙ transfer-stuck s w e

  -- If one to four bytes are missing of the message at the back of the queue, whose size is known and
  -- is at least 2 and at most 1022, then no number of polls of a ready socket changes the queue of
  -- messages read, whatever the network delivers.
  pub polls-stuck :
      (n : ℕ) (s : AsyncSocket p) (w : p.World)
      → ready p s ≡ true
      → back s.read_queue ≡ some t
      → (polls p n s w).read_queue ≡ s.read_queue
  unfolding polls
  polls-stuck zero s w r e = refl
  polls-stuck (suc n) s w r e =
      let kept = poll-stuck s w r e in
      polls-stuck n (poll p s w).1 (poll p s w).2 (ready-poll p s w r) (ap back kept ∙ e) ∙ kept
