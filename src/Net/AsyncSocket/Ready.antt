-- ===== src/Net/AsyncSocket/Ready.antt =====
-- AsyncSocket::ready: once the key exchange is over, `poll` only moves messages.
use mkw_sp.Base.{◌≡◌, ◌∙◌, none, true, arith, refl, ap}
use mkw_sp.Net.{Platform}
use mkw_sp.Net.Task.{Flow, go, ret}
use mkw_sp.Net.State.{AsyncSocket, after}
use mkw_sp.Net.Handshake.{connect_phase, key_exchange}
use mkw_sp.Net.Transfer.{init_check, write_phase, push_phase, read_phase, transfer}
use mkw_sp.Net.AsyncSocket.{poll, ready, returned}

module _ (p : Platform) (s : AsyncSocket p) (w : p.World) where
  pub ready_parts :
      ready p s ≡ true → (s.is_open ≡ true) × (s.connect_task ≡ none) × (s.init_task ≡ none)
  unfolding ready
  ready_parts r = ground arith

  connect_phase-none : s.connect_task ≡ none → connect_phase p s w ≡ (go, s, w)
  unfolding connect_phase
  connect_phase-none e = ground arith

  key_exchange-none : s.init_task ≡ none → key_exchange p s w ≡ (go, s, w)
  unfolding key_exchange
  key_exchange-none e = rw e refl

  init_check-none : s.init_task ≡ none → init_check p s w ≡ (go, s, w)
  unfolding init_check
  init_check-none e = ground arith

  pub poll-ready : ready p s ≡ true → poll p s w ≡ returned p (transfer p s w)
  unfolding poll
  poll-ready r =
      let (o, c, i) = ready_parts r in
      simp (o, connect_phase-none c, key_exchange-none i, init_check-none i)

  write_phase-ready : ready p (write_phase p s w).1 ≡ ready p s
  unfolding ready write_phase
  write_phase-ready = ground arith

  push_phase-ready : ready p (push_phase p s w).1 ≡ ready p s
  unfolding ready push_phase
  push_phase-ready = ground arith

  read_phase-ready : ready p (read_phase p s w).1 ≡ ready p s
  unfolding ready read_phase
  read_phase-ready = ground arith

transfer-ready :
    (p : Platform) (s : AsyncSocket p) (w : p.World) → ready p (transfer p s w).1 ≡ ready p s
unfolding transfer
transfer-ready p s w = first (write_phase p s w) (write_phase-ready p s w)
  where
    second :
        (r : Flow × AsyncSocket p × p.World)
        → ready p r.1 ≡ ready p s
        → ready p (after r (read_phase p)).1 ≡ ready p s
    second (ret b, s', w') q = q
    second (go, s', w') q = read_phase-ready p s' w' ∙ q

    first :
        (r : Flow × AsyncSocket p × p.World)
        → ready p r.1 ≡ ready p s
        → ready p (after (after r (push_phase p)) (read_phase p)).1 ≡ ready p s
    first (ret b, s', w') q = q
    first (go, s', w') q = second (push_phase p s' w') (push_phase-ready p s' w' ∙ q)

pub returned_lem : (p : Platform) (r : Flow × AsyncSocket p × p.World) → (returned p r).1 ≡ r.1
returned_lem p (go, s, w) = refl
returned_lem p (ret b, s, w) = refl

-- A socket that is ready is still ready after a poll, whatever the poll returns.
pub ready-poll :
    (p : Platform) (s : AsyncSocket p) (w : p.World)
    → ready p s ≡ true
    → ready p (poll p s w).1 ≡ true
ready-poll p s w r =
    ap (λ x. ready p x.1) (poll-ready p s w r)
    ∙ ap (ready p) (returned_lem p (transfer p s w))
    ∙ transfer-ready p s w
    ∙ r
