-- ===== src/Net/AsyncListener/Port.antt =====
-- AsyncListener::poll: the search for a free port.
use mkw_sp.Base.{ℕ, zero, suc, ◌+◌, ◌<◌, ◌≢◌, ◌≡◌, ◌∙◌, some, true, false, arith, ap, ltb, ◌==◌}
use mkw_sp.Base.Words.{u16}
use mkw_sp.Net.AsyncListener.{
  ListenPlatform, BindResult, AsyncListener, poll, poll_task, draw_port, on_any,
}

-- A listener and the network after a number of polls.
pub polls : (p : ListenPlatform) → ℕ → AsyncListener → p.World → AsyncListener × p.World
polls p zero s w = (s, w)
polls p (suc n) s w = polls p n (poll p s w).1 (poll p s w).2

-- A listener that looks for a free port and has drawn one.
abbrev pub searching : ℕ → ℕ → AsyncListener
searching port attempt = record {
  is_open = true;
  bind_task = some (record { port = 0; attempt = attempt; attempt_port = port });
}

module _ (p : ListenPlatform) (port : ℕ) (drawn : port ≢ 0)
    (busy : (w : p.World) → (p.bind port w).0 ≡ BindResult.in_use) where
  poll-busy :
      (attempt : ℕ) (w : p.World)
      → poll p (searching port attempt) w
        ≡ (ltb (u16 (attempt + 1)) 1024, searching port (u16 (attempt + 1)), (p.bind port w).1)
  unfolding poll poll_task draw_port on_any
  poll-busy attempt w = let kept : port == 0 ≡ false = ground (arith, drawn) in rw (kept, busy w)

  polls-searching :
      (n attempt : ℕ) (w : p.World)
      → attempt + n < 1024
      → (polls p n (searching port attempt) w).0 ≡ searching port (attempt + n)
  unfolding polls
  polls-searching zero attempt w h = ap (searching port) (omega arith)
  polls-searching (suc n) attempt w h =
      ap (λ r. (polls p n r.1 r.2).0) (poll-busy attempt w)
      ∙ ap (λ k. (polls p n (searching port k) (p.bind port w).1).0) {y = attempt + 1} (omega arith)
      ∙ polls-searching n (attempt + 1) (p.bind port w).1 (omega arith)
      ∙ ap (searching port) (omega arith)

  -- Suppose that a listener that looks for a free port has drawn one that is in use. Then it stays
  -- with this port: after n further polls it has made n more attempts at the same port, and the next
  -- poll returns true just if it is not the attempt 1024, whatever other ports are free.
  pub polls-busy :
      (n attempt : ℕ) (w : p.World)
      → attempt + n < 1024
      → (let (s, v) = polls p n (searching port attempt) w in
          (s ≡ searching port (attempt + n)) × ((poll p s v).0 ≡ ltb (attempt + n + 1) 1024))
  polls-busy n attempt w h =
      let (s, v) = polls p n (searching port attempt) w in
      let same = polls-searching n attempt w h in
      (
        same,
        ap (λ x. (poll p x v).0) same
            ∙ ap (λ r. r.0) (poll-busy (attempt + n) v)
            ∙ ap (λ k. ltb k 1024) {y = attempt + n + 1} (omega arith),
      )
