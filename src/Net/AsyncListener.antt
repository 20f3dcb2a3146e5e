-- ===== src/Net/AsyncListener.antt =====
-- payload/sp/net/AsyncListener.cc: `ready`, `poll` and `accept`.
pub mod Port
mod Tests
use mkw_sp.Base.{ℕ, ◌+◌, ◌%◌, ◌==◌, Option, none, some, Bool, true, false, ltb, not, if◌then◌else◌}
use mkw_sp.Base.Words.{u16}

-- The results of SOBind that poll tells apart.
pub data BindResult : Type 0 where
  -- SO_EINPROGRESS, SO_EALREADY
  in_progress : BindResult
  -- SO_EADDRINUSE
  in_use : BindResult
  bound : BindResult
  refused : BindResult

-- SOBind to a port, SOListen, SOAccept and hydro_random_uniform over a state of the network.
pub record ListenPlatform : Type 1 where
  pub World : Type 0
  pub Connection : Type 0
  pub bind : ℕ → World → BindResult × World
  -- true is the result 0
  pub listen : World → Bool × World
  -- `none` is a negative handle
  pub accept_next : World → Option Connection × World
  pub random_uniform : ℕ → World → ℕ × World

pub record BindTask : Type 0 where
  pub port : ℕ
  pub attempt : ℕ
  pub attempt_port : ℕ

pub record AsyncListener : Type 0 where
  pub is_open : Bool
  pub bind_task : Option BindTask

abbrev pub ready : AsyncListener → Bool
ready s = if not s.is_open then false else elim s.bind_task [ none ↦ true | some t ↦ false ]

module _ (p : ListenPlatform) where
  open p use {World, Connection}

  -- The port for an attempt, drawn when there is none.
  pub draw_port : BindTask → World → BindTask × World
  draw_port t w =
      let (n, w') = p.random_uniform 16384 w in
      if t.attempt_port == 0 then (record t { attempt_port = u16 (49152 + n) }, w') else (t, w)

  -- m_bindTask.reset() and SOListen
  pub reset_and_listen : AsyncListener → World → Bool × AsyncListener × World
  reset_and_listen s w = let (ok, w') = p.listen w in (ok, record s { bind_task = none }, w')

  pub on_any : AsyncListener → BindTask → BindResult × World → Bool × AsyncListener × World
  on_any s t (BindResult.in_progress, w) = (true, record s { bind_task = some t }, w)
  on_any s t (BindResult.in_use, w) =
      let t' = record t { attempt = u16 (t.attempt + 1) } in
      (ltb t'.attempt 1024, record s { bind_task = some t' }, w)
  on_any s t (BindResult.bound, w) = reset_and_listen s w
  on_any s t (BindResult.refused, w) = (false, record s { bind_task = some t }, w)

  pub on_fixed : AsyncListener → BindResult × World → Bool × AsyncListener × World
  on_fixed s (BindResult.in_progress, w) = (true, s, w)
  on_fixed s (BindResult.in_use, w) = (false, s, w)
  on_fixed s (BindResult.bound, w) = reset_and_listen s w
  on_fixed s (BindResult.refused, w) = (false, s, w)

  pub poll_task : AsyncListener → BindTask → World → Bool × AsyncListener × World
  poll_task s t w =
      let (t', w') = draw_port t w in
      if t.port == 0 then on_any s t' (p.bind t'.attempt_port w') else on_fixed s (p.bind t.port w)

  pub poll : AsyncListener → World → Bool × AsyncListener × World
  poll s w =
      if not s.is_open
      then (false, s, w)
      else elim s.bind_task [ none ↦ (true, s, w) | some t ↦ poll_task s t w ]

  pub accept : AsyncListener → World → Option Connection × World
  accept s w = elim s.bind_task [ none ↦ p.accept_next w | some t ↦ (none, w) ]
