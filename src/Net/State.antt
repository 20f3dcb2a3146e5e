-- ===== src/Net/State.antt =====
-- AsyncSocket.hh: the members of an AsyncSocket, and how `poll` goes from one part to the next.
-- The two queues are CircularBuffers of 32 tasks; they stand here as lists of at most 32 tasks,
-- oldest first.
use mkw_sp.Base.{ℕ, List, Option, Bool}
use mkw_sp.Net.Task.{Task, Flow, go, ret}
use mkw_sp.Net.{Platform}

module _ (p : Platform) where
  open p use {World, Keypair, Exchange, Session}

  pub record InitTask : Type 0 where
    pub is_server : Bool
    pub keypair : Keypair
    pub state : Exchange
    pub xx1 : Task
    pub xx2 : Task
    pub xx3 : Task

  pub record AsyncSocket : Type 0 where
    -- m_handle >= 0
    pub is_open : Bool
    pub session : Session
    pub context : List ℕ
    pub connect_task : Option ℕ
    pub init_task : Option InitTask
    pub read_message_id : ℕ
    pub write_message_id : ℕ
    pub read_queue : List Task
    pub write_queue : List Task

  abbrev pub Phase : Type 0
  Phase = AsyncSocket → World → Flow × AsyncSocket × World

module _ {p : Platform} where
  open p use {World}

  abbrev pub after : Flow × AsyncSocket p × World → Phase p → Flow × AsyncSocket p × World
  after (go, s, w) next = next s w
  after (ret b, s, w) next = (ret b, s, w)

  infixl 5 ◌>=>◌
  abbrev pub ◌>=>◌ : Phase p → Phase p → Phase p
  ◌>=>◌ f g s w = after (f s w) g
