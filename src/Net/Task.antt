-- ===== src/Net/Task.antt =====
-- AsyncSocket.hh: the tasks of the queues, and AsyncSocket::recv and send of AsyncSocket.cc.
pub mod Buffers
use mkw_sp.Base.{ℕ, ◌+◌, List, [], ◌∷◌, Bool, true, false, length, set, take, drop, replicate}
use mkw_sp.Base.Words.{u16, sub32}
use mkw_sp.Net.{Platform, RecvResult, SendResult}

pub record Task : Type 0 where
  pub buffer : List ℕ
  pub size : ℕ
  pub offset : ℕ

abbrev pub buffer_size : ℕ
buffer_size = 1024

abbrev pub queue_size : ℕ
queue_size = 32

-- ReadTask{} and WriteTask{}; the bytes are not initialised by the source.
abbrev pub new_task : Task
new_task = record { buffer = replicate buffer_size 0; size = 0; offset = 0 }

-- hydro_kx_XX_PACKET1BYTES, 2 and 3, hydro_secretbox_HEADERBYTES
abbrev pub packet1_bytes : ℕ
packet1_bytes = 48

abbrev pub packet2_bytes : ℕ
packet2_bytes = 96

abbrev pub packet3_bytes : ℕ
packet3_bytes = 64

abbrev pub header_bytes : ℕ
header_bytes = 36

-- Copy bytes into a buffer from an index.
abbrev pub blit : List ℕ → ℕ → List ℕ → List ℕ
blit buffer i [] = buffer
blit buffer i (b ∷ bytes) = blit (set buffer i b) (i + 1) bytes

-- How a part of `poll` ends: the next part runs, or `poll` returns.
pub data Flow : Type 0 where
  go : Flow
  ret : Bool → Flow

module _ (p : Platform) where
  open p use {World}

  -- recv(buffer, size, offset) and send(buffer, size, offset): false is an error.
  unfoldable pub on_recv : Task → RecvResult → Bool × Task
  on_recv t (RecvResult.received bytes) = (
    true,
    record t { buffer = blit t.buffer t.offset bytes; offset = u16 (t.offset + length bytes) },
  )
  on_recv t RecvResult.again = (true, t)
  on_recv t RecvResult.failed = (false, t)

  unfoldable pub recv : Task → ℕ → World → Bool × Task × World
  unfolding on_recv
  recv t size w =
      let (r, w') = p.recv (sub32 size t.offset) w in let (ok, t') = on_recv t r in (ok, t', w')

  unfoldable pub on_send : Task → SendResult → Bool × Task
  on_send t (SendResult.sent n) = (true, record t { offset = u16 (t.offset + n) })
  on_send t SendResult.again = (true, t)
  on_send t SendResult.failed = (false, t)

  unfoldable pub send : Task → ℕ → World → Bool × Task × World
  unfolding on_send
  send t size w =
      let (r, w') = p.send (take (sub32 size t.offset) (drop t.offset t.buffer)) w in
      let (ok, t') = on_send t r in (ok, t', w')
