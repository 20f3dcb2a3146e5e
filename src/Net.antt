-- ===== src/Net.antt =====
-- payload/sp/net: what the sockets use of the operating system and of libhydrogen.
pub mod UnreliableSocket
pub mod Task
pub mod State
pub mod Handshake
pub mod Transfer
pub mod AsyncSocket
pub mod SyncSocket
pub mod AsyncListener
use mkw_sp.Base.{ℕ, ◌≡◌, ◌≤◌, ◌+◌, List, Option, some, length}

-- The results of SOConnect that AsyncSocket::poll tells apart.
pub data ConnectResult : Type 0 where
  -- SO_EINPROGRESS, SO_EALREADY
  in_progress : ConnectResult
  -- SO_EISCONN, 0
  connected : ConnectResult
  refused : ConnectResult

-- A positive result of SORecv with the bytes that it stored, SO_EAGAIN, or anything else.
pub data RecvResult : Type 0 where
  received : List ℕ → RecvResult
  again : RecvResult
  failed : RecvResult

-- A result of SOSend that is not negative, SO_EAGAIN, or another error.
pub data SendResult : Type 0 where
  sent : ℕ → SendResult
  again : SendResult
  failed : SendResult

-- The operating system's sockets, over a state of the network, and libhydrogen's key exchange and
-- secret boxes. A key exchange step that fails is `none`.
pub record Platform : Type 1 where
  pub World : Type 0
  pub connect : ℕ → World → ConnectResult × World
  pub recv : ℕ → World → RecvResult × World
  pub send : List ℕ → World → SendResult × World
  pub Keypair : Type 0
  pub Exchange : Type 0
  pub Session : Type 0
  -- packet 1 to packet 2
  pub kx_xx_2 : Exchange → Keypair → List ℕ → Option (Exchange × List ℕ)
  -- packet 2 to packet 3 and the session's keys
  pub kx_xx_3 : Exchange → Keypair → List ℕ → Option (Exchange × Session × List ℕ)
  -- packet 3 to the session's keys
  pub kx_xx_4 : Exchange → List ℕ → Option Session
  pub encrypt : Session → List ℕ → ℕ → List ℕ → Option (List ℕ)
  pub decrypt : Session → List ℕ → ℕ → List ℕ → Option (List ℕ)

-- What is documented of the calls: SORecv stores at least one byte and at most as many as it is
-- asked for, SOSend takes at most as many as it is given, and the packets have their lengths.
pub record PlatformLaws (p : Platform) : Type 0 where
  pub recv_size :
      (n : ℕ) (w w' : p.World) (bytes : List ℕ)
      → p.recv n w ≡ (RecvResult.received bytes, w')
      → (1 ≤ length bytes) × (length bytes ≤ n)
  pub send_size :
      (bytes : List ℕ) (w w' : p.World) (n : ℕ)
      → p.send bytes w ≡ (SendResult.sent n, w')
      → n ≤ length bytes
  pub xx_2_size :
      (x x' : p.Exchange) (k : p.Keypair) (packet1 packet2 : List ℕ)
      → p.kx_xx_2 x k packet1 ≡ some (x', packet2)
      → length packet2 ≡ 96
  pub xx_3_size :
      (x x' : p.Exchange) (k : p.Keypair) (s : p.Session) (packet2 packet3 : List ℕ)
      → p.kx_xx_3 x k packet2 ≡ some (x', s, packet3)
      → length packet3 ≡ 64
