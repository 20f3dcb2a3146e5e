-- ===== src/Net/SyncSocket/Tests.antt =====
-- The theorem about SyncSocket.cc over a network that gives one byte at a time, with secret boxes
-- of the right length that hide nothing.
use mkw_sp.Base.{
  ℕ, zero, suc, ◌≡◌, ◌≤◌, arith, refl, List, [], ◌∷◌, ◌++◌, some, none, true, replicate, length,
  length-append, drop,
}
use mkw_sp.Bytes.{write16}
use mkw_sp.Net.{Platform, ConnectResult, RecvResult, SendResult}
use mkw_sp.Net.SyncSocket.{SyncSocket, read, packet_of, Read}
use mkw_sp.Net.SyncSocket.Chunks.{Gives}
use mkw_sp.Net.SyncSocket.Messages.{Opens, read-packet_of}

abbrev trickle_recv : ℕ → List ℕ → RecvResult × List ℕ
trickle_recv zero w = (RecvResult.again, w)
trickle_recv (suc n) [] = (RecvResult.again, [])
trickle_recv (suc n) (b ∷ w) = (RecvResult.received (b ∷ []), w)

abbrev trickle : Platform
trickle = record {
  World = List ℕ;
  connect = λ address w. (ConnectResult.connected, w);
  recv = trickle_recv;
  send = λ bytes w. (SendResult.sent (length bytes), w);
  Keypair = Unit {0};
  Exchange = Unit {0};
  Session = Unit {0};
  kx_xx_2 = λ x k packet1. none;
  kx_xx_3 = λ x k packet2. none;
  kx_xx_4 = λ x packet3. none;
  encrypt = λ s context id bytes. some (replicate 36 0 ++ bytes);
  decrypt = λ s context id sealed. some (drop 36 sealed);
}

trickle_recv_one :
    (n b : ℕ) (w : List ℕ) → 1 ≤ n → trickle_recv n (b ∷ w) ≡ (RecvResult.received (b ∷ []), w)
trickle_recv_one zero b w h = absurd (omega arith)
trickle_recv_one (suc n) b w h = refl

trickle-Gives : (w : List ℕ) → Gives trickle [] w w
trickle-Gives [] = Gives.done
trickle-Gives (b ∷ w) =
    Gives.more b w (λ n. 1) (λ n. w) (λ n h fits. (omega arith, h, trickle_recv_one n b w h))
      (λ n h fits. trickle-Gives w)

abbrev fresh : SyncSocket trickle
fresh = record { is_open = true; session = tt; context = []; message_id = 7 }

fresh-Opens : Opens fresh fresh
fresh-Opens = record {
  opens = λ id bytes sealed e.
      let q : replicate 36 0 ++ bytes ≡ sealed = cc in
      rw (← q) (omega (arith, length-append (replicate 36 0) bytes), refl);
}

abbrev packet : List ℕ
packet = 0 ∷ 38 ∷ replicate 36 0 ++ 5 ∷ 6 ∷ []

packet_of-packet_bytes : packet_of trickle fresh (5 ∷ 6 ∷ []) ≡ some packet
unfolding packet_of write16
packet_of-packet_bytes = refl

read-packet_of_example :
    read trickle fresh 10 packet
    ≡ some (Read.message 2 (5 ∷ 6 ∷ []), record fresh { message_id = 8 }, [])
read-packet_of_example =
    read-packet_of fresh fresh (5 ∷ 6 ∷ []) packet 10 packet [] fresh-Opens refl
      packet_of-packet_bytes (trickle-Gives packet) (omega arith) (omega arith)
