-- ===== src/Net/UnreliableSocket/Tests.antt =====
-- UnreliableSocket::read and write on a network whose headers are a key and 35 zeros.
use mkw_sp.Base.{
  ℕ, ◌≡◌, List, [], ◌∷◌, Option, none, some, true, ◌==◌, ltb, length, drop, replicate, ◌++◌, refl,
  if◌then◌else◌,
}
use mkw_sp.Net.UnreliableSocket.{
  Datagram, nothing, datagram, Network, Connection, Read, read, write, read_datagrams, find_key,
  readdress,
}
use mkw_sp.Net.UnreliableSocket.Keys.{From, read-From}

abbrev next : List Datagram → Datagram × List Datagram
next [] = (nothing, [])
next (d ∷ world) = (d, world)

abbrev sealed : ℕ → List ℕ → List ℕ
sealed key bytes = key ∷ (replicate 35 0 ++ bytes)

abbrev open_with : ℕ → List ℕ → Option (List ℕ)
open_with key [] = none
open_with key (b ∷ bytes) =
    if ltb (length bytes) 35 then none else if b == key then some (drop 35 bytes) else none

abbrev queue : Network
queue = record {
  World = List Datagram;
  Key = ℕ;
  bind = λ port world. (true, world);
  recv_from = next;
  send_to = λ bytes ip port world. (true, datagram bytes ip port ∷ world);
  encrypt = λ key bytes. some (sealed key bytes);
  decrypt = open_with;
}

abbrev client : ℕ → ℕ → Connection queue
client ip key = record { ip = ip; port = 0; rx = key; tx = key }

abbrev group : List (Connection queue)
group = client 1 7 ∷ client 2 9 ∷ []

abbrev sent : Read queue
sent = record { message = 5 ∷ []; size = 1; index = 1 }

abbrev no_port : Option ℕ
no_port = none

abbrev world : List Datagram
world = datagram (3 ∷ []) 8 80 ∷ datagram (sealed 9 (5 ∷ [])) 6 60 ∷ []

write_sends :
    write queue (5 ∷ []) (client 1 7) [] ≡ some (true, datagram (sealed 7 (5 ∷ [])) 1 0 ∷ [])
unfolding write
write_sends = refl

reads :
    read queue 4 (some 80) group world
    ≡ (some sent, none, client 1 7 ∷ record (client 2 9) { ip = 6; port = 60 } ∷ [], [])
unfolding read read_datagrams find_key readdress
reads = refl

read-From_example :
    From queue 4 group sent (client 1 7 ∷ record (client 2 9) { ip = 6; port = 60 } ∷ []) []
    × (no_port ≡ none)
read-From_example =
    read-From queue 4 (some 80) group world sent no_port
      (client 1 7 ∷ record (client 2 9) { ip = 6; port = 60 } ∷ []) [] reads
