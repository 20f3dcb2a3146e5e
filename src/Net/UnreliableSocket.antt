-- ===== src/Net/UnreliableSocket.antt =====
-- payload/sp/net/UnreliableSocket.cc: datagrams from a group of connections.
pub mod Keys
mod Tests
use mkw_sp.Base.{
  ℕ, zero, suc, ◌+◌, ◌-◌, ◌^◌, List, [], ◌∷◌, Option, none, some, Bool, true, false, ltb, leb,
  length, set, if◌then◌else◌,
}
use mkw_sp.Base.Words.{u16}
use mkw_sp.Net.Task.{header_bytes}

-- SORecvFrom: SO_EAGAIN or another error, or the bytes with the address of the sender.
pub data Datagram : Type 0 where
  nothing : Datagram
  datagram : List ℕ → ℕ → ℕ → Datagram

-- The calls of the system and of libhydrogen, with the message id 0 and the socket's context.
pub record Network : Type 1 where
  pub World : Type 0
  pub Key : Type 0
  -- SOBind to a port: false for any result but 0.
  pub bind : ℕ → World → Bool × World
  pub recv_from : World → Datagram × World
  -- SOSendTo an address and a port: false for a negative result.
  pub send_to : List ℕ → ℕ → ℕ → World → Bool × World
  pub encrypt : Key → List ℕ → Option (List ℕ)
  pub decrypt : Key → List ℕ → Option (List ℕ)

module _ (n : Network) where
  open n use {World, Key, decrypt}

  pub record Connection : Type 0 where
    pub ip : ℕ
    pub port : ℕ
    pub rx : Key
    pub tx : Key

  -- UnreliableSocket::Read, with the message.
  pub record Read : Type 0 where
    pub message : List ℕ
    pub size : ℕ
    pub index : ℕ

  -- The loop over the group: the first connection whose key decrypts. A group has at most 255.
  pub find_key : List Connection → List ℕ → Option (ℕ × List ℕ)
  find_key [] bytes = none
  find_key (c ∷ connections) bytes = elim (decrypt c.rx bytes) [
    | some message ↦ some (0, message)
    | none ↦ elim (find_key connections bytes) [
      | none ↦ none
      | some (i, message) ↦ some (suc i, message)
    ]
  ]

  -- The connection at an index takes the address of the sender.
  pub readdress : ℕ → ℕ → ℕ → List Connection → List Connection
  readdress i ip port [] = []
  readdress zero ip port (c ∷ connections) = record c { ip = ip; port = port } ∷ connections
  readdress (suc i) ip port (c ∷ connections) = c ∷ readdress i ip port connections

  -- The loop of `read`, for some more iterations.
  pub read_datagrams : ℕ → ℕ → List Connection → World → Option Read × List Connection × World
  read_datagrams zero max_size connections w = (none, connections, w)
  read_datagrams (suc iterations) max_size connections w =
      let (r, w') = n.recv_from w in
      elim r [
        | nothing ↦ (none, connections, w')
        | datagram bytes ip port ↦
            if ltb (header_bytes + max_size) (length bytes)
            then read_datagrams iterations max_size connections w'
            else elim (find_key connections bytes) [
              | none ↦ read_datagrams iterations max_size connections w'
              | some (i, message) ↦ (
                some (record {
                  message = message;
                  size = u16 (length bytes + 2 ^ 16 - header_bytes);
                  index = i;
                }),
                readdress i ip port connections,
                w',
              )
            ]
      ]

  -- `read` on the optional port that is still to be bound.
  pub read :
      ℕ → Option ℕ → List Connection → World → Option Read × Option ℕ × List Connection × World
  read max_size none connections w =
      let (r, connections', w') = read_datagrams 5 max_size connections w in
      (r, none, connections', w')
  read max_size (some port) connections w =
      let (bound, w') = n.bind port w in
      let (r, connections', w'') = read_datagrams 5 max_size connections w' in
      if bound then (r, none, connections', w'') else (none, some port, connections, w')

  -- `write`; none is the assertion on the size of the buffer.
  pub write : List ℕ → Connection → World → Option (Bool × World)
  write message connection w =
      if leb (length message + header_bytes) 1024
      then some (elim (n.encrypt connection.tx message) [
        | none ↦ (false, w)
        | some bytes ↦ n.send_to bytes connection.ip connection.port w
      ])
      else none
