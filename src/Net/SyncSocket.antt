-- ===== src/Net/SyncSocket.antt =====
-- payload/sp/net/SyncSocket.cc: `ok`, `read` and `write`, over the calls of Net.
pub mod Chunks
pub mod Messages
mod Tests
use mkw_sp.Base.{
  ℕ, zero, suc, ◌+◌, ◌^◌, ◌%◌, ◌++◌, ◌==◌, List, Option, none, some, Bool, true, false, ltb, length,
  take, drop, replicate, if◌then◌else◌, ◌-◌,
}
use mkw_sp.Base.Words.{u16, sub32}
use mkw_sp.Bytes.{read16, write16}
use mkw_sp.Net.{Platform, RecvResult, SendResult}
use mkw_sp.Net.Task.{blit, header_bytes}

-- One number counts the messages of both directions.
pub record SyncSocket (p : Platform) : Type 0 where
  pub is_open : Bool
  pub session : p.Session
  pub context : List ℕ
  pub message_id : ℕ

abbrev u16_size : ℕ
u16_size = 2

module _ (p : Platform) where
  open p use {World, encrypt, decrypt}

  abbrev pub ok : SyncSocket p → Bool
  ok s = s.is_open

  -- m_messageID++
  abbrev pub counted : SyncSocket p → SyncSocket p
  counted s = record s { message_id = (s.message_id + 1) % 2 ^ 64 }

  -- A loop of `read` that fills the buffer up to `end`: false is an error, `none` is no fuel left.
  unfoldable pub recv_loop : ℕ → ℕ → ℕ → List ℕ → World → Option (Bool × List ℕ × World)
  recv_loop zero end offset buffer w = if ltb offset end then none else some (true, buffer, w)
  recv_loop (suc fuel) end offset buffer w =
      let (r, w') = p.recv (sub32 end offset) w in
      if ltb offset end
      then elim r [
        | RecvResult.received bytes ↦
            recv_loop fuel end (u16 (offset + length bytes)) (blit buffer offset bytes) w'
        | RecvResult.again ↦ some (false, buffer, w')
        | RecvResult.failed ↦ some (false, buffer, w')
      ]
      else some (true, buffer, w)

  -- read(message, maxSize): the optional is empty, or the message and its size.
  pub data Read : Type 0 where
    failed : Read
    message : ℕ → List ℕ → Read

  unfoldable pub open_box : SyncSocket p → ℕ → List ℕ → Read × SyncSocket p
  open_box s size sealed = elim (decrypt s.session s.context s.message_id sealed) [
    | none ↦ (failed, counted s)
    | some bytes ↦ (message (u16 (size + 2 ^ 16 - header_bytes)) bytes, counted s)
  ]

  unfoldable pub read_sized :
      SyncSocket p → ℕ → List ℕ → World → Option (Read × SyncSocket p × World)
  read_sized s max_size tmp w =
      let size = read16 tmp 0 in
      if ltb (header_bytes + max_size) size
      then some (failed, s, w)
      else elim (recv_loop size (u16_size + size) u16_size tmp w) [
        | none ↦ none
        | some (false, tmp', w') ↦ some (failed, s, w')
        | some (true, tmp', w') ↦
            let (r, s') = open_box s size (take size (drop u16_size tmp')) in some (r, s', w')
      ]

  unfoldable pub read : SyncSocket p → ℕ → World → Option (Read × SyncSocket p × World)
  read s max_size w =
      let tmp = replicate (u16_size + header_bytes + max_size) 0 in
      elim (recv_loop u16_size u16_size 0 tmp w) [
        | none ↦ none
        | some (false, tmp', w') ↦ some (failed, s, w')
        | some (true, tmp', w') ↦ read_sized s max_size tmp' w'
      ]

  -- The size of a sealed message and its bytes, the contents of tmp in `write`.
  unfoldable pub packet_of : SyncSocket p → List ℕ → Option (List ℕ)
  packet_of s bytes = elim (encrypt s.session s.context s.message_id bytes) [
    | none ↦ none
    | some sealed ↦ some (write16 (replicate u16_size 0) 0 (header_bytes + length bytes) ++ sealed)
  ]

  -- write(message, size). `none` is a failed assertion.
  pub write : SyncSocket p → List ℕ → World → Option (Bool × SyncSocket p × World)
  write s bytes w =
      if ltb 65535 (header_bytes + length bytes) then none else elim (packet_of s bytes) [
        | none ↦ some (false, counted s, w)
        | some packet ↦
            let (r, w') = p.send packet w in
            elim r [
              | SendResult.sent n ↦ some (n == length packet, counted s, w')
              | SendResult.again ↦ some (false, counted s, w')
              | SendResult.failed ↦ some (false, counted s, w')
            ]
      ]
