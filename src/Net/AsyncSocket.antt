-- ===== src/Net/AsyncSocket.antt =====
-- payload/sp/net/AsyncSocket.cc: `poll`, `ready`, `read` and `write`.
pub mod Ready
pub mod Stall
pub mod Messages
mod Tests
use mkw_sp.Base.{
  ℕ, ◌+◌, ◌-◌, ◌^◌, List, [], ◌∷◌, Option, none, some, Bool, true, false, ltb, ◌&&◌, not, length,
  take, drop, if◌then◌else◌, ◌%◌,
}
use mkw_sp.Base.Words.{u16}
use mkw_sp.Bytes.{write16}
use mkw_sp.Net.{Platform}
use mkw_sp.Net.Task.{Flow, go, ret, new_task, buffer_size, header_bytes, blit}
use mkw_sp.Net.State.{AsyncSocket, ◌>=>◌}
use mkw_sp.Net.Handshake.{connect_phase, key_exchange}
use mkw_sp.Net.Transfer.{init_check, transfer, push_back}

abbrev is_none {ℓ} : {A : Type ℓ} → Option A → Bool
is_none none = true
is_none (some _) = false

module _ (p : Platform) where
  open p use {World, encrypt, decrypt}

  abbrev pub returned : Flow × AsyncSocket p × World → Bool × AsyncSocket p × World
  returned (go, s, w) = (true, s, w)
  returned (ret b, s, w) = (b, s, w)

  pub poll : AsyncSocket p → World → Bool × AsyncSocket p × World
  poll s w =
      if s.is_open
      then returned ((connect_phase p >=> key_exchange p >=> init_check p >=> transfer p) s w)
      else (false, s, w)

  pub ready : AsyncSocket p → Bool
  ready s = s.is_open && is_none s.connect_task && is_none s.init_task

  -- read(message, maxSize): the optional is empty, 0 with no message, or the message.
  pub data Read : Type 0 where
    failed : Read
    nothing : Read
    message : ℕ → List ℕ → Read

  pub read : AsyncSocket p → ℕ → Read × AsyncSocket p
  read s max_size = elim s.read_queue [
    | [] ↦ (nothing, s)
    | t ∷ rest ↦
        if ltb t.offset (2 + t.size)
        then (nothing, s)
        else if ltb (header_bytes + max_size) t.size
        then (failed, s)
        else let s' = record s { read_message_id = (s.read_message_id + 1) % 2 ^ 64 } in
          elim (decrypt s.session s.context s.read_message_id (take t.size (drop 2 t.buffer))) [
            | none ↦ (failed, s')
            | some bytes ↦ (
              message (u16 (t.size + 2 ^ 16 - header_bytes)) bytes,
              record s' { read_queue = rest },
            )
          ]
  ]

  -- write(message, size). `none` is a failed assertion, or a message that runs past the buffer.
  pub write : AsyncSocket p → List ℕ → Option (Bool × AsyncSocket p)
  write s bytes =
      let size = u16 (2 + header_bytes + length bytes) in
      let s' = record s { write_message_id = (s.write_message_id + 1) % 2 ^ 64 } in
      let header = write16 new_task.buffer 0 (size - 2) in
      if not (ready s) then none else elim (encrypt s.session s.context s.write_message_id bytes) [
        | none ↦ some (false, s')
        | some sealed ↦
            if ltb buffer_size (2 + length sealed)
            then none
            else let t = record new_task { buffer = blit header 2 sealed; size = size } in
              let (done, q) = push_back s.write_queue t in
              some (done, record s' { write_queue = q })
      ]
