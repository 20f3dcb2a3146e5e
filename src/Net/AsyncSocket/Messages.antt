-- ===== src/Net/AsyncSocket/Messages.antt =====
-- AsyncSocket::write and AsyncSocket::read: what one side writes, the other reads.
use mkw_sp.Base.{
  ℕ, ◌+◌, ◌-◌, ◌≤◌, ◌<◌, ◌^◌, ◌≡◌, ◌∙◌, List, [], ◌∷◌, ◌++◌, some, true, arith, length, take, drop,
  refl, sym, ap, length-replicate, get_or-take, get_or-append_left, length-take, take-drop,
  drop-length-append, Option-cases, ◌%◌, inl, inr,
}
use mkw_sp.Base.Words.{u16}
use mkw_sp.Bytes.{length-write16, read16, write16, read16-write16}
use mkw_sp.Net.{Platform}
use mkw_sp.Net.Task.{Task, new_task, blit, header_bytes}
use mkw_sp.Net.Task.Buffers.{contents, take-blit}
use mkw_sp.Net.State.{AsyncSocket}
use mkw_sp.Net.Transfer.Framing.{IsRead}
use mkw_sp.Net.AsyncSocket.{read, write, Read}

-- The task that write queues for a message that is sealed.
abbrev pub frame : ℕ → List ℕ → Task
frame size sealed = record new_task {
  buffer = blit (write16 new_task.buffer 0 (size - 2)) 2 sealed;
  size = size;
}

abbrev header : ℕ → List ℕ
header size = write16 new_task.buffer 0 (size - 2)

length-header : (size : ℕ) → length (header size) ≡ 1024
length-header size = length-write16 new_task.buffer 0 (size - 2) ∙ length-replicate {A = ℕ} 1024 0

-- What is sent of a frame: the size, then the sealed message.
frame-bytes :
    (size : ℕ) (sealed : List ℕ)
    → size ≡ 2 + length sealed
    → size ≤ 1024
    → take size (frame size sealed).buffer ≡ take 2 (header size) ++ sealed
frame-bytes size sealed e h =
    ap (λ n. take n (frame size sealed).buffer) e
    ∙ take-blit (header size) 2 sealed (omega (arith, length-header size))

pub read16-prefix : (xs : List ℕ) (n : ℕ) → 2 ≤ n → read16 (take n xs) 0 ≡ read16 xs 0
unfolding read16
read16-prefix xs n h = rw (get_or-take n xs 0 0 (omega arith), get_or-take n xs 1 0 (omega arith))

read16-append : (xs ys : List ℕ) → 2 ≤ length xs → read16 (xs ++ ys) 0 ≡ read16 xs 0
unfolding read16
read16-append xs ys h =
    rw (get_or-append_left xs ys 0 0 (omega arith), get_or-append_left xs ys 1 0 (omega arith))

-- A complete task with the bytes of a frame has its size and its sealed message.
received-size :
    (size : ℕ) (sealed : List ℕ) (r : Task)
    → size ≡ 2 + length sealed
    → size ≤ 1024
    → IsRead r
    → r.offset ≡ 2 + r.size
    → contents r ≡ take size (frame size sealed).buffer
    → r.size ≡ length sealed
received-size size sealed r e h v full same =
    v.size_eq (omega arith)
    ∙ sym (read16-prefix r.buffer r.offset (omega arith))
    ∙ ap (λ l. read16 l 0) (same ∙ frame-bytes size sealed e h)
    ∙ read16-append (take 2 (header size)) sealed
        (omega (arith, length-take 2 (header size), length-header size))
    ∙ read16-prefix (header size) 2 (omega arith)
    ∙ read16-write16 new_task.buffer 0 (size - 2) (omega (arith, length-replicate {A = ℕ} 1024 0))
        (omega arith)
    ∙ omega arith

received-sealed :
    (size : ℕ) (sealed : List ℕ) (r : Task)
    → size ≡ 2 + length sealed
    → size ≤ 1024
    → r.offset ≡ 2 + r.size
    → contents r ≡ take size (frame size sealed).buffer
    → take r.size (drop 2 r.buffer) ≡ sealed
received-sealed size sealed r e h full same =
    take-drop 2 r.size r.buffer
    ∙ ap (λ n. drop 2 (take n r.buffer)) (sym full)
    ∙ ap (drop 2) (same ∙ frame-bytes size sealed e h)
    ∙ drop-length-append 2 (take 2 (header size)) sealed
        (omega (arith, length-take 2 (header size), length-header size))

append_last : (xs : List Task) (s t : Task) → xs ++ s ∷ [] ≡ xs ++ t ∷ [] → s ≡ t
append_last [] s t e = cc
append_last (x ∷ xs) s t e = append_last xs s t (ground (arith, e))

module _ {p : Platform} where
  -- A write that returns true has sealed the message under the next number and queued its frame.
  write-frame :
      (a a' : AsyncSocket p) (bytes : List ℕ)
      → write p a bytes ≡ some (true, a')
      → (sealed : List ℕ) × (p.encrypt a.session a.context a.write_message_id bytes ≡ some sealed)
        × (2 + length sealed ≤ 1024)
        × (a'.write_queue
            ≡ a.write_queue ++ frame (u16 (2 + header_bytes + length bytes)) sealed ∷ [])
  unfolding write
  write-frame a a' bytes e =
      elim (Option-cases (p.encrypt a.session a.context a.write_message_id bytes)) [
        | inl q ↦ absurd (ground arith)
        | inr (sealed, q) ↦ (sealed, q, ground arith, ground arith)
      ]

  -- One direction of a connection: what `a` seals, `b` opens under the same number.
  pub record Connected (a b : AsyncSocket p) : Type 0 where
    pub opens :
        (id : ℕ) (bytes sealed : List ℕ)
        → p.encrypt a.session a.context id bytes ≡ some sealed
        → (length sealed ≡ length bytes + 36)
          × (p.decrypt b.session b.context id sealed ≡ some bytes)

  read-frame :
      (b : AsyncSocket p) (bytes sealed : List ℕ) (max_size : ℕ) (r : Task) (rest : List Task)
      → b.read_queue ≡ r ∷ rest
      → r.offset ≡ 2 + r.size
      → r.size ≡ length bytes + 36
      → length bytes ≤ max_size
      → length bytes < 2 ^ 16
      → take r.size (drop 2 r.buffer) ≡ sealed
      → p.decrypt b.session b.context b.read_message_id sealed ≡ some bytes
      → read p b max_size ≡ (
        Read.message (length bytes) bytes,
        record b { read_message_id = (b.read_message_id + 1) % 2 ^ 64; read_queue = rest },
      )
  unfolding read
  read-frame b bytes sealed max_size r rest q full size fits small body opened =
      ground (arith, q, body, opened)

  -- Suppose that what `a` seals `b` opens, and that `a.write(bytes)` returns true and queues `t`. If
  -- the task at the front of b's queue is complete and holds the bytes of `t` that are sent, b's next
  -- number is the one that `a` used, and the caller has room for the message, then b.read returns
  -- the message, takes the task off the queue and counts the message.
  pub read-write :
      (a a' b : AsyncSocket p) (bytes : List ℕ) (max_size : ℕ) (t r : Task) (rest : List Task)
      → Connected a b
      → write p a bytes ≡ some (true, a')
      → a'.write_queue ≡ a.write_queue ++ t ∷ []
      → b.read_queue ≡ r ∷ rest
      → IsRead r
      → r.offset ≡ 2 + r.size
      → contents r ≡ take t.size t.buffer
      → b.read_message_id ≡ a.write_message_id
      → length bytes ≤ max_size
      → read p b max_size ≡ (
        Read.message (length bytes) bytes,
        record b { read_message_id = (b.read_message_id + 1) % 2 ^ 64; read_queue = rest },
      )
  read-write a a' b bytes max_size t r rest c e queued q v full same ids fits =
      let (sealed, enc, room, framed) = write-frame a a' bytes e in
      let (len, dec) = c.opens a.write_message_id bytes sealed enc in
      let size : u16 (2 + header_bytes + length bytes) ≡ 2 + length sealed = omega arith in
      let is_frame : t ≡ frame (2 + length sealed) sealed =
        append_last a.write_queue t _ (sym queued ∙ framed) ∙ ap (λ n. frame n sealed) size in
      let same' : contents r ≡ take (2 + length sealed) (frame (2 + length sealed) sealed).buffer =
        same ∙ ap (λ (u : Task). take u.size u.buffer) is_frame in
      read-frame b bytes sealed max_size r rest q full
        (received-size (2 + length sealed) sealed r refl room v full same' ∙ len) fits (omega arith)
        (received-sealed (2 + length sealed) sealed r refl room full same')
        (ap (λ id. p.decrypt b.session b.context id sealed) ids ∙ dec)
