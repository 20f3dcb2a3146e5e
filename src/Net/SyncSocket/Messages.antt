-- ===== src/Net/SyncSocket/Messages.antt =====
-- SyncSocket::write and SyncSocket::read: what one side writes, the other reads.
use mkw_sp.Base.{
  ℕ, ◌+◌, ◌≤◌, ◌<◌, ◌^◌, ◌%◌, ◌≡◌, ◌∙◌, List, [], ◌++◌, some, arith, length, take, drop, refl, sym,
  ap, replicate, subst, length-replicate, take-drop, append-nil, Option-cases, drop-length-append,
  ltb, inl, length-take, false, inr, ◌-◌, true,
}
use mkw_sp.Base.Words.{u16}
use mkw_sp.Bytes.{read16, write16, length-write16, read16-write16}
use mkw_sp.Net.{Platform}
use mkw_sp.Net.Task.{blit, header_bytes}
use mkw_sp.Net.Task.Buffers.{take-blit, length-blit}
use mkw_sp.Net.AsyncSocket.Messages.{read16-prefix}
use mkw_sp.Net.SyncSocket.{SyncSocket, read, read_sized, open_box, packet_of, Read, recv_loop}
use mkw_sp.Net.SyncSocket.Chunks.{Gives, Gives-end, recv_loop-Gives}

abbrev header : ℕ → List ℕ
header n = write16 (replicate 2 0) 0 n

length-header : (n : ℕ) → length (header n) ≡ 2
length-header n = length-write16 (replicate 2 0) 0 n

-- tmp after the first loop of `read`: it holds the size.
abbrev sized : ℕ → ℕ → List ℕ
sized max_size n = blit (replicate (38 + max_size) 0) 0 (header n)

length-sized : (max_size n : ℕ) → length (sized max_size n) ≡ 38 + max_size
length-sized max_size n =
    length-blit (replicate (38 + max_size) 0) 0 (header n)
    ∙ length-replicate {A = ℕ} (38 + max_size) 0

take-sized : (max_size n : ℕ) → take 2 (sized max_size n) ≡ header n
take-sized max_size n =
    ap (λ k. take k (sized max_size n)) {x = 2} {y = 0 + length (header n)}
      (omega (arith, length-header n))
    ∙ take-blit (replicate (38 + max_size) 0) 0 (header n)
        (omega (arith, length-header n, length-replicate {A = ℕ} (38 + max_size) 0))

read16-sized : (max_size n : ℕ) → n < 2 ^ 16 → read16 (sized max_size n) 0 ≡ n
read16-sized max_size n h =
    sym (read16-prefix (sized max_size n) 2 (omega arith))
    ∙ ap (λ l. read16 l 0) (take-sized max_size n)
    ∙ read16-write16 (replicate 2 0) 0 n (omega arith) h

-- The sealed message in tmp after the second loop.
sealed-sized :
    (max_size n : ℕ) (sealed : List ℕ)
    → length sealed ≡ n
    → n ≤ 36 + max_size
    → take n (drop 2 (blit (sized max_size n) 2 sealed)) ≡ sealed
sealed-sized max_size n sealed e h =
    let tmp = blit (sized max_size n) 2 sealed in
    take-drop 2 n tmp
    ∙ ap (λ k. drop 2 (take k tmp)) {y = 2 + length sealed} (omega arith)
    ∙ ap (drop 2) (take-blit (sized max_size n) 2 sealed (omega (arith, length-sized max_size n)))
    ∙ drop-length-append 2 (take 2 (sized max_size n)) sealed
        (omega (arith, length-take 2 (sized max_size n), length-sized max_size n))

module _ {p : Platform} where
  -- What `a` seals, `b` opens under the same number.
  pub record Opens (a b : SyncSocket p) : Type 0 where
    pub opens :
        (id : ℕ) (bytes sealed : List ℕ)
        → p.encrypt a.session a.context id bytes ≡ some sealed
        → (length sealed ≡ length bytes + 36)
          × (p.decrypt b.session b.context id sealed ≡ some bytes)

  -- What `write` sends is the size and the sealed message.
  packet_of-packet :
      (a : SyncSocket p) (bytes packet : List ℕ)
      → packet_of p a bytes ≡ some packet
      → (sealed : List ℕ) × (p.encrypt a.session a.context a.message_id bytes ≡ some sealed)
        × (packet ≡ header (36 + length bytes) ++ sealed)
  unfolding packet_of
  packet_of-packet a bytes packet e =
      elim (Option-cases (p.encrypt a.session a.context a.message_id bytes)) [
        | inl q ↦ absurd (ground arith)
        | inr (sealed, q) ↦ (sealed, q, ground arith)
      ]

  open_box_message :
      (s : SyncSocket p) (n : ℕ) (sealed bytes : List ℕ)
      → p.decrypt s.session s.context s.message_id sealed ≡ some bytes
      → n ≡ 36 + length bytes
      → length bytes < 2 ^ 16
      → open_box p s n sealed
        ≡ (Read.message (length bytes) bytes, record s { message_id = (s.message_id + 1) % 2 ^ 64 })
  unfolding open_box
  open_box_message s n sealed bytes q e small =
      let size : u16 (n + 2 ^ 16 - header_bytes) ≡ length bytes = omega arith in
      rw (open_box, q, size)

  read-read_sized :
      (s : SyncSocket p) (max_size : ℕ) (tmp : List ℕ) (w v : p.World)
      → recv_loop p 2 2 0 (replicate (38 + max_size) 0) w ≡ some (true, tmp, v)
      → read p s max_size w ≡ read_sized p s max_size tmp v
  unfolding read
  read-read_sized s max_size tmp w v q = rw (read, q)

  read_sized-open_box :
      (s : SyncSocket p) (max_size n : ℕ) (tmp tmp' : List ℕ) (w v : p.World)
      → read16 tmp 0 ≡ n
      → n ≤ 36 + max_size
      → recv_loop p n (2 + n) 2 tmp w ≡ some (true, tmp', v)
      → read_sized p s max_size tmp w
        ≡ (let (r, s') = open_box p s n (take n (drop 2 tmp')) in some (r, s', v))
  unfolding read_sized
  read_sized-open_box s max_size n tmp tmp' w v e fits q =
      let not_larger : ltb (36 + max_size) n ≡ false = ground arith in
      rw (read_sized, e, not_larger, q, e)

  read-sealed :
      (s : SyncSocket p) (max_size n : ℕ) (sealed : List ℕ) (w u : p.World)
      → length sealed ≡ n
      → n ≤ 36 + max_size
      → 38 + max_size < 2 ^ 16
      → Gives p u w (header n ++ sealed)
      → read p s max_size w ≡ (let (r, s') = open_box p s n sealed in some (r, s', u))
  read-sealed s max_size n sealed w u e fits small g =
      let f =
        recv_loop-Gives 2 2 0 (replicate (38 + max_size) 0) (header n) sealed w u g
          (omega (arith, length-header n)) (omega arith) (omega (arith, length-header n)) in
      let f' =
        recv_loop-Gives n (2 + n) 2 (sized max_size n) sealed [] f.world u
          (subst (Gives p u f.world) (sym (append-nil sealed)) f.rest) (omega arith) (omega arith)
          (omega arith) in
      read-read_sized s max_size (sized max_size n) w f.world f.result
      ∙ read_sized-open_box s max_size n (sized max_size n) (blit (sized max_size n) 2 sealed)
          f.world f'.world (read16-sized max_size n (omega arith)) fits f'.result
      ∙ ap (λ l. let (r, s') = open_box p s n l in some (r, s', f'.world))
          (sealed-sized max_size n sealed e fits)
      ∙ ap (λ v. let (r, s') = open_box p s n sealed in some (r, s', v)) (Gives-end f'.rest)

  -- Suppose that what `a` seals `b` opens, that both count the same number, and that the network
  -- gives b the bytes that `a` sends for a message, split in any way. If the caller has room for the
  -- message, in a buffer whose size fits in 16 bits, then b.read returns the message, counts it and
  -- leaves the network behind it.
  pub read-packet_of :
      (a b : SyncSocket p) (bytes packet : List ℕ) (max_size : ℕ) (w u : p.World)
      → Opens a b
      → b.message_id ≡ a.message_id
      → packet_of p a bytes ≡ some packet
      → Gives p u w packet
      → length bytes ≤ max_size
      → 38 + max_size < 2 ^ 16
      → read p b max_size w
        ≡ some (
          Read.message (length bytes) bytes,
          record b { message_id = (b.message_id + 1) % 2 ^ 64 },
          u,
        )
  read-packet_of a b bytes packet max_size w u o ids e g fits small =
      let (sealed, q, whole) = packet_of-packet a bytes packet e in
      let (len, dec) = o.opens a.message_id bytes sealed q in
      read-sealed b max_size (36 + length bytes) sealed w u (omega arith) (omega arith) small
        (subst (Gives p u w) whole g)
      ∙ ap (λ r. some (r.0, r.1, u))
          (open_box_message b (36 + length bytes) sealed bytes
            (ap (λ id. p.decrypt b.session b.context id sealed) ids ∙ dec) refl (omega arith))
