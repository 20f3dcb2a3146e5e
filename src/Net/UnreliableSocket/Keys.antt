-- ===== src/Net/UnreliableSocket/Keys.antt =====
-- UnreliableSocket::read: whom a datagram comes from.
use mathlib.Core.Option.{some-injective}
use mkw_sp.Base.{
  ℕ, zero, suc, ◌+◌, ◌-◌, ◌^◌, ◌≤◌, ◌<◌, ◌≡◌, List, [], ◌∷◌, Option, none, some, ltb, length,
  get_elem?, arith, refl, sym, ap, subst, Bool-cases, Option-cases, inl, inr, if◌then◌else◌, ltb→le,
  Bool, true, false,
}
use mkw_sp.Base.Words.{u16}
use mkw_sp.Net.Task.{header_bytes}
use mkw_sp.Net.UnreliableSocket.{
  Datagram, nothing, datagram, Network, Connection, Read, find_key, readdress, read_datagrams, read,
}

module _ (n : Network) where
  open n use {World, decrypt}

  -- The connection at an index decrypts the bytes to a message, and none before it does.
  pub record Sender (connections : List (Connection n)) (bytes : List ℕ) (i : ℕ) (message : List ℕ)
      : Type 0 where
    pub connection : Connection n
    pub there : get_elem? connections i ≡ some connection
    pub decrypts : decrypt connection.rx bytes ≡ some message
    pub first :
        (j : ℕ) (d : Connection n)
        → j < i
        → get_elem? connections j ≡ some d
        → decrypt d.rx bytes ≡ none

  none_before :
      (c : Connection n) (connections : List (Connection n)) (bytes : List ℕ) (i : ℕ)
      (message : List ℕ)
      → decrypt c.rx bytes ≡ none
      → Sender connections bytes i message
      → (j : ℕ) (d : Connection n) → j < suc i
      → get_elem? (c ∷ connections) j ≡ some d
      → decrypt d.rx bytes ≡ none
  none_before c connections bytes i message y s zero d l f =
      subst (λ x. decrypt (Connection.rx x) bytes ≡ none) (some-injective _ _ f) y
  none_before c connections bytes i message y s (suc j) d l f = s.first j d (omega arith) f

  find_key-Sender :
      (connections : List (Connection n)) (bytes : List ℕ) (x : ℕ × List ℕ)
      → find_key n connections bytes ≡ some x
      → Sender connections bytes x.0 x.1
  unfolding find_key
  find_key-Sender [] bytes x e = cc
  find_key-Sender (c ∷ connections) bytes x e = elim (Option-cases (decrypt c.rx bytes)) [
    | inr (message, y) ↦
        subst (λ q. Sender (c ∷ connections) bytes q.0 q.1)
          (some-injective _ _ (rw (find_key, y) at e))
          (record {
            connection = c;
            there = refl;
            decrypts = y;
            first = λ j d l. absurd (omega arith);
          })
    | inl y ↦ elim (Option-cases (find_key n connections bytes)) [
      | inl z ↦ cc (rw (find_key, y, z) at e)
      | inr ((i, message), z) ↦
          let s = find_key-Sender connections bytes (i, message) z in
          subst (λ q. Sender (c ∷ connections) bytes q.0 q.1)
            (some-injective (suc i, message) x (rw (find_key, y, z) at e))
            (record {
              connection = s.connection;
              there = s.there;
              decrypts = s.decrypts;
              first = none_before c connections bytes i message y s;
            })
    ]
  ]

  -- A datagram that was read, and what `read` makes of it.
  pub record From (max_size : ℕ) (connections : List (Connection n)) (r : Read n)
      (connections' : List (Connection n)) (w' : World) : Type 0 where
    pub bytes : List ℕ
    pub ip : ℕ
    pub port : ℕ
    -- The state of the network before the datagram was taken from it.
    pub before : World
    pub received : n.recv_from before ≡ (datagram bytes ip port, w')
    pub fits : length bytes ≤ header_bytes + max_size
    pub sender : Sender connections bytes r.index r.message
    pub size : r.size ≡ u16 (length bytes + 2 ^ 16 - header_bytes)
    pub readdressed : connections' ≡ readdress n r.index ip port connections

  abbrev Result : Type 0
  Result = Option (Read n) × List (Connection n) × World

  -- What a result says, if it has a message.
  abbrev Says : ℕ → List (Connection n) → Result → Type 0
  Says max_size connections x = (r : Read n) → x.0 ≡ some r → From max_size connections r x.1 x.2

  after_search :
      (iterations max_size : ℕ) (connections : List (Connection n)) (bytes : List ℕ) (ip port : ℕ)
      (before w : World)
      → n.recv_from before ≡ (datagram bytes ip port, w)
      → length bytes ≤ header_bytes + max_size
      → Says max_size connections (read_datagrams n iterations max_size connections w)
      → (k : Option (ℕ × List ℕ)) → find_key n connections bytes ≡ k
      → Says max_size connections (elim k [
        | none ↦ read_datagrams n iterations max_size connections w
        | some (i, message) ↦ (
          some (record {
            message = message;
            size = u16 (length bytes + 2 ^ 16 - header_bytes);
            index = i;
          }),
          readdress n i ip port connections,
          w,
        )
      ])
  after_search iterations max_size connections bytes ip port before w d l h none e = h
  after_search iterations max_size connections bytes ip port before w d l h (some (i, message)) e =
      λ r f.
        subst (λ q. From max_size connections q (readdress n i ip port connections) w)
          (some-injective _ _ f)
          (record {
            bytes = bytes;
            ip = ip;
            port = port;
            before = before;
            received = d;
            fits = l;
            sender = find_key-Sender connections bytes (i, message) e;
            size = refl;
            readdressed = refl;
          })

  after_size :
      (max_size : ℕ) (connections : List (Connection n)) (b : Bool) (x y : Result)
      → Says max_size connections x
      → (b ≡ false → Says max_size connections y)
      → Says max_size connections (if b then x else y)
  after_size max_size connections true x y f g = f
  after_size max_size connections false x y f g = g refl

  after_recv :
      (iterations max_size : ℕ) (connections : List (Connection n))
      → ((w : World)
          → Says max_size connections (read_datagrams n iterations max_size connections w))
      → (d : Datagram) (before w : World) → n.recv_from before ≡ (d, w)
      → Says max_size connections (elim d [
        | nothing ↦ (none, connections, w)
        | datagram bytes ip port ↦
            if ltb (header_bytes + max_size) (length bytes)
            then read_datagrams n iterations max_size connections w
            else elim (find_key n connections bytes) [
              | none ↦ read_datagrams n iterations max_size connections w
              | some (i, message) ↦ (
                some (record {
                  message = message;
                  size = u16 (length bytes + 2 ^ 16 - header_bytes);
                  index = i;
                }),
                readdress n i ip port connections,
                w,
              )
            ]
      ])
  after_recv iterations max_size connections h nothing before w e = λ r f. cc
  after_recv iterations max_size connections h (datagram bytes ip port) before w e =
      after_size max_size connections (ltb (header_bytes + max_size) (length bytes)) _ _ (h w) (λ y.
        after_search iterations max_size connections bytes ip port before w e (ltb→le _ _ y) (h w)
          (find_key n connections bytes) refl)

  read_datagrams-Says :
      (iterations max_size : ℕ) (connections : List (Connection n)) (w : World)
      → Says max_size connections (read_datagrams n iterations max_size connections w)
  unfolding read_datagrams
  read_datagrams-Says zero max_size connections w = λ r f. cc
  read_datagrams-Says (suc iterations) max_size connections w =
      after_recv iterations max_size connections
        (read_datagrams-Says iterations max_size connections) (n.recv_from w).0 w (n.recv_from w).1
        refl

  -- When `read` returns a message, the socket has no port left to bind, and the last datagram
  -- taken from the network has a size that fits: the index is that of the first connection of
  -- the group whose key decrypts it, the message is what it decrypts to, the size is the
  -- datagram's less the 36 bytes of the header, modulo 2 ^ 16, and the new group is the old one with the address the
  -- datagram came from at that index.
  pub read-From :
      (max_size : ℕ) (port : Option ℕ) (connections : List (Connection n)) (w : World)
      → (r : Read n) (port' : Option ℕ) (connections' : List (Connection n)) (w' : World)
      → read n max_size port connections w ≡ (some r, port', connections', w')
      → From max_size connections r connections' w' × (port' ≡ none)
  unfolding read
  read-From max_size none connections w r port' connections' w' e = (
    subst (λ x. From max_size connections r x.2 x.3) e
        (read_datagrams-Says 5 max_size connections w r (ap (λ x. x.0) e)),
    sym (ap (λ x. x.1) e),
  )
  read-From max_size (some p) connections w r port' connections' w' e =
      elim (Bool-cases (n.bind p w).0) [
        | inr y ↦ cc (rw y at e)
        | inl y ↦
            let e' = rw y at e in
            (
              subst (λ x. From max_size connections r x.2 x.3) e'
                  (read_datagrams-Says 5 max_size connections (n.bind p w).1 r (ap (λ x. x.0) e')),
              sym (ap (λ x. x.1) e'),
            )
      ]
