-- ===== src/Net/Task/Buffers.antt =====
-- What AsyncSocket::recv does to the buffer that it is given.
use mkw_sp.Base.{
  ℕ, zero, suc, ◌+◌, ◌≤◌, ◌<◌, ◌≡◌, ◌∙◌, List, [], ◌∷◌, ◌++◌, true, Bool, arith, length, set, take,
  get_or, refl, sym, ap, length-set, get_or-set_ne, append_assoc, append-nil, ◌^◌, subst,
}
use mkw_sp.Base.Words.{sub32}
use mkw_sp.Net.{Platform, PlatformLaws, RecvResult}
use mkw_sp.Net.Task.{Task, blit, recv, on_recv}

pub length-blit :
    (buffer : List ℕ) (i : ℕ) (bytes : List ℕ) → length (blit buffer i bytes) ≡ length buffer
length-blit buffer i [] = refl
length-blit buffer i (b ∷ bytes) =
    length-blit (set buffer i b) (i + 1) bytes ∙ length-set buffer i b

pub get_or-blit :
    (buffer : List ℕ) (i j : ℕ) (bytes : List ℕ)
    → j < i
    → get_or (blit buffer i bytes) j 0 ≡ get_or buffer j 0
get_or-blit buffer i j [] h = refl
get_or-blit buffer i j (b ∷ bytes) h =
    get_or-blit (set buffer i b) (i + 1) j bytes (omega arith)
    ∙ get_or-set_ne buffer i j b 0 (omega arith)

take-set :
    (buffer : List ℕ) (i b : ℕ)
    → i < length buffer
    → take (suc i) (set buffer i b) ≡ take i buffer ++ b ∷ []
take-set [] i b h = elim h [ ]
take-set (x ∷ buffer) zero b h = refl
take-set (x ∷ buffer) (suc i) b h = ap (◌∷◌ x) (take-set buffer i b (omega arith))

-- The prefix of a buffer grows by the bytes that are stored behind it.
pub take-blit :
    (buffer : List ℕ) (i : ℕ) (bytes : List ℕ)
    → i + length bytes ≤ length buffer
    → take (i + length bytes) (blit buffer i bytes) ≡ take i buffer ++ bytes
take-blit buffer i [] h = ap (λ n. take n buffer) (omega arith) ∙ sym (append-nil (take i buffer))
take-blit buffer i (b ∷ bytes) h =
    ap (λ n. take n (blit (set buffer i b) (i + 1) bytes)) (omega arith)
    ∙ take-blit (set buffer i b) (i + 1) bytes (omega (arith, length-set buffer i b))
    ∙ ap (λ l. l ++ bytes)
        (ap (λ n. take n (set buffer i b)) {y = suc i} (omega arith)
          ∙ take-set buffer i b (omega arith))
    ∙ append_assoc (take i buffer) (b ∷ []) bytes

-- What a task has received so far.
abbrev pub contents : Task → List ℕ
contents t = take t.offset t.buffer

-- The bytes that calls of SORecv have taken from the network, in order.
pub data Receives (p : Platform) (w : p.World) : List ℕ → p.World → Type 0 where
  here : Receives p w [] w
  next :
      {bytes : List ℕ} {v u : p.World} (n : ℕ) (more : List ℕ)
      → Receives p w bytes v
      → p.recv n v ≡ (RecvResult.received more, u)
      → Receives p w (bytes ++ more) u
  idle :
      {bytes : List ℕ} {v u : p.World} (n : ℕ)
      → Receives p w bytes v
      → p.recv n v ≡ (RecvResult.again, u)
      → Receives p w bytes u

-- What a call of recv for `size` bytes in all does when it returns true.
pub record Received (p : Platform) (t : Task) (size : ℕ) (w : p.World) (r : Task × p.World)
    : Type 0 where
  pub bytes : List ℕ
  pub stored :
      r.0 ≡ record t { buffer = blit t.buffer t.offset bytes; offset = t.offset + length bytes }
  pub within : t.offset + length bytes ≤ size
  pub from : Receives p w bytes r.1

module _ {p : Platform} (l : PlatformLaws p) where
  pub recv-Received :
      (t t' : Task) (size : ℕ) (w w' : p.World)
      → t.offset ≤ size
      → size < 2 ^ 16
      → recv p t size w ≡ (true, t', w')
      → Received p t size w (t', w')
  unfolding recv
  recv-Received t t' size w w' h small e = go (p.recv (sub32 size t.offset) w) refl e
    where
      go :
          (r : RecvResult × p.World)
          → p.recv (sub32 size t.offset) w ≡ r
          → ◌≡◌ {A = Bool × Task × p.World}
              (let (ok, u) = on_recv p t r.0 in (ok, u, r.1))
              (true, t', w')
          → Received p t size w (t', w')
      go (RecvResult.received bytes, v) q e =
          let fits = l.recv_size _ w v bytes q in
          record {
            bytes = bytes;
            stored =
                sym (ap (λ x. x.1) e)
                ∙ ap (λ n. record t { buffer = blit t.buffer t.offset bytes; offset = n })
                    (omega (arith, fits));
            within = omega (arith, fits);
            from =
                subst (Receives p w bytes) (ap (λ x. x.2) e)
                  (Receives.next _ bytes Receives.here q);
          }
      go (RecvResult.again, v) q e = record {
        bytes = [];
        stored = sym (ap (λ x. x.1) e) ∙ ap (λ n. record t { offset = n }) (omega arith);
        within = omega arith;
        from = subst (Receives p w []) (ap (λ x. x.2) e) (Receives.idle _ Receives.here q);
      }
      go (RecvResult.failed, v) q e = cc
