-- ===== src/Net/Transfer/Framing.antt =====
-- AsyncSocket::poll, the reading part: how a message is put together from what SORecv returns.
use mkw_sp.Base.{
  eq→==, if◌then◌else◌, length-replicate, ℕ, ◌+◌, ◌≤◌, ◌<◌, ◌≡◌, ◌∙◌, List, [], ◌++◌, true, false,
  Bool, arith, length, refl, sym, ap, subst, append_assoc, append-nil, ltb, ◌==◌, leb, Bool-cases,
  ltb→lt, inl, inr, ◌&&◌, ◌≢◌,
}
use mkw_sp.Base.Words.{u16, sub32}
use mkw_sp.Bytes.{read16}
use mkw_sp.Net.{Platform, PlatformLaws}
use mkw_sp.Net.Task.{Task, recv, blit, new_task}
use mkw_sp.Net.Task.Buffers.{
  contents, Receives, Received, recv-Received, take-blit, length-blit, get_or-blit,
}
use mkw_sp.Net.Transfer.{on_size, read_size, read_body, read_task}
use native.Mathlib.Decide.{ℕ_discrete}

-- What holds of the task that is being read: nothing is received past its end, its end lies inside
-- its buffer, and its size is the one that its first two bytes hold.
pub record IsRead (t : Task) : Type 0 where
  pub storage : length t.buffer ≡ 1024
  pub bound : t.size ≤ 1022
  pub unread : t.offset < 2 → t.size ≡ 0
  pub within : t.offset ≤ 2 + t.size
  pub size_eq : 2 ≤ t.offset → t.size ≡ read16 t.buffer 0

-- From one task to another by bytes that come from the network.
pub record Frames (p : Platform) (t : Task) (w : p.World) (u : Task) (v : p.World) : Type 0 where
  pub bytes : List ℕ
  pub grows : contents u ≡ contents t ++ bytes
  pub from : Receives p w bytes v
  pub valid : IsRead u

pub Receives-trans :
    {p : Platform} {w v u : p.World} {xs ys : List ℕ}
    → Receives p w xs v
    → Receives p v ys u
    → Receives p w (xs ++ ys) u
Receives-trans {p} {w} {v} {xs} r Receives.here =
    subst (λ l. Receives p w l v) (sym (append-nil xs)) r
Receives-trans {p} {w} {u} {xs} r (Receives.next {bytes = bytes} n more s e) =
    subst (λ l. Receives p w l u) (append_assoc xs bytes more)
      (Receives.next n more (Receives-trans r s) e)
Receives-trans r (Receives.idle n s e) = Receives.idle n (Receives-trans r s) e

Frames-trans :
    {p : Platform} {t u s : Task} {w v x : p.World}
    → Frames p t w u v
    → Frames p u v s x
    → Frames p t w s x
Frames-trans {t} f g = record {
  bytes = f.bytes ++ g.bytes;
  grows = g.grows ∙ ap (λ l. l ++ g.bytes) f.grows ∙ append_assoc (contents t) f.bytes g.bytes;
  from = Receives-trans f.from g.from;
  valid = g.valid;
}

Frames-refl : {p : Platform} {t : Task} {w : p.World} → IsRead t → Frames p t w t w
Frames-refl {t} v = record {
  bytes = [];
  grows = sym (append-nil (contents t));
  from = Receives.here;
  valid = v;
}

read16-blit :
    (buffer : List ℕ) (i : ℕ) (bytes : List ℕ)
    → 2 ≤ i
    → read16 (blit buffer i bytes) 0 ≡ read16 buffer 0
unfolding read16
read16-blit buffer i bytes h =
    rw (get_or-blit buffer i 0 bytes (omega arith), get_or-blit buffer i 1 bytes (omega arith))

module _ {p : Platform} (l : PlatformLaws p) (t : Task) (v : IsRead t) where
  contents-recv :
      (u : Task) (size : ℕ) (w x : p.World)
      → size ≤ 1024
      → (r : Received p t size w (u, x)) → contents u ≡ contents t ++ r.bytes
  contents-recv u size w x small r =
      ap contents r.stored
      ∙ take-blit t.buffer t.offset r.bytes (omega (arith, r.within, v.storage))

  body-IsRead :
      (u : Task) (w x : p.World) → 2 ≤ t.offset → Received p t (2 + t.size) w (u, x) → IsRead u
  body-IsRead u w x h r = subst IsRead (sym r.stored) (record {
    storage = length-blit t.buffer t.offset r.bytes ∙ v.storage;
    bound = v.bound;
    unread = λ q. absurd (omega arith);
    within = r.within;
    size_eq = λ q. v.size_eq h ∙ sym (read16-blit t.buffer t.offset r.bytes h);
  })

  -- With both bytes of the size in, the task takes their value for its size.
  sized-IsRead :
      (u : Task) (w x : p.World)
      → t.offset < 2
      → Received p t 2 w (u, x)
      → u.offset ≡ 2
      → read16 u.buffer 0 ≤ 1022
      → IsRead (record u { size = read16 u.buffer 0 })
  sized-IsRead u w x h r full small = record {
    storage =
        ap (λ y. length y.buffer) r.stored ∙ length-blit t.buffer t.offset r.bytes ∙ v.storage;
    bound = small;
    unread = λ q. absurd (omega arith);
    within = omega arith;
    size_eq = λ q. refl;
  }

  half-IsRead :
      (u : Task) (w x : p.World) → t.offset < 2 → Received p t 2 w (u, x) → u.offset ≢ 2 → IsRead u
  half-IsRead u w x h r ne =
      let off : u.offset ≡ t.offset + length r.bytes = ap (λ y. y.offset) r.stored in
      let size : u.size ≡ t.size = ap (λ y. y.size) r.stored in
      let none_yet : t.size ≡ 0 = v.unread h in
      record {
        storage =
            ap (λ y. length y.buffer) r.stored ∙ length-blit t.buffer t.offset r.bytes ∙ v.storage;
        bound = omega arith;
        unread = λ q. omega arith;
        within = omega (arith, r.within);
        size_eq = λ q. absurd (omega (arith, r.within));
      }

  Frames-eq :
      {w x : p.World} (b : Bool) (t' u : Task) (w' : p.World)
      → ◌≡◌ {A = Bool × Task × p.World} (b, t', w') (true, u, x)
      → Frames p t w t' w'
      → Frames p t w u x
  Frames-eq {w} b t' u w' e f = subst (λ (r : Bool × Task × p.World). Frames p t w r.1 r.2) e f

  on_size-Frames :
      (r : Bool × Task × p.World) (u : Task) (w x : p.World)
      → t.offset < 2
      → recv p t 2 w ≡ r
      → on_size p r ≡ (true, u, x)
      → Frames p t w u x
  unfolding on_size
  on_size-Frames (false, t', w') u w x h q e = cc
  on_size-Frames (true, t', w') u w x h q e =
      let r = recv-Received l t t' 2 w w' (omega arith) (omega arith) q in
      elim (ℕ_discrete t'.offset 2) [
        | yes full ↦
            let test : (t'.offset == 2) ≡ true = eq→== _ _ full in
            let e' = rw test at e in
            Frames-eq _ _ u _ e' (record {
              bytes = r.bytes;
              grows = contents-recv t' 2 w w' (omega arith) r;
              from = r.from;
              valid = sized-IsRead t' w w' h r full (ground arith);
            })
        | no half ↦
            let test : (t'.offset == 2) ≡ false = ground arith in
            let e' = rw test at e in
            Frames-eq _ _ u _ e' (record {
              bytes = r.bytes;
              grows = contents-recv t' 2 w w' (omega arith) r;
              from = r.from;
              valid = half-IsRead t' w w' h r half;
            })
      ]

  read_size-Frames : (u : Task) (w x : p.World) → read_size p t w ≡ (true, u, x) → Frames p t w u x
  unfolding read_size
  read_size-Frames u w x e = elim (Bool-cases (ltb t.offset 2)) [
    | inr old ↦ let e' = rw old at e in Frames-eq _ _ u _ e' (Frames-refl v)
    | inl new ↦ let e' = rw new at e in on_size-Frames (recv p t 2 w) u w x (ltb→lt _ _ new) refl e'
  ]

  read_body-Frames : (u : Task) (w x : p.World) → read_body p t w ≡ (true, u, x) → Frames p t w u x
  unfolding read_body
  read_body-Frames u w x e = elim (Bool-cases (leb 2 t.offset && ltb t.offset (sub32 t.size 2))) [
    | inr not_now ↦ let e' = rw not_now at e in Frames-eq _ _ u _ e' (Frames-refl v)
    | inl now ↦
        let e' = rw now at e in
        let size : u16 (2 + t.size) ≡ 2 + t.size = omega (arith, v.bound) in
        let e'' : recv p t (2 + t.size) w ≡ (true, u, x) = rw size at e' in
        let r = recv-Received l t u (2 + t.size) w x v.within (omega (arith, v.bound)) e'' in
        record {
          bytes = r.bytes;
          grows = contents-recv u (2 + t.size) w x (omega (arith, v.bound)) r;
          from = r.from;
          valid = body-IsRead u w x (ground arith) r;
        }
  ]

-- Suppose that SORecv stores between one byte and as many as it is asked for. If the reading part of
-- `poll` on a well-formed task returns true, the task is well formed again: nothing lies past the end
-- of the message or of the buffer, and the size is the one that the first two bytes announce. And it
-- holds what it held and, behind that, exactly the bytes that SORecv returned, in order.
pub read_task-Frames :
    {p : Platform} (l : PlatformLaws p) (t u : Task) (w x : p.World)
    → IsRead t
    → read_task p t w ≡ (true, u, x)
    → Frames p t w u x
unfolding read_task
read_task-Frames {p} l t u w x v e = go (read_size p t w) refl e
  where
    go :
        (r : Bool × Task × p.World)
        → read_size p t w ≡ r
        → ◌≡◌ {A = Bool × Task × p.World}
            (let (ok, t', w') = r in if ok then read_body p t' w' else (false, t', w'))
            (true, u, x)
        → Frames p t w u x
    go (false, t', w') q e = cc
    go (true, t', w') q e =
        let first = read_size-Frames l t v t' w w' q in
        Frames-trans first (read_body-Frames l t' first.valid u w' x e)

-- A new task is empty and well formed.
pub new_task-IsRead : IsRead new_task
new_task-IsRead = omega (arith, length-replicate {A = ℕ} 1024 0)
